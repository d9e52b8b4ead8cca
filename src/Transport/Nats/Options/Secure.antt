-- ===== src/Transport/Nats/Options/Secure.antt =====
-- Which configurations of the worker are accepted.
use apme_api.Prelude.{
  ℕ, ◌≤◌, ◌≡◌, refl, ap, ◌≢◌, ◌↔◌, ◌⊎◌, inl, inr, true, not, ◌&&◌, List, [], ◌∷◌, ◌++◌, ok, arith,
  All, all_iff, Bool-cases, ensure, ensure-eq-ok, and_then-eq-ok, ok_or, ◌==◌,
}
use apme_api.Text.{Str, codes, len, is_empty, strip_prefix, split, contains_char, extend}
use apme_api.Text.Laws.{strip_prefix_iff, contains_char_iff}
use apme_api.Transport.Nats.Options.{
  Config, not_tls, embedded_credentials, invalid_name, is_topology_char, safe_topology_name,
  first_piece, authority_of_rest, validate,
}

-- A letter or digit of ASCII, an underscore or a hyphen.
abbrev pub IsTopologyChar : ℕ → Type 0
IsTopologyChar c =
    ((48 ≤ c) × (c ≤ 57)) ⊎ ((65 ≤ c) × (c ≤ 90)) ⊎ ((97 ≤ c) × (c ≤ 122)) ⊎ (c ≡ 95) ⊎ (c ≡ 45)

pub record IsTopologyName (name : Str) : Type 0 where
  pub present : name ≢ []
  pub bounded : len name ≤ 128
  pub plain : All IsTopologyChar name

is_topology_char_iff : (c : ℕ) → (is_topology_char c ≡ true) ↔ IsTopologyChar c
unfolding is_topology_char
is_topology_char_iff c = ground arith

safe_topology_name_iff : (name : Str) → (safe_topology_name name ≡ true) ↔ IsTopologyName name
unfolding safe_topology_name
safe_topology_name_iff [] = (λ h. cc, λ n. absurd (n.present refl))
safe_topology_name_iff (c ∷ s) = (
  λ h. record {
    present = λ e. cc;
    bounded = ground arith;
    plain = (all_iff is_topology_char IsTopologyChar is_topology_char_iff (c ∷ s)).0 (ground arith);
  },
  λ n. ground (
    arith,
    n.bounded,
    (all_iff is_topology_char IsTopologyChar is_topology_char_iff (c ∷ s)).1 n.plain,
  ),
)

-- The first piece ends at the first separator, or at the end.
abbrev pub IsFirstPiece : ℕ → Str → Str → Type 0
IsFirstPiece d s piece =
    (tail : Str) × (s ≡ piece ++ tail)
    × All (λ c. c ≢ d) piece
    × ((tail ≡ []) ⊎ ((rest : Str) × (tail ≡ d ∷ rest)))

first_piece-extend : (c : ℕ) (ps : List Str) → first_piece (extend c ps) ≡ c ∷ first_piece ps
first_piece-extend c [] = refl
first_piece-extend c (p ∷ ps) = refl

first_piece-split : (s : Str) (d : ℕ) → IsFirstPiece d s (first_piece (split s d))
unfolding split
first_piece-split [] d = ([], refl, tt, inl refl)
first_piece-split (c ∷ s) d = elim (Bool-cases (c == d)) [
  | inl e ↦ rw e (c ∷ s, refl, tt, inr (s, ground arith))
  | inr e ↦
      let (tail, whole, free, ends) = first_piece-split s d in
      rw (e, first_piece-extend c (split s d))
        (tail, ap (λ t. c ∷ t) whole, ((λ q. ground arith), free), ends)
]

-- The address of a TLS server with no credentials in it: the scheme, then a host that is not empty and
-- holds no `@`, up to the first slash or the end.
pub record IsSecureUrl (url : Str) : Type 0 where
  pub rest : Str
  pub host : Str
  pub scheme : url ≡ codes "tls://" ++ rest
  pub host_first : IsFirstPiece b'/' rest host
  pub host_named : host ≢ []
  pub no_credentials : All (λ c. c ≢ b'@') host

pub record IsValidConfig (config : Config) : Type 0 where
  pub secure : IsSecureUrl config.url
  pub request_stream_named : IsTopologyName config.request_stream
  pub response_stream_named : IsTopologyName config.response_stream
  pub consumer_named : IsTopologyName config.consumer

host_test :
    (host : Str)
    → (not (is_empty host) && not (contains_char host b'@')) ≡ true
    → (host ≢ []) × All (λ c. c ≢ b'@') host
host_test [] h = cc
host_test (c ∷ s) h = ((λ e. cc), (contains_char_iff (c ∷ s) b'@').0 (ground arith))

pub validate-IsValidConfig : (config : Config) → validate config ≡ ok tt → IsValidConfig config
unfolding validate authority_of_rest
validate-IsValidConfig config h =
    let (rest, stripped, h1) =
      and_then-eq-ok (ok_or (strip_prefix config.url (codes "tls://")) not_tls) _ h in
    let host = authority_of_rest rest in
    let (_, hosted, h2) =
      and_then-eq-ok
        (ensure (not (is_empty host) && not (contains_char host b'@')) embedded_credentials) _ h1 in
    let (_, requests, h3) =
      and_then-eq-ok (ensure (safe_topology_name config.request_stream) invalid_name) _ h2 in
    let (_, responses, consumer) =
      and_then-eq-ok (ensure (safe_topology_name config.response_stream) invalid_name) _ h3 in
    let (named, free) = host_test host (ensure-eq-ok _ embedded_credentials hosted) in
    record {
      secure = record {
        rest = rest;
        host = host;
        scheme = (strip_prefix_iff config.url (codes "tls://") rest).0 (ground arith);
        host_first = first_piece-split rest b'/';
        host_named = named;
        no_credentials = free;
      };
      request_stream_named = (safe_topology_name_iff _).0 (ensure-eq-ok _ invalid_name requests);
      response_stream_named = (safe_topology_name_iff _).0 (ensure-eq-ok _ invalid_name responses);
      consumer_named = (safe_topology_name_iff _).0 (ensure-eq-ok _ invalid_name consumer);
    }
