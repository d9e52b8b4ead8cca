-- ===== src/Api/Origins/Accepted.antt =====
-- Exactly which configurations of browser origins are accepted.
use apme_api.Prelude.{
  ◌≡◌, refl, ◌≢◌, ◌↔◌, ◌⊎◌, inl, inr, false, none, some, List, [], ◌∷◌, ◌++◌, Result, ok, err,
  arith, All, Bool-cases, Option-cases, Pairs, collect_map_iff, is_empty_list, if◌then◌else◌,
}
use apme_api.Text.{Str, codes, str_eq, strip_prefix}
use apme_api.Text.Laws.{str_eq_iff, strip_prefix_iff, strip_prefix-append, contains_char_iff}
use apme_api.Http.{HeaderValue, Codecs}
use apme_api.Api.Origins.{
  OriginError, authority_of, is_not_authority, parse_origin, candidates, parse_allowed_origins,
}

-- A host with an optional port: not empty, and free of a path, a query and a fragment.
pub record IsAuthority (authority : Str) : Type 0 where
  pub present : authority ≢ []
  pub no_path : All (λ c. c ≢ b'/') authority
  pub no_query : All (λ c. c ≢ b'?') authority
  pub no_fragment : All (λ c. c ≢ b'#') authority

is_not_authority_iff : (a : Str) → (is_not_authority a ≡ false) ↔ IsAuthority a
unfolding is_not_authority
is_not_authority_iff [] = (λ h. cc, λ h. absurd (h.present refl))
is_not_authority_iff (c ∷ a) = (
  λ h. record {
    present = λ e. cc;
    no_path = (contains_char_iff (c ∷ a) b'/').0 (ground arith);
    no_query = (contains_char_iff (c ∷ a) b'?').0 (ground arith);
    no_fragment = (contains_char_iff (c ∷ a) b'#').0 (ground arith);
  },
  λ h. rw (
    (contains_char_iff (c ∷ a) b'/').1 h.no_path,
    (contains_char_iff (c ∷ a) b'?').1 h.no_query,
    (contains_char_iff (c ∷ a) b'#').1 h.no_fragment,
  ),
)

-- A text with one of the two schemes in front.
abbrev pub HasScheme : Str → Str → Type 0
HasScheme origin authority =
    (origin ≡ codes "https://" ++ authority) ⊎ (origin ≡ codes "http://" ++ authority)

http_is_not_https : (a : Str) → strip_prefix (codes "http://" ++ a) (codes "https://") ≡ none
unfolding codes strip_prefix
http_is_not_https a = refl

authority_of_iff : (origin a : Str) → (authority_of origin ≡ some a) ↔ HasScheme origin a
unfolding authority_of
authority_of_iff origin a = (
  λ h. elim (Option-cases (strip_prefix origin (codes "https://"))) [
    | inl e ↦ inr ((strip_prefix_iff origin (codes "http://") a).0 (ground arith))
    | inr (b, e) ↦ inl ((strip_prefix_iff origin (codes "https://") a).0 (ground arith))
  ],
  elim [
    | inl e ↦ rw (e, strip_prefix-append (codes "https://") a)
    | inr e ↦ rw (e, http_is_not_https a, strip_prefix-append (codes "http://") a)
  ],
)

-- The header value of an origin: http or https, then an authority.
abbrev pub IsOrigin : Codecs → Str → HeaderValue → Type 0
IsOrigin codecs origin value =
    (authority : Str) × HasScheme origin authority
    × IsAuthority authority
    × (codecs.from_str origin ≡ some value)

wildcard_has_no_scheme : authority_of (codes "*") ≡ none
unfolding authority_of codes strip_prefix
wildcard_has_no_scheme = refl

not_wildcard : (origin a : Str) → HasScheme origin a → str_eq origin (codes "*") ≡ false
not_wildcard origin a h = elim (Bool-cases (str_eq origin (codes "*"))) [
  | inl e ↦
      let same = (str_eq_iff origin (codes "*")).0 e in
      cc (rw same at ((authority_of_iff origin a).1 h), wildcard_has_no_scheme)
  | inr e ↦ e
]

parse_origin_iff :
    (codecs : Codecs) (origin : Str) (value : HeaderValue)
    → (parse_origin codecs origin ≡ ok value) ↔ IsOrigin codecs origin value
unfolding parse_origin
parse_origin_iff codecs origin value = (
  λ h. elim (Option-cases (authority_of origin)) [
    | inl e ↦ ground arith
    | inr (a, e) ↦ elim (Bool-cases (is_not_authority a)) [
      | inl bad ↦ ground arith
      | inr good ↦
          (a, (authority_of_iff origin a).0 e, (is_not_authority_iff a).0 good, ground arith)
    ]
  ],
  λ (a, scheme, good, rendered). rw (
    not_wildcard origin a scheme,
    (authority_of_iff origin a).1 scheme,
    (is_not_authority_iff a).1 good,
    rendered,
  ),
)

nonempty_collection :
    (R : Str → HeaderValue → Type 0) (cs : List Str) (origins : List HeaderValue) (e : OriginError)
    (r : Result OriginError (List HeaderValue))
    → ((r ≡ ok origins) ↔ Pairs R cs origins)
    → ((if is_empty_list cs then err e else r) ≡ ok origins) ↔ ((origins ≢ []) × Pairs R cs origins)
nonempty_collection R [] [] e r all = (λ h. cc, λ h. absurd (h.0 refl))
nonempty_collection R [] (o ∷ os) e r all = (λ h. cc, λ h. absurd h.1)
nonempty_collection R (c ∷ cs) [] e r all = (λ h. absurd (all.0 h), λ h. absurd h.1)
nonempty_collection R (c ∷ cs) (o ∷ os) e r all = (λ h. ((λ q. cc), all.0 h), λ h. all.1 h.1)

-- A configuration is accepted exactly when it names at least one origin and every piece that is not
-- blank is an http or https origin with no path, query or fragment and makes a header value; the
-- answer is those values, in order.
pub parse_allowed_origins_iff :
    (codecs : Codecs) (raw : Str) (origins : List HeaderValue)
    → (parse_allowed_origins codecs raw ≡ ok origins)
      ↔ ((origins ≢ []) × Pairs (IsOrigin codecs) (candidates raw) origins)
unfolding parse_allowed_origins
parse_allowed_origins_iff codecs raw origins =
    nonempty_collection (IsOrigin codecs) (candidates raw) origins _ _ (
      collect_map_iff (parse_origin codecs) (IsOrigin codecs) (parse_origin_iff codecs)
        (candidates raw) origins)
