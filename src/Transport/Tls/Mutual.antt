-- ===== src/Transport/Tls/Mutual.antt =====
-- A server that starts verifies its clients.
use apme_api.Prelude.{
  ◌≡◌, ap, ◌∙◌, ◌≢◌, true, not, some, List, [], ◌∷◌, ok, arith, All, ok_or, ok_or-eq-ok, ensure,
  ensure-eq-ok, and_then-eq-ok, collect_map, is_empty_list,
}
use apme_api.Domain.{Bytes}
use apme_api.Transport.Options.{Config}
use apme_api.Transport.Tls.{
  Rustls, certificate_not_opened, certificate_not_parsed, empty_chain, key_not_opened,
  key_not_parsed, key_missing, client_ca_not_opened, client_ca_not_parsed, empty_bundle,
  no_verifier, key_mismatch, ServerConfig, add_root, load_tls_config,
}

-- The server presents a chain that is not empty with its key, and trusts for its clients exactly the
-- certificates of the bundle, of which there is at least one and each can be a trust anchor.
pub record IsMutual (tls : Rustls) (config : Config) (server : ServerConfig) : Type 0 where
  pub chain_file : Bytes
  pub chain_opened : tls.open_file config.certificate_path ≡ some chain_file
  pub chain_read : tls.certs chain_file ≡ some server.certificates
  pub chain_present : server.certificates ≢ []
  pub key_file : Bytes
  pub key_opened : tls.open_file config.private_key_path ≡ some key_file
  pub key_read : tls.private_key key_file ≡ some (some server.private_key)
  pub key_matches : tls.matches_key server.certificates server.private_key ≡ true
  pub bundle_file : Bytes
  pub bundle_opened : tls.open_file config.client_ca_path ≡ some bundle_file
  pub bundle_read : tls.certs bundle_file ≡ some server.roots
  pub bundle_present : server.roots ≢ []
  pub anchored : All (λ root. tls.is_trust_anchor root ≡ true) server.roots
  pub verifier_built : tls.builds_verifier server.roots ≡ true

present : {A : Type 0} (xs : List A) → not (is_empty_list xs) ≡ true → xs ≢ []
present [] h e = cc
present (x ∷ xs) h e = cc

add_root-eq-ok :
    (tls : Rustls) (certificate root : Bytes)
    → add_root tls certificate ≡ ok root
    → (certificate ≡ root) × (tls.is_trust_anchor certificate ≡ true)
add_root-eq-ok tls certificate root h = ground arith

collected :
    (tls : Rustls) (cas roots : List Bytes)
    → collect_map (add_root tls) cas ≡ ok roots
    → (cas ≡ roots) × All (λ root. tls.is_trust_anchor root ≡ true) cas
unfolding collect_map
collected tls [] roots h = (ground arith, tt)
collected tls (c ∷ cas) roots h =
    let (root, e, h1) = and_then-eq-ok (add_root tls c) _ h in
    let (rest, e', h2) = and_then-eq-ok (collect_map (add_root tls) cas) _ h1 in
    let (same, anchor) = add_root-eq-ok tls c root e in
    let (same', anchors) = collected tls cas rest e' in (cc (same, same', h2), (anchor, anchors))

-- The TLS set-up succeeds only for a configuration as `IsMutual` describes it.
pub load_tls_config-IsMutual :
    (tls : Rustls) (config : Config) (server : ServerConfig)
    → load_tls_config tls config ≡ ok server
    → IsMutual tls config server
unfolding load_tls_config
load_tls_config-IsMutual tls config server h =
    let (f1, a, h1) =
      and_then-eq-ok (ok_or (tls.open_file config.certificate_path) certificate_not_opened) _ h in
    let (chain, b, h2) = and_then-eq-ok (ok_or (tls.certs f1) certificate_not_parsed) _ h1 in
    let (_, c, h3) = and_then-eq-ok (ensure (not (is_empty_list chain)) empty_chain) _ h2 in
    let (f2, d, h4) =
      and_then-eq-ok (ok_or (tls.open_file config.private_key_path) key_not_opened) _ h3 in
    let (read_key, e, h5) = and_then-eq-ok (ok_or (tls.private_key f2) key_not_parsed) _ h4 in
    let (key, f, h6) = and_then-eq-ok (ok_or read_key key_missing) _ h5 in
    let (f3, g, h7) =
      and_then-eq-ok (ok_or (tls.open_file config.client_ca_path) client_ca_not_opened) _ h6 in
    let (cas, i, h8) = and_then-eq-ok (ok_or (tls.certs f3) client_ca_not_parsed) _ h7 in
    let (_, j, h9) = and_then-eq-ok (ensure (not (is_empty_list cas)) empty_bundle) _ h8 in
    let (roots, k, h10) = and_then-eq-ok (collect_map (add_root tls) cas) _ h9 in
    let (_, l, h11) = and_then-eq-ok (ensure (tls.builds_verifier roots) no_verifier) _ h10 in
    let (_, m, h12) = and_then-eq-ok (ensure (tls.matches_key chain key) key_mismatch) _ h11 in
    let (same, anchors) = collected tls cas roots k in
    let bundle : tls.certs f3 ≡ some roots = ok_or-eq-ok _ client_ca_not_parsed i ∙ ap some same in
    let key_found : tls.private_key f2 ≡ some (some key) =
      ok_or-eq-ok _ key_not_parsed e ∙ ap some (ok_or-eq-ok read_key key_missing f) in
    let made : record { certificates = chain; private_key = key; roots = roots } ≡ server =
      ground (arith, h12) in
    rw (← made) (record {
      chain_file = f1;
      chain_opened = ok_or-eq-ok _ certificate_not_opened a;
      chain_read = ok_or-eq-ok _ certificate_not_parsed b;
      chain_present = present chain (ensure-eq-ok _ empty_chain c);
      key_file = f2;
      key_opened = ok_or-eq-ok _ key_not_opened d;
      key_read = key_found;
      key_matches = ensure-eq-ok _ key_mismatch m;
      bundle_file = f3;
      bundle_opened = ok_or-eq-ok _ client_ca_not_opened g;
      bundle_read = bundle;
      bundle_present = rw (← same) (present cas (ensure-eq-ok _ empty_bundle j));
      anchored = rw (← same) anchors;
      verifier_built = ensure-eq-ok _ no_verifier l;
    })
