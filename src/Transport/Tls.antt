-- ===== src/Transport/Tls.antt =====
-- Mutual TLS of the listener: `load_tls_config`. A certificate and a key are the bytes that
-- rustls-pemfile reads.
pub mod Mutual
use apme_api.Prelude.{
  Bool, not, Option, List, Result, ok, ok_or, ensure, collect_map, is_empty_list, if◌then◌else◌,
  err,
}
use apme_api.Prelude.Try.{◌>>=◌, ◌>>◌}
use apme_api.Text.{Str}
use apme_api.Domain.{Bytes}
use apme_api.Transport.Options.{Config}

-- The file system, rustls-pemfile and rustls; `none` and `false` stand for their errors.
pub record Rustls : Type 0 where
  pub open_file : Str → Option Bytes
  pub certs : Bytes → Option (List Bytes)
  pub private_key : Bytes → Option (Option Bytes)
  pub is_trust_anchor : Bytes → Bool
  pub builds_verifier : List Bytes → Bool
  pub matches_key : List Bytes → Bytes → Bool

pub data TlsError : Type 0 where
  certificate_not_opened certificate_not_parsed empty_chain : TlsError
  key_not_opened key_not_parsed key_missing : TlsError
  client_ca_not_opened client_ca_not_parsed empty_bundle invalid_client_ca : TlsError
  no_verifier key_mismatch : TlsError

-- A server configuration whose client-certificate verifier is mandatory.
pub record ServerConfig : Type 0 where
  pub certificates : List Bytes
  pub private_key : Bytes
  pub roots : List Bytes

-- `RootCertStore::add`.
abbrev pub add_root : Rustls → Bytes → Result TlsError Bytes
add_root tls certificate =
    if tls.is_trust_anchor certificate then ok certificate else err invalid_client_ca

unfoldable pub load_tls_config : Rustls → Config → Result TlsError ServerConfig
load_tls_config tls config = do
  certificates_file ← ok_or (tls.open_file config.certificate_path) certificate_not_opened
  certificates ← ok_or (tls.certs certificates_file) certificate_not_parsed
  ensure (not (is_empty_list certificates)) empty_chain
  private_key_file ← ok_or (tls.open_file config.private_key_path) key_not_opened
  read_key ← ok_or (tls.private_key private_key_file) key_not_parsed
  private_key ← ok_or read_key key_missing
  client_ca_file ← ok_or (tls.open_file config.client_ca_path) client_ca_not_opened
  client_cas ← ok_or (tls.certs client_ca_file) client_ca_not_parsed
  ensure (not (is_empty_list client_cas)) empty_bundle
  roots ← collect_map (add_root tls) client_cas
  ensure (tls.builds_verifier roots) no_verifier
  ensure (tls.matches_key certificates private_key) key_mismatch
  ok (record { certificates = certificates; private_key = private_key; roots = roots })
