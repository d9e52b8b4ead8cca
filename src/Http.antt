-- ===== src/Http.antt =====
-- HTTP headers as src/main.rs and src/auth.rs use them. A `HeaderValue` is its bytes; what the http
-- and uuid crates do with one is a parameter.
use apme_api.Prelude.{Option, none, some, if◌then◌else◌}
use apme_api.Text.{Str, codes, str_eq}
use apme_api.Domain.{Uuid, Bytes}

abbrev pub HeaderValue : Type 0
HeaderValue = Bytes

-- `HeaderMap::get`, by the lower-case name.
abbrev pub HeaderMap : Type 0
HeaderMap = Str → Option HeaderValue

abbrev pub no_headers : HeaderMap
no_headers name = none

abbrev pub insert_header : Str → HeaderValue → HeaderMap → HeaderMap
insert_header key value headers name = if str_eq name key then some value else headers name

pub record Codecs : Type 0 where
  pub to_str : HeaderValue → Option Str
  pub from_str : Str → Option HeaderValue
  pub parse_uuid : Str → Option Uuid

abbrev pub authorization : Str
authorization = codes "authorization"

abbrev pub tenant_header : Str
tenant_header = codes "x-apme-tenant-id"

abbrev pub idempotency_header : Str
idempotency_header = codes "idempotency-key"
