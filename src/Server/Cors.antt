-- ===== src/Server/Cors.antt =====
-- The CORS layer that `main` wraps the router in: `cors_layer_from_env` and `cors_layer`.
pub mod Coverage
use apme_api.Prelude.{List, [], ◌∷◌, Result, ok, and_then}
use apme_api.Text.{Str, codes}
use apme_api.Settings.{Environment}
use apme_api.Http.{HeaderValue, Codecs, authorization, tenant_header, idempotency_header}
use apme_api.Api.Origins.{OriginError, origins_or_default, parse_allowed_origins}
use apme_api.Server.Router.{Method, get, post}

abbrev pub content_type : Str
content_type = codes "content-type"

pub record CorsLayer : Type 0 where
  pub allow_origin : List HeaderValue
  pub allow_methods : List Method
  pub allow_headers : List Str

abbrev pub layer_for : List HeaderValue → CorsLayer
layer_for origins = record {
  allow_origin = origins;
  allow_methods = get ∷ post ∷ [];
  allow_headers = authorization ∷ content_type ∷ tenant_header ∷ idempotency_header ∷ [];
}

unfoldable pub cors_layer : Codecs → Str → Result OriginError CorsLayer
cors_layer codecs raw =
    and_then (parse_allowed_origins codecs raw) λ origins. ok (layer_for origins)

unfoldable pub cors_layer_from_env : Codecs → Environment → Result OriginError CorsLayer
cors_layer_from_env codecs env =
    and_then (origins_or_default (env (codes "CORS_ALLOWED_ORIGINS")) (env (codes "APP_ENV")))
      λ raw. cors_layer codecs raw
