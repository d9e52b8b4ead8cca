-- ===== src/Server/Cors/Coverage.antt =====
-- The layer lets a browser make every request that the router and the handlers look at.
use apme_api.Prelude.{Pairs, ◌≡◌, refl, [], ◌∷◌, Memᴰ, All, ok, and_then-eq-ok, ◌≢◌}
use apme_api.Text.{Str, codes}
use apme_api.Settings.{Environment}
use apme_api.Http.{Codecs, authorization, tenant_header, idempotency_header}
use apme_api.Api.Origins.{origins_or_default, candidates, parse_allowed_origins}
use apme_api.Api.Origins.Accepted.{IsOrigin, parse_allowed_origins_iff}
use apme_api.Server.Router.{get, post, routes}
use apme_api.Server.Cors.{CorsLayer, content_type, layer_for, cors_layer, cors_layer_from_env}

routed_methods : All (λ route. Memᴰ route.method (get ∷ post ∷ [])) routes
unfolding routes
routed_methods = (g, (g, (g, (g, (g, (p, (g, (p, (p, (g, tt))))))))))
  where
    g : Memᴰ get (get ∷ post ∷ [])
    g = Memᴰ.head refl

    p : Memᴰ post (get ∷ post ∷ [])
    p = Memᴰ.tail (Memᴰ.head refl)

own_headers :
    All
      (λ name. Memᴰ name (authorization ∷ content_type ∷ tenant_header ∷ idempotency_header ∷ []))
      (authorization ∷ tenant_header ∷ idempotency_header ∷ [])
own_headers = (
  Memᴰ.head refl,
  (
    Memᴰ.tail (Memᴰ.tail (Memᴰ.head refl)),
    (Memᴰ.tail (Memᴰ.tail (Memᴰ.tail (Memᴰ.head refl))), tt),
  ),
)

-- The layer of an environment that is accepted allows at least one origin, only origins that the
-- configuration lists, the method of every route, and the three headers that the handlers read.
pub cors_layer_from_env-covers :
    (codecs : Codecs) (env : Environment) (layer : CorsLayer)
    → cors_layer_from_env codecs env ≡ ok layer
    → (raw : Str) × (origins_or_default (env (codes "CORS_ALLOWED_ORIGINS")) (env (codes "APP_ENV"))
        ≡ ok raw)
      × (layer.allow_origin ≢ [])
      × Pairs (IsOrigin codecs) (candidates raw) layer.allow_origin
      × All (λ route. Memᴰ route.method layer.allow_methods) routes
      × All
          (λ name. Memᴰ name layer.allow_headers)
          (authorization ∷ tenant_header ∷ idempotency_header ∷ [])
unfolding cors_layer_from_env cors_layer
cors_layer_from_env-covers codecs env layer h =
    let (raw, chosen, h1) =
      and_then-eq-ok
        (origins_or_default (env (codes "CORS_ALLOWED_ORIGINS")) (env (codes "APP_ENV"))) _ h in
    let (origins, parsed, h2) = and_then-eq-ok (parse_allowed_origins codecs raw) _ h1 in
    let (some_origin, each) = (parse_allowed_origins_iff codecs raw origins).0 parsed in
    let same : layer_for origins ≡ layer = cc in
    (
      raw,
      chosen,
      rw (← same) some_origin,
      rw (← same) each,
      rw (← same) routed_methods,
      rw (← same) own_headers,
    )
