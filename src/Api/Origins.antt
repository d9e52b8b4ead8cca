-- ===== src/Api/Origins.antt =====
-- The browser origin policy: `parse_allowed_origins`, and the choice of `cors_layer_from_env`.
pub mod Accepted
use apme_api.Prelude.{
  ℕ, ◌+◌, Bool, true, false, not, ◌&&◌, ◌||◌, Option, none, some, is_empty_list, List, [], ◌∷◌,
  ◌++◌, map, Result, ok, err, and_then, ok_or, collect_map, leb, select, if◌then◌else◌,
}
use apme_api.Text.{Str, codes, str_eq, strip_prefix, contains_char, split, trim, is_empty}
use apme_api.Settings.{Environment}
use apme_api.Http.{HeaderValue, Codecs}

-- What stops the start: an `io::Error` of kind `InvalidInput` with its message, or the refusal of a
-- header value.
pub data OriginError : Type 0 where
  invalid_input : Str → OriginError
  invalid_header : OriginError

abbrev pub default_dev_origins : Str
default_dev_origins = codes "http://127.0.0.1:3000,http://localhost:3000"

-- `origin.strip_prefix("https://").or_else(|| origin.strip_prefix("http://"))`
abbrev either : {A : Type 0} → Option A → Option A → Option A
either (some a) other = some a
either none other = other

unfoldable pub authority_of : Str → Option Str
authority_of origin =
    either (strip_prefix origin (codes "https://")) (strip_prefix origin (codes "http://"))

unfoldable pub is_not_authority : Str → Bool
is_not_authority authority =
    is_empty authority
    || (contains_char authority b'/'
        || (contains_char authority b'?' || contains_char authority b'#'))

-- One round of the loop.
unfoldable pub parse_origin : Codecs → Str → Result OriginError HeaderValue
parse_origin codecs origin =
    if str_eq origin (codes "*")
    then err (invalid_input (codes "wildcard CORS origins are not allowed"))
    else (and_then
        (ok_or (authority_of origin)
          (invalid_input (codes "CORS origin must use http or https: " ++ origin)))
        λ authority.
          if is_not_authority authority
          then err (
              invalid_input
                (codes "CORS origin must not contain a path, query, or fragment: " ++ origin))
          else ok_or (codecs.from_str origin) invalid_header)

unfoldable pub candidates : Str → List Str
candidates raw = select (λ origin. not (is_empty origin)) (map trim (split raw b','))

unfoldable pub parse_allowed_origins : Codecs → Str → Result OriginError (List HeaderValue)
parse_allowed_origins codecs raw =
    if is_empty_list (candidates raw)
    then err (invalid_input (codes "CORS_ALLOWED_ORIGINS must contain at least one origin"))
    else collect_map (parse_origin codecs) (candidates raw)

-- `u8::eq_ignore_ascii_case`.
unfoldable pub to_ascii_lowercase : ℕ → ℕ
to_ascii_lowercase c = if leb b'A' c && leb c b'Z' then c + 32 else c

unfoldable pub eq_ignore_ascii_case : Str → Str → Bool
unfolding to_ascii_lowercase
eq_ignore_ascii_case s t = str_eq (map to_ascii_lowercase s) (map to_ascii_lowercase t)

abbrev is_production : Option Str → Bool
is_production none = false
is_production (some value) = eq_ignore_ascii_case value (codes "production")

abbrev pub origins_or_default : Option Str → Option Str → Result OriginError Str
origins_or_default (some value) app_env = ok value
origins_or_default none app_env =
    if is_production app_env
    then err (invalid_input (codes "CORS_ALLOWED_ORIGINS is required when APP_ENV=production"))
    else ok default_dev_origins
