-- ===== src/Settings.antt =====
-- Settings from the environment, as src/auth.rs, src/cases.rs and src/transport.rs read them.
use mathlib.Core.Option
use apme_api.Prelude.{not, Option, filter_some}
use apme_api.Text.{Str, trim, is_empty}

-- `env::var(name).ok()`.
abbrev pub Environment : Type 0
Environment = Str → Option Str

-- A value that is blank counts as missing.
unfoldable pub setting : Environment → Str → Option Str
setting env name = filter_some (λ value. not (is_empty value)) (Option.map trim (env name))
