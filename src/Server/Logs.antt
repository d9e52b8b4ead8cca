-- ===== src/Server/Logs.antt =====
-- The records that `main` sends through the crate `next_loggers`, field by field.
use apme_api.Prelude.{Bool, true, List, [], ◌∷◌}
use apme_api.Text.{Str, codes}

pub data Level : Type 0 where
  info error : Level

-- The JSON values that occur in a record.
pub data Value : Type 0 where
  string : Str → Value
  array : List Str → Value

-- The `Options` of the logger that are not left at their defaults.
pub record Logger : Type 0 where
  pub app_name : Str
  pub console : Bool

unfoldable pub logger : Logger
unfolding codes
logger = record { app_name = codes "apme-api"; console = true }

-- What the builder of a record is given before `send`.
pub record LogRecord : Type 0 where
  pub level : Level
  pub message : List Value
  pub fields : List (Str × Value)
  pub trace : Str
  pub routine : Str

unfoldable pub starting : LogRecord
unfolding codes
starting = record {
  level = info;
  message = string (codes "service.starting") ∷ [];
  fields =
      (codes "auth.mode", string (codes "protected_introspection"))
      ∷ (
        codes "transport.modes",
        array (
            codes "direct_read_only_db"
            ∷ codes "stateless_http"
            ∷ codes "stateful_mtls_tcp"
            ∷ codes "durable_jetstream"
            ∷ []),
      )
      ∷ [];
  trace = codes "ores-trace-MpUNZLngz1pc79VIPOQbX";
  routine = codes "ores-routine-_8OcwCEq_zTlF_JkXAbYS";
}

-- The two records of `main` itself have no fields.
abbrev plain : Level → Str → Str → LogRecord
plain level message trace = record {
  level = level;
  message = string message ∷ [];
  fields = [];
  trace = trace;
  routine = codes "ores-routine-LXDz6tbVdoUI5eNeypgUQ";
}

unfoldable pub stopped : LogRecord
unfolding codes
stopped = plain info (codes "service.stopped") (codes "ores-trace-FZpM2CvyWaNPgT1LBeAz7")

unfoldable pub serve_failed : LogRecord
unfolding codes
serve_failed = plain error (codes "service.serve.failed") (codes "ores-trace-sGdZeKkFgTHxCLy5GtfOC")
