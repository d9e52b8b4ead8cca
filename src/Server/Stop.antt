-- ===== src/Server/Stop.antt =====
-- The whole of `main`: the start, the serving until a signal, the record of how it ended, and the notice
-- that the tasks of the two transports get.
pub mod Orderly
use apme_api.Prelude.{
  Bool, true, false, Option, none, some, List, [], ◌∷◌, ◌++◌, Result, ok, err, map_err,
}
use apme_api.Text.{Str, codes}
use apme_api.Settings.{Environment}
use apme_api.Database.{World}
use apme_api.Server.Logs.{LogRecord, stopped, serve_failed}
use apme_api.Server.Start.{Platform, StartError, App, sent, init_ores_logger, start}

-- What `tokio::signal::ctrl_c` yields: `false` where the listener for the signal failed.
abbrev pub Signal : Type 0
Signal = Bool

-- What happens while `axum::serve` runs: the signal, where one came, and its own outcome.
pub record Served : Type 0 where
  pub signal : Option Signal
  pub outcome : Result Str (Unit {0})

pub data MainError : Type 0 where
  not_started : StartError → MainError
  not_served : Str → MainError

-- What the run leaves: the records that the logger has sent, the warnings of the tracing, what was
-- sent to the watch channel, and what `main` returns.
pub record Run : Type 0 where
  pub records : List LogRecord
  pub warnings : List Str
  pub notices : List Bool
  pub returned : Result MainError (Unit {0})

-- The future of `with_graceful_shutdown`.
unfoldable pub graceful_shutdown : Option Signal → List Str × List Bool
unfolding codes
graceful_shutdown none = ([], [])
graceful_shutdown (some true) = ([], true ∷ [])
graceful_shutdown (some false) = (codes "shutdown signal listener failed" ∷ [], true ∷ [])

-- The `match` on `served`. What `send` answers is dropped.
unfoldable pub outcome_record : Result Str (Unit {0}) → LogRecord
outcome_record (ok _) = stopped
outcome_record (err _) = serve_failed

abbrev pub run_to_end : Platform → List LogRecord → Served → Run
run_to_end platform records served = record {
  records = records ++ sent platform (outcome_record served.outcome);
  warnings = (graceful_shutdown served.signal).0;
  notices = (graceful_shutdown served.signal).1;
  returned = map_err not_served served.outcome;
}

-- A start that fails is not recorded: `?` returns at once. `records` are those of the start.
abbrev pub continue_main :
    Platform
    → List LogRecord
    → (App → World → Served × World)
    → Result StartError App × World
    → Run × World
continue_main platform records serve (err e, w) =
    (record { records = records; warnings = []; notices = []; returned = err (not_started e) }, w)
continue_main platform records serve (ok app, w) =
    let (served, after) = serve app w in (run_to_end platform records served, after)

unfoldable pub main : Platform → Environment → (App → World → Served × World) → World → Run × World
main platform env serve w =
    continue_main platform (init_ores_logger platform).0 serve (start platform env w)
