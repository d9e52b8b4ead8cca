-- ===== src/Server/Stop/Orderly.antt =====
-- What the records say of the run of `main` that left them.
use apme_api.Prelude.{
  List, ◌≡◌, true, false, Bool-cases, refl, sym, ap, ◌↔◌, ◌⊎◌, inl, inr, Memᴰ, mem_cases, Result,
  ok, err, map_err, [], ◌∷◌,
}
use apme_api.Text.{Str, codes}
use apme_api.Settings.{Environment}
use apme_api.Database.{World, continue, lift}
use apme_api.Server.Logs.{LogRecord, logger, starting, stopped, serve_failed}
use apme_api.Server.Start.{Platform, StartError, not_logged, App, sent, init_ores_logger, start}
use apme_api.Server.Start.Ready.{IsReady, start-IsReady}
use apme_api.Server.Stop.{Served, Run, not_started, not_served, outcome_record, continue_main, main}

-- The logger sends the record.
abbrev pub IsSent : Platform → LogRecord → Type 0
IsSent platform log_record = platform.sends logger log_record ≡ true

-- Either the record of the start is sent, or it is not, and then nothing else is done. `service.stopped`
-- is recorded exactly where `main` succeeds and the logger sends it, `service.serve.failed` exactly
-- where the serving failed and the logger sends it; and either the start failed, or everything was ready.
pub record IsRecorded (platform : Platform) (env : Environment) (w after : World) (run : Run)
    : Type 0 where
  pub begun :
      (IsSent platform starting × Memᴰ starting run.records)
      ⊎ ((platform.sends logger starting ≡ false)
          × (run.records ≡ [])
          × (run.returned ≡ err (not_started not_logged))
          × (after ≡ w))
  pub stopped_iff : Memᴰ stopped run.records ↔ ((run.returned ≡ ok tt) × IsSent platform stopped)
  pub failed_iff :
      Memᴰ serve_failed run.records
      ↔ (((e : Str) × (run.returned ≡ err (not_served e))) × IsSent platform serve_failed)
  pub ready :
      ((e : StartError) × (run.returned ≡ err (not_started e)))
      ⊎ ((app : App) × (u : World) × IsReady platform env w u app)

stopped_not_starting : ¬ (stopped ≡ starting)
unfolding stopped starting codes
stopped_not_starting e =
    let same : stopped.fields ≡ starting.fields = ap (λ (r : LogRecord). r.fields) e in cc

failed_not_starting : ¬ (serve_failed ≡ starting)
unfolding serve_failed starting codes
failed_not_starting e = cc

failed_not_stopped : ¬ (serve_failed ≡ stopped)
unfolding serve_failed stopped codes
failed_not_stopped e = cc

mem-sent :
    (platform : Platform) (r s : LogRecord)
    → Memᴰ r (sent platform s) ↔ ((r ≡ s) × IsSent platform s)
unfolding sent
mem-sent platform r s = elim (Bool-cases (platform.sends logger s)) [
  | inl e ↦ rw e (
    λ m. elim (mem_cases m) [ inl same ↦ (same, refl) | inr k ↦ elim k [ ] ],
    λ (same, _). Memᴰ.head same,
  )
  | inr e ↦ rw e (λ m. elim m [ ], λ (same, h). cc)
]

module _ (platform : Platform) where
  abbrev records_of : Result Str (Unit {0}) → List LogRecord
  records_of outcome = starting ∷ sent platform (outcome_record outcome)

  later_record :
      (outcome : Result Str (Unit {0})) (r : LogRecord)
      → ¬ (r ≡ starting)
      → Memᴰ r (records_of outcome)
      → (r ≡ outcome_record outcome) × IsSent platform (outcome_record outcome)
  later_record outcome r other m = elim (mem_cases m) [
    | inl e ↦ absurd (other e)
    | inr n ↦ (mem-sent platform r (outcome_record outcome)).0 n
  ]

  outcome_iff :
      (outcome : Result Str (Unit {0}))
      → let returned = map_err not_served outcome in
        (Memᴰ stopped (records_of outcome) ↔ ((returned ≡ ok tt) × IsSent platform stopped))
        × (Memᴰ serve_failed (records_of outcome)
            ↔ (((e : Str) × (returned ≡ err (not_served e))) × IsSent platform serve_failed))
  unfolding outcome_record
  outcome_iff (ok tt) = (
    (
      λ m. (refl, (later_record (ok tt) stopped stopped_not_starting m).1),
      λ (done, h). Memᴰ.tail ((mem-sent platform stopped stopped).1 (refl, h)),
    ),
    (
      λ m. absurd (failed_not_stopped (later_record (ok tt) serve_failed failed_not_starting m).0),
      λ ((e, h), k). cc,
    ),
  )
  outcome_iff (err failure) = (
    (
      λ m.
          absurd (
            failed_not_stopped (sym (later_record (err failure) stopped stopped_not_starting m).0)),
      λ (h, k). cc,
    ),
    (
      λ m. ((failure, refl), (later_record (err failure) serve_failed failed_not_starting m).1),
      λ (e, h). Memᴰ.tail ((mem-sent platform serve_failed serve_failed).1 (refl, h)),
    ),
  )

  module _ (env : Environment) (serve : App → World → Served × World) (w : World) where
    continued-IsRecorded :
        (started : Result StartError App × World)
        → IsSent platform starting
        → start platform env w ≡ started
        → let run = continue_main platform (starting ∷ []) serve started in
          IsRecorded platform env w run.1 run.0
    continued-IsRecorded (ok app, after) sends h =
        let (stopped_iff, failed_iff) = outcome_iff (serve app after).0.outcome in
        record {
          begun = inl (sends, Memᴰ.head refl);
          stopped_iff = stopped_iff;
          failed_iff = failed_iff;
          ready = inr (app, after, start-IsReady platform env w after app h);
        }
    continued-IsRecorded (err e, after) sends h = record {
      begun = inl (sends, Memᴰ.head refl);
      stopped_iff = (
        λ m. elim (mem_cases m) [ inl d ↦ absurd (stopped_not_starting d) | inr k ↦ elim k [ ] ],
        λ (d, k). cc,
      );
      failed_iff = (
        λ m. elim (mem_cases m) [ inl d ↦ absurd (failed_not_starting d) | inr k ↦ elim k [ ] ],
        λ ((f, d), k). cc,
      );
      ready = inl (e, refl);
    }

    unlogged-IsRecorded :
        platform.sends logger starting ≡ false
        → let run = continue_main platform [] serve (err not_logged, w) in
          IsRecorded platform env w run.1 run.0
    unlogged-IsRecorded silent = record {
      begun = inr (silent, refl, refl, refl);
      stopped_iff = (λ m. elim m [ ], λ (d, k). cc);
      failed_iff = (λ m. elim m [ ], λ ((f, d), k). cc);
      ready = inl (not_logged, refl);
    }

    unlogged-start :
        platform.sends logger starting ≡ false → start platform env w ≡ (err not_logged, w)
    unfolding start init_ores_logger lift continue
    unlogged-start silent = rw silent refl

    -- However `main` runs: either the record of the start is sent, or it is not, and then `main` returns
    -- that error at once. `service.stopped` is recorded exactly where `main` succeeds and the logger
    -- sends it, `service.serve.failed` exactly where the serving failed and the logger sends it; and
    -- either the start failed or everything was ready.
    pub main-IsRecorded :
        let run = main platform env serve w in IsRecorded platform env w run.1 run.0
    unfolding main init_ores_logger sent
    main-IsRecorded = elim (Bool-cases (platform.sends logger starting)) [
      | inl e ↦ rw e (continued-IsRecorded (start platform env w) e refl)
      | inr e ↦ rw (e, unlogged-start e) (unlogged-IsRecorded e)
    ]
