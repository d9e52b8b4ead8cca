-- ===== src/Cases/Mutations/Fresh.antt =====
-- The events of mutations that are no replays are new.
use apme_api.Prelude.{
  ◌≡◌, ◌≢◌, sym, ap, ◌∙◌, List, [], ◌∷◌, map, map-mem, Memᴰ, All, false, refl, Result, ok,
}
use mathlib.Core.Path.{subst}
use apme_api.Text.{Str}
use apme_api.Domain.{
  Uuid, Instant, VerifiedSubject, TenantContext, CreateCaseCommand, TransitionCaseCommand,
  RotateEncryptedObjectCommand, CaseMutationResult, Interfaces,
}
use apme_api.Database.{
  Tables, Pool, CreateArgs, TransitionArgs, RotateArgs, AuditArgs, MutationRow, Turn, Link, up,
  lost_request, lost_reply, World, Query, continue, raise_as, current, next_turn, later_turns,
  transmit, execute, read, SqlError, EventRow,
}
use apme_api.Database.Frames.{
  continue-eq-ok, finish-eq-ok, raise_as-eq-ok, read-eq-ok, lift-then-eq-ok,
}
use apme_api.Cases.Queries.Order.{select_event_sound}
use apme_api.Database.Invariants.{Keeps, IsSteady}
use apme_api.Cases.Errors.{storage, map_sql_error}
use apme_api.Cases.Service.{CaseService}
use apme_api.Cases.Invariants.{IsKeeping}
use apme_api.Cases.Mutations.{
  mutation_result, create_case, create_args, transition_case, transition_args,
  rotate_encrypted_object, rotate_args,
}
use apme_api.Cases.Mutations.Outcomes.{mutation_result-IsAnswer}

-- An event with this id is in the table of events.
abbrev pub Stored : Uuid → Tables → Type 0
Stored id t = Memᴰ id (map (λ e. e.event_id) t.events)

-- A procedure that removes no event, and that says of none that was there that it is no replay.
pub record IsAppending (q : Query MutationRow) : Type 0 where
  pub keeps : (id : Uuid) → Keeps (Stored id) q
  pub fresh :
      (t : Tables) (row : MutationRow)
      → (q t).0 ≡ ok row
      → row.replayed ≡ false
      → ¬ Stored row.event_id t

-- What the program relies on of its procedures for an event to be told but once.
pub record IsLedger (pool : Pool) : Type 0 where
  pub create : (args : CreateArgs) → IsAppending (pool.create_case args)
  pub transition : (args : TransitionArgs) → IsAppending (pool.transition_case args)
  pub rotate : (args : RotateArgs) → IsAppending (pool.rotate_case_object args)
  pub audit : (args : AuditArgs) (id : Uuid) → Keeps (Stored id) (pool.append_audit args)

-- What others do removes no event.
abbrev pub IsLasting : List Turn → Type 0
IsLasting = All (λ turn. (id : Uuid) (t : Tables) → Stored id t → Stored id (turn.others t))

-- All of these events are stored.
abbrev pub AllStored : List Uuid → Tables → Type 0
AllStored ids t = All (λ id. Stored id t) ids

pub All-Keeps :
    (ids : List Uuid) {A : Type 0} (q : Query A)
    → ((id : Uuid) → Keeps (Stored id) q)
    → Keeps (AllStored ids) q
All-Keeps [] q keeps t h = tt
All-Keeps (id ∷ ids) q keeps t (h, hs) = (keeps id t h, All-Keeps ids q keeps t hs)

pub lasting-IsSteady :
    (ids : List Uuid) (turns : List Turn) → IsLasting turns → IsSteady (AllStored ids) turns
lasting-IsSteady ids [] h = tt
lasting-IsSteady ids (turn ∷ turns) (h, hs) =
    (All-Keeps ids (λ t. (ok tt, turn.others t)) h, lasting-IsSteady ids turns hs)

pub ledger-IsKeeping :
    (ids : List Uuid) (pool : Pool)
    → IsLedger pool
    → IsKeeping (AllStored ids) (λ tenant. Unit {0}) pool
ledger-IsKeeping ids pool ledger = record {
  create = λ args any. All-Keeps ids (pool.create_case args) (ledger.create args).keeps;
  transition = λ args any. All-Keeps ids (pool.transition_case args) (ledger.transition args).keeps;
  rotate = λ args any. All-Keeps ids (pool.rotate_case_object args) (ledger.rotate args).keeps;
  audit = λ args any. All-Keeps ids (pool.append_audit args) (ledger.audit args);
}

pub next-IsLasting :
    (turns : List Turn)
    → IsLasting turns
    → ((id : Uuid) (t : Tables) → Stored id t → Stored id ((next_turn turns).others t))
      × IsLasting (later_turns turns)
next-IsLasting [] h = (λ id t m. m, tt)
next-IsLasting (turn ∷ turns) h = h

All-others :
    (ids : List Uuid) (turn : Turn) (t : Tables)
    → ((id : Uuid) (t : Tables) → Stored id t → Stored id (turn.others t))
    → AllStored ids t
    → AllStored ids (turn.others t)
All-others ids turn t h k = All-Keeps ids (λ u. (ok tt, turn.others u)) h t k

-- None of these events is the new one, which is stored now.
pub record IsNew (ids : List Uuid) (id : Uuid) (t : Tables) : Type 0 where
  pub unspent : All (λ old. old ≢ id) ids
  pub stored : Stored id t

unspent_ids :
    (ids : List Uuid) (id : Uuid) (t : Tables)
    → ¬ Stored id t
    → AllStored ids t
    → All (λ old. old ≢ id) ids
unspent_ids [] id t h k = tt
unspent_ids (old ∷ ids) id t h (m, k) =
    (λ same. h (subst (λ i. Stored i t) same m), unspent_ids ids id t h k)

transmit-fresh :
    (q : Query MutationRow) (link : Link) (t : Tables) (row : MutationRow)
    → IsAppending q
    → (transmit link q t).0 ≡ ok row
    → row.replayed ≡ false
    → ¬ Stored row.event_id t
transmit-fresh q up t row append h fresh = append.fresh t row h fresh
transmit-fresh q (lost_request e) t row append h fresh = cc
transmit-fresh q (lost_reply e) t row append h fresh = cc

transmit_same :
    {A : Type 0} (q : Tables → Result SqlError A) (link : Link) (t : Tables)
    → (transmit link (λ u. (q u, u)) t).1 ≡ t
transmit_same q up t = refl
transmit_same q (lost_request e) t = refl
transmit_same q (lost_reply e) t = refl

read_current :
    {A : Type 0} (q : Tables → Result SqlError A) (w : World) {r : Result SqlError A} {u : World}
    → read q w ≡ (r, u)
    → u.tables ≡ current w
unfolding read execute
read_current q w h =
    ap (λ r. r.1.tables) (sym h) ∙ transmit_same q (next_turn w.schedule).link (current w)

-- A result is only made of an event that its own read has found.
mutation_result_stored :
    (context : TenantContext) (row : MutationRow) (u w' : World) (m : CaseMutationResult)
    → mutation_result context row u ≡ (ok m, w')
    → Stored row.event_id w'.tables
unfolding mutation_result
mutation_result_stored context row u w' m h =
    let (case, u1, p, rest) = continue-eq-ok _ _ h in
    let (event, u2, q, last) = continue-eq-ok _ _ rest in
    let found = raise_as-eq-ok storage _ u1 q in
    let (there, own, named) =
      select_event_sound context.tenant_id row.event_id (current u1) (read-eq-ok _ u1 found) in
    let same : current u1 ≡ w'.tables =
      sym (read_current _ u1 found) ∙ ap (λ (v : World). v.tables) (finish-eq-ok _ u2 last).1 in
    subst (λ t. Stored row.event_id t) same
      (subst (λ id. Stored id (current u1)) named (map-mem (λ (e : EventRow). e.event_id) _ there))

-- The statement of a mutation, and the reads after it.
module _ (q : Query MutationRow) (append : IsAppending q) (ids : List Uuid) (w : World)
    (told : AllStored ids w.tables) (lasting : IsLasting w.schedule) where
  executed-unspent :
      (row : MutationRow) (u : World)
      → execute q w ≡ (ok row, u)
      → row.replayed ≡ false
      → All (λ old. old ≢ row.event_id) ids
  unfolding execute current
  executed-unspent row u h fresh =
      let (others, later) = next-IsLasting w.schedule lasting in
      let before = All-others ids (next_turn w.schedule) w.tables others told in
      let answer : (transmit (next_turn w.schedule).link q (current w)).0 ≡ ok row =
        ap (λ r. r.0) h in
      unspent_ids ids row.event_id (current w)
        (transmit-fresh q (next_turn w.schedule).link (current w) row append answer fresh) before

  pub statement-IsNew :
      (context : TenantContext) (w' : World) (m : CaseMutationResult)
      → continue (raise_as map_sql_error (execute q) w) (mutation_result context) ≡ (ok m, w')
      → m.replayed ≡ false
      → IsNew ids m.event.event_id w'.tables
  statement-IsNew context w' m h fresh =
      let (row, u, p, rest) = continue-eq-ok _ _ h in
      let answer = mutation_result-IsAnswer context row u w' m rest in
      let unspent =
        executed-unspent row u (raise_as-eq-ok map_sql_error _ w p) (sym answer.replayed ∙ fresh) in
      record {
        unspent = subst (λ id. All (λ old. old ≢ id) ids) (sym answer.event_id) unspent;
        stored =
            subst (λ id. Stored id w'.tables) (sym answer.event_id)
              (mutation_result_stored context row u w' m rest);
      }

module _ (ids : List Uuid) (lib : Interfaces) (self : CaseService) (ledger : IsLedger self.pool)
    (context : TenantContext) (subject : VerifiedSubject) (key : Str) (now : Instant) (w w' : World)
    (told : AllStored ids w.tables) (lasting : IsLasting w.schedule) (m : CaseMutationResult)
    (fresh : m.replayed ≡ false) where
  pub create_case-IsNew :
      (command : CreateCaseCommand)
      → create_case lib self context subject key command now w ≡ (ok m, w')
      → IsNew ids m.event.event_id w'.tables
  unfolding create_case
  create_case-IsNew command h =
      let (hash, passed, rest) = lift-then-eq-ok _ _ w h in
      statement-IsNew _ (ledger.create (create_args context subject key command hash now)) ids w
        told lasting context w' m rest fresh

  pub transition_case-IsNew :
      (id : Uuid) (command : TransitionCaseCommand)
      → transition_case lib self context subject id key command now w ≡ (ok m, w')
      → IsNew ids m.event.event_id w'.tables
  unfolding transition_case
  transition_case-IsNew id command h =
      let (hash, passed, rest) = lift-then-eq-ok _ _ w h in
      statement-IsNew _
        (ledger.transition (transition_args context subject id key command hash now)) ids w told
        lasting context w' m rest fresh

  pub rotate_encrypted_object-IsNew :
      (id : Uuid) (command : RotateEncryptedObjectCommand)
      → rotate_encrypted_object lib self context subject id key command now w ≡ (ok m, w')
      → IsNew ids m.event.event_id w'.tables
  unfolding rotate_encrypted_object
  rotate_encrypted_object-IsNew id command h =
      let (hash, passed, rest) = lift-then-eq-ok _ _ w h in
      statement-IsNew _ (ledger.rotate (rotate_args context subject id key command hash now)) ids w
        told lasting context w' m rest fresh
