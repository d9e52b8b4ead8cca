-- ===== src/Api/Handlers/Reads.antt =====
-- What stands behind the cases that a handler returns.
use apme_api.Prelude.{◌≡◌, none, List, [], ◌∷◌, ok, map, All, All-of-mem}
use apme_api.Domain.{Uuid, Instant, VerifiedSubject, TenantContext, PersistedCase, Interfaces}
use apme_api.Database.{World, execute}
use apme_api.Database.Frames.{continue-eq-ok, finish-eq-ok, raise_as-eq-ok}
use apme_api.Http.{HeaderMap, Codecs}
use apme_api.Auth.Session.{cases_read_scope}
use apme_api.Auth.Service.Outcomes.{IsAuthenticated}
use apme_api.Cases.Rows.RoundTrip.{row_of_case}
use apme_api.Cases.Queries.Order.{IsOrdered}
use apme_api.Cases.Lookup.{access_args, record_access}
use apme_api.Cases.Service.{CaseService}
use apme_api.Cases.Lookup.Isolation.{list_cases_lem, get_case_sound}
use apme_api.Api.Errors.{cases}
use apme_api.Api.Access.{AppState, tenant_id, authorized_tenant}
use apme_api.Api.Access.Membership.{IsGranted, authorized_tenant_with_scopes_sound}
use apme_api.Api.Handlers.{Clock, list_cases, get_case}

module _ (codecs : Codecs) (state : AppState) (clock : Clock) (headers : HeaderMap) where
  -- A reader: authenticated with the read scope, and a member of the tenant that the header names.
  pub record IsReader (subject : VerifiedSubject) (context : TenantContext) (w : World)
      : Type 0 where
    pub authentic :
        IsAuthenticated codecs state.auth headers (cases_read_scope ∷ []) clock.seconds subject
    pub tenant : tenant_id codecs headers ≡ ok context.tenant_id
    pub member : IsGranted subject w context

  reader :
      (w w' : World) (subject : VerifiedSubject) (context : TenantContext)
      → authorized_tenant codecs state headers clock.seconds w ≡ (ok (subject, context), w')
      → IsReader subject context w
  unfolding authorized_tenant
  reader w w' subject context h =
      let (authentic, tenant, member) =
        authorized_tenant_with_scopes_sound codecs state headers (cases_read_scope ∷ [])
          clock.seconds w w' subject context h in
      record { authentic = authentic; tenant = tenant; member = member }

recorded :
    (self : CaseService) (context : TenantContext) (subject : VerifiedSubject) (id : Uuid)
    (now : Instant) (w w' : World)
    → record_access self context subject id now w ≡ (ok tt, w')
    → execute (self.pool.append_audit (access_args context subject id now)) w ≡ (ok tt, w')
unfolding record_access
recorded self context subject id now w w' h = raise_as-eq-ok _ _ w h

module _ (lib : Interfaces) (codecs : Codecs) (state : AppState) (clock : Clock)
    (headers : HeaderMap) where
  -- A case is returned only to a reader of its tenant, under the id that was asked for, without a
  -- tombstone, and after the access was recorded: the last statement appended the audit entry of this
  -- subject, tenant and case, and it succeeded.
  pub get_case-audited :
      (id : Uuid) (w w' : World) (case : PersistedCase)
      → get_case lib codecs state clock id headers w ≡ (ok case, w')
      → (subject : VerifiedSubject) × (context : TenantContext) × IsReader codecs state clock
          headers subject context w
        × (case.tenant_id ≡ context.tenant_id)
        × (case.id ≡ id)
        × (case.tombstoned_at ≡ none)
        × ((u : World) × (execute
                (state.cases.pool.append_audit (access_args context subject case.id clock.now))
                u
              ≡ (ok tt, w')))
  unfolding get_case
  get_case-audited id w w' case h =
      let (front, w1, p, h1) = continue-eq-ok _ _ h in
      let (subject, context) = front in
      let (c, w2, q, h2) = continue-eq-ok _ _ h1 in
      let (done, w3, r, h3) = continue-eq-ok _ _ h2 in
      let (same, last) = finish-eq-ok _ w3 h3 in
      let (stored, tenant, named, live) =
        get_case_sound context id w1 w2 c (raise_as-eq-ok cases _ w1 q) in
      let ran =
        recorded state.cases context subject c.id clock.now w2 w3 (raise_as-eq-ok cases _ w2 r) in
      rw (← same, ← last)
        (
          subject,
          context,
          reader codecs state clock headers w w1 subject context p,
          tenant,
          named,
          live,
          (w2, ran),
        )

  -- A listing is returned only to a reader, and every case in it is of the reader's tenant and has no
  -- tombstone; their rows are in the order of creation, the latest first.
  pub list_cases-IsOwn :
      (w w' : World) (listed : List PersistedCase)
      → list_cases lib codecs state clock headers w ≡ (ok listed, w')
      → (subject : VerifiedSubject) × (context : TenantContext) × IsReader codecs state clock
          headers subject context w
        × IsOrdered (map row_of_case listed)
        × All (λ c. (c.tenant_id ≡ context.tenant_id) × (c.tombstoned_at ≡ none)) listed
  unfolding list_cases
  list_cases-IsOwn w w' listed h =
      let (front, w1, p, h1) = continue-eq-ok _ _ h in
      let (subject, context) = front in
      let (ordered, complete, members) =
        list_cases_lem context w1 w' listed (raise_as-eq-ok cases _ w1 h1) in
      (
        subject,
        context,
        reader codecs state clock headers w w1 subject context p,
        ordered,
        All-of-mem _ listed λ c m. let (stored, tenant, live) = (members c).0 m in (tenant, live),
      )
