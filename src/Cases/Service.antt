-- ===== src/Cases/Service.antt =====
-- `CaseService`: its construction, the migration, and the operations of the audit worker.
use apme_api.Prelude.{Bool, Result, ok, ok_or, map_err, and_then}
use apme_api.Prelude.Int.{ℤ}
use apme_api.Text.{Str, codes}
use apme_api.Domain.{Uuid, Instant}
use apme_api.Database.{SqlError, Pool, Action, raise_as, execute}
use apme_api.Cases.Errors.{
  CaseServiceError, storage, CaseConfigError, missing_database_url, connect,
}
use apme_api.Settings.{Environment, setting}

pub record CaseService : Type 0 where
  pub pool : Pool

-- `PgPoolOptions::connect` is a parameter.
unfoldable pub from_env :
    (Str → Result SqlError Pool) → Environment → Result CaseConfigError CaseService
from_env connect_pool env =
    and_then (ok_or (setting env (codes "DATABASE_URL")) missing_database_url)
      λ url. and_then (map_err connect (connect_pool url)) λ pool. ok (record { pool = pool })

unfoldable pub from_pool : Pool → CaseService
from_pool pool = record { pool = pool }

unfoldable pub migrate : CaseService → Action CaseServiceError (Unit {0})
migrate self = raise_as storage (execute self.pool.migration)

unfoldable pub apply_retention : CaseService → Instant → Str → Action CaseServiceError ℤ
apply_retention self now actor = raise_as storage (execute (self.pool.apply_retention now actor))

unfoldable pub verify_case_audit : CaseService → Uuid → Action CaseServiceError Bool
verify_case_audit self case_id = raise_as storage (execute (self.pool.verify_case_audit case_id))

unfoldable pub verify_tenant_audit : CaseService → Uuid → Action CaseServiceError Bool
verify_tenant_audit self tenant_id =
    raise_as storage (execute (self.pool.verify_tenant_audit tenant_id))
