-- ===== src/Cases/Names/RoundTrip.antt =====
-- Parsing inverts naming, and accepts nothing else.
use apme_api.Prelude.{◌≡◌, refl, ◌↔◌, ok, arith}
use apme_api.Text.{Str, codes, str_eq}
use apme_api.Text.Laws.{str_eq_iff}
use apme_api.Domain.{CaseStatus, intake, RetentionClass, standard}
use apme_api.Cases.Names.{parse_status, status_name, parse_retention, retention_name}

parse_status-status_name : (s : CaseStatus) → parse_status (status_name s) ≡ ok s
unfolding parse_status status_name codes str_eq
parse_status-status_name intake = refl
parse_status-status_name _ = refl

parse_retention-retention_name : (r : RetentionClass) → parse_retention (retention_name r) ≡ ok r
unfolding parse_retention retention_name codes str_eq
parse_retention-retention_name standard = refl
parse_retention-retention_name _ = refl

parse_status_inv : (v : Str) (s : CaseStatus) → parse_status v ≡ ok s → v ≡ status_name s
unfolding parse_status status_name
parse_status_inv v s h = ground (
  arith,
  str_eq_iff v (codes "intake"),
  str_eq_iff v (codes "collecting_documents"),
  str_eq_iff v (codes "review"),
  str_eq_iff v (codes "submitted"),
  str_eq_iff v (codes "completed"),
  str_eq_iff v (codes "closed"),
)

parse_retention_inv :
    (v : Str) (r : RetentionClass) → parse_retention v ≡ ok r → v ≡ retention_name r
unfolding parse_retention retention_name
parse_retention_inv v r h = ground (
  arith,
  str_eq_iff v (codes "standard"),
  str_eq_iff v (codes "extended"),
  str_eq_iff v (codes "legal_hold_eligible"),
)

-- A text is read as a status exactly when it is that status's name.
pub parse_status_iff : (v : Str) (s : CaseStatus) → (parse_status v ≡ ok s) ↔ (v ≡ status_name s)
parse_status_iff v s = (parse_status_inv v s, λ e. rw e (parse_status-status_name s))

-- A text is read as a retention class exactly when it is that class's name.
pub parse_retention_iff :
    (v : Str) (r : RetentionClass) → (parse_retention v ≡ ok r) ↔ (v ≡ retention_name r)
parse_retention_iff v r = (parse_retention_inv v r, λ e. rw e (parse_retention-retention_name r))
