-- ===== src/Worklist.antt =====
-- app/services/recommendation_service.py with the guarded update of
-- app/persistence/recommendation_repository.py: the status of a recommendation under several
-- analysts at once. The check of migration 005 that a decided row has a time, which an update by an
-- empty user id fails, is left out.
pub mod Race
pub mod Types
pub mod Paging
pub mod Cuts
pub mod Pages
pub mod Following
use Prim.Native.String.{◌++◌ as append}
use card_fraud_ops_analyst_a.Prelude.{
  ℕ, ◌≡◌, String, Bool, true, false, Option, none, some, List, [], ◌∷◌, ◌++◌, ◌==◌, ◌&&◌, ◌||◌, not,
  if◌then◌else◌, contains, strip, lower,
}

-- The columns of a recommendation that the service reads and writes.
pub record Recommendation : Type 0 where
  pub status : String
  pub acknowledged_by : Option String
  pub acknowledged_at : Option String

-- The audit entry that `acknowledge` emits.
pub record AuditEntry : Type 0 where
  pub action : String
  pub performed_by : String
  pub old_status : String
  pub new_status : String
  pub comment : Option String

-- One recommendation in the database, `none` if there is no such row, and its audit trail.
pub record Database : Type 0 where
  pub row : Option Recommendation
  pub audit : List AuditEntry

pub data ServiceError : Type 0 where
  not_found : ServiceError
  invalid_action : ServiceError
  invalid_transition : ServiceError
  changed_concurrently : ServiceError

pub data Outcome : Type 0 where
  done : Recommendation → Outcome
  failed : ServiceError → Outcome

-- VALID_STATUS_TRANSITIONS, with the empty set for an unknown status
abbrev pub valid_transitions : String → List String
valid_transitions status =
    if status == "OPEN"
    then "ACKNOWLEDGED" ∷ "REJECTED" ∷ []
    else if status == "ACKNOWLEDGED"
    then "EXPORTED" ∷ []
    else []

-- One call of `acknowledge`
pub record Request : Type 0 where
  pub user_id : String
  pub action : String
  pub comment : Option String

-- The first half of `acknowledge`, up to the update: the row as this session read it, and the
-- status to expect, or the error.
unfoldable pub check_request : Request → Option Recommendation → Outcome
check_request q none = failed not_found
check_request q (some r) =
    if not (q.action == "ACKNOWLEDGED" || q.action == "REJECTED")
    then failed invalid_action
    else if contains q.action (valid_transitions r.status)
    then done r
    else failed invalid_transition

-- `update_status_with_guard`: one UPDATE whose WHERE clause holds the expected status
unfoldable pub update_status_with_guard :
    String → String → String → String → Option Recommendation → Option Recommendation
update_status_with_guard now user expected new none = none
update_status_with_guard now user expected new (some r) =
    if r.status == expected
    then some (record {
      status = new;
      acknowledged_by = some user;
      acknowledged_at = if user == "" then none else some now;
    })
    else none

abbrev pub audit_entry : Request → String → AuditEntry
audit_entry q old = record {
  action = append "status_change:" (lower q.action);
  performed_by = q.user_id;
  old_status = old;
  new_status = q.action;
  comment = q.comment;
}

abbrev pub commit : Request → String → Database → Option Recommendation → Database × Outcome
commit q old db none = (db, failed changed_concurrently)
commit q old db (some r) =
    (record { row = some r; audit = db.audit ++ audit_entry q old ∷ [] }, done r)

-- The second half of `acknowledge`: the update and the audit entry. Other sessions may have changed
-- the database since the first half.
unfoldable pub apply_request : String → Request → Recommendation → Database → Database × Outcome
apply_request now q read db =
    commit q read.status db (update_status_with_guard now q.user_id read.status q.action db.row)

abbrev pub after_check : String → Request → Outcome → Database → Database × Outcome
after_check now q (failed e) db = (db, failed e)
after_check now q (done r) db = apply_request now q r db

-- `acknowledge` with nothing in between
unfoldable pub acknowledge : String → Request → Database → Database × Outcome
acknowledge now q db = after_check now q (check_request q db.row) db

-- `_normalize_recommendation_type`
abbrev pub recommendation_types : List String
recommendation_types = "review_priority" ∷ "case_action" ∷ "rule_candidate" ∷ []

abbrev legacy_type : String → Option String
legacy_type s =
    if s == "REVIEW" || (s == "review" || s == "REVIEW_PRIORITY")
    then some "review_priority"
    else if s == "CASE_ACTION"
    then some "case_action"
    else if s == "RULE_CANDIDATE"
    then some "rule_candidate"
    else none

abbrev known_type : String → Option String → String
known_type s (some t) = t
known_type s none = if contains (lower s) recommendation_types then lower s else "review_priority"

unfoldable pub normalize_recommendation_type : String → String
normalize_recommendation_type rec_type =
    if rec_type == ""
    then "review_priority"
    else known_type (strip rec_type) (legacy_type (strip rec_type))
