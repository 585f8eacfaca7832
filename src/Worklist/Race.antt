-- ===== src/Worklist/Race.antt =====
-- Analysts that act on one recommendation at the same time
-- (app/services/recommendation_service.py).
use card_fraud_ops_analyst_a.Prelude.{
  ◌≡◌, ◌⊎◌, inl, inr, String, true, false, Option, none, some, List, [], ◌∷◌, ◌++◌, ◌==◌,
  if◌then◌else◌, contains, refl, arith, eq_iff, ap, sym, ◌∙◌, ◌||◌,
}
use card_fraud_ops_analyst_a.Worklist.{
  Recommendation, AuditEntry, Database, changed_concurrently, done, failed, Request, check_request,
  update_status_with_guard, apply_request, audit_entry,
}

-- A session is between the two halves of its call, with the row that it read.
pub record Waiting : Type 0 where
  pub request : Request
  pub read : Recommendation

pub record World : Type 0 where
  pub db : Database
  pub waiting : List Waiting

-- One session reads and checks, or one that has read writes. A read leaves the database alone, and
-- a write may come after any writes of others.
pub data Step : World → World → Type 0 where
  reads :
      (w : World) (q : Request) (r : Recommendation)
      → check_request q w.db.row ≡ done r
      → Step w (record w { waiting = record { request = q; read = r } ∷ w.waiting })
  writes :
      (w : World) (now : String) (s : Waiting) (before after : List Waiting)
      → w.waiting ≡ before ++ s ∷ after
      → Step w
          (record { db = (apply_request now s.request s.read w.db).0; waiting = before ++ after })

pub data Steps (w : World) : World → Type 0 where
  here : Steps w w
  next : {u v : World} → Steps w u → Step u v → Steps w v

check_request-done :
    (q : Request) (row : Option Recommendation) (r : Recommendation)
    → check_request q row ≡ done r
    → (row ≡ some r) × (r.status ≡ "OPEN") × ((q.action ≡ "ACKNOWLEDGED") ⊎ (q.action ≡ "REJECTED"))
unfolding check_request contains
check_request-done q none r h = cc
check_request-done q (some x) r h = ground (
  arith,
  eq_iff x.status "OPEN",
  eq_iff x.status "ACKNOWLEDGED",
  eq_iff q.action "ACKNOWLEDGED",
  eq_iff q.action "REJECTED",
  eq_iff "EXPORTED" q.action,
  eq_iff "EXPORTED" "ACKNOWLEDGED",
  eq_iff "EXPORTED" "REJECTED",
)

-- No analyst has decided: the row is open.
pub record IsOpen (db : Database) : Type 0 where
  pub row : Recommendation
  pub present : db.row ≡ some row
  pub status : row.status ≡ "OPEN"
  pub audit : db.audit ≡ []

-- Exactly one has: the row carries the decision and the name, and the trail its one entry.
pub record IsDecided (db : Database) : Type 0 where
  pub row : Recommendation
  pub entry : AuditEntry
  pub present : db.row ≡ some row
  pub audit : db.audit ≡ entry ∷ []
  pub status : row.status ≡ entry.new_status
  pub decision : (entry.new_status ≡ "ACKNOWLEDGED") ⊎ (entry.new_status ≡ "REJECTED")
  pub user : row.acknowledged_by ≡ some entry.performed_by
  pub from_open : entry.old_status ≡ "OPEN"

-- A waiting session has seen the row open and asks for one of the two decisions.
abbrev pub MayWrite : Waiting → Type 0
MayWrite s =
    (s.read.status ≡ "OPEN")
    × ((s.request.action ≡ "ACKNOWLEDGED") ⊎ (s.request.action ≡ "REJECTED"))

abbrev pub AllMayWrite : List Waiting → Type 0
AllMayWrite [] = Unit {0}
AllMayWrite (s ∷ ss) = MayWrite s × AllMayWrite ss

pub record IsSound (w : World) : Type 0 where
  pub db : IsOpen w.db ⊎ IsDecided w.db
  pub waiting : AllMayWrite w.waiting

AllMayWrite-split :
    (before : List Waiting) (s : Waiting) (after : List Waiting)
    → AllMayWrite (before ++ s ∷ after)
    → MayWrite s × AllMayWrite (before ++ after)
AllMayWrite-split [] s after h = (h.0, h.1)
AllMayWrite-split (x ∷ xs) s after h =
    let rest = AllMayWrite-split xs s after h.1 in (rest.0, (h.0, rest.1))

-- the write of a session that comes first
write-open :
    (now : String) (s : Waiting) (db : Database)
    → MayWrite s
    → IsOpen db
    → IsDecided (apply_request now s.request s.read db).0
unfolding apply_request update_status_with_guard
write-open now s db may o =
    let won : (o.row.status == s.read.status) ≡ true =
      (eq_iff o.row.status s.read.status).1 (o.status ∙ sym may.0) in
    rw (o.present, won)
      (record {
        row = record {
          status = s.request.action;
          acknowledged_by = some s.request.user_id;
          acknowledged_at = if s.request.user_id == "" then none else some now;
        };
        entry = audit_entry s.request s.read.status;
        present = refl;
        audit = ap (λ (l : List AuditEntry). l ++ audit_entry s.request s.read.status ∷ []) o.audit;
        status = refl;
        decision = may.1;
        user = refl;
        from_open = may.0;
      })

-- the write of any later session finds another status, and changes nothing
write-decided :
    (now : String) (s : Waiting) (db : Database)
    → MayWrite s
    → IsDecided db
    → apply_request now s.request s.read db ≡ (db, failed changed_concurrently)
unfolding apply_request update_status_with_guard
write-decided now s db may d =
    let lost : (d.row.status == s.read.status) ≡ false = ground (
      arith,
      eq_iff d.row.status s.read.status,
      d.decision,
      d.status,
      may.0,
      eq_iff "ACKNOWLEDGED" "OPEN",
      eq_iff "REJECTED" "OPEN",
    ) in
    rw (d.present, lost)

Step-IsSound : {w v : World} → Step w v → IsSound w → IsSound v
Step-IsSound (reads w q r h) s =
    let found = check_request-done q w.db.row r h in
    record { db = s.db; waiting = ((found.1, found.2), s.waiting) }
Step-IsSound (writes w now x before after e) s =
    let parts = AllMayWrite-split before x after (rw e at s.waiting) in
    record {
      db = elim s.db [
        | inl o ↦ inr (write-open now x w.db parts.0 o)
        | inr d ↦ inr (rw (write-decided now x w.db parts.0 d) d)
      ];
      waiting = parts.1;
    }

-- However the reads and writes of any number of analysts interleave on a recommendation that is
-- open and has no audit trail yet, it stays open with no entry, or exactly one decision is made:
-- the status and the name in the row are those of the one audit entry.
pub Steps-one_decision :
    {w v : World} → IsOpen w.db → w.waiting ≡ [] → Steps w v → IsOpen v.db ⊎ IsDecided v.db
Steps-one_decision o e steps = (sound o e steps).db
  where
    sound : {w v : World} → IsOpen w.db → w.waiting ≡ [] → Steps w v → IsSound v
    sound o e here = record { db = inl o; waiting = rw e tt }
    sound o e (next r st) = Step-IsSound st (sound o e r)

-- the row after the request
abbrev pub decided : String → Request → Recommendation
decided now q = record {
  status = q.action;
  acknowledged_by = some q.user_id;
  acknowledged_at = if q.user_id == "" then none else some now;
}

-- why a request is refused
abbrev pub IsRefusable : Request → Database → Type 0
IsRefusable q db =
    (db.row ≡ none)
    ⊎ (((q.action == "ACKNOWLEDGED" || q.action == "REJECTED") ≡ false)
        ⊎ ((r : Recommendation) × (db.row ≡ some r) × ((r.status == "OPEN") ≡ false)))
