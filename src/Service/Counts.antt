-- ===== src/Service/Counts.antt =====
-- How many rows of app/persistence/investigation_repository.py the index on the active ones covers
-- after each statement.
use card_fraud_ops_analyst_a.Prelude.{
  ℕ, suc, ◌≡◌, ◌≤◌, ◌+◌, String, Bool, true, false, List, [], ◌∷◌, ◌++◌, ◌==◌, ◌&&◌, ◌||◌, not,
  if◌then◌else◌, refl, arith, Bool-cases, inl, inr, eq_iff,
}
use card_fraud_ops_analyst_a.Service.Store.{
  Row, some_row, update_rows, with_status, is_active, is_active_for,
}
use card_fraud_ops_analyst_a.Service.Hindering.{count_rows}

last_false : (b : Bool) → (b && false) ≡ false
last_false b = ground arith

module _ {F : Type 0} where
  -- an update that moves no row to another transaction
  abbrev KeepsTransaction : (Row F → Row F) → Type 0
  KeepsTransaction f = (r : Row F) → (f r).transaction_id ≡ r.transaction_id

  pub count-closed :
      (txn id : String) (f : Row F → Row F) (rows : List (Row F))
      → ((r : Row F) → is_active (f r).status ≡ false)
      → count_rows (is_active_for txn) (update_rows id f rows) ≤ count_rows (is_active_for txn) rows
  unfolding count_rows update_rows
  count-closed txn id f [] closed = omega arith
  count-closed txn id f (r ∷ rows) closed =
      let rest = count-closed txn id f rows closed in
      elim (Bool-cases (r.id == id)) [
        | inl e ↦
            rw (e, closed r, last_false ((f r).transaction_id == txn))
              (skip (is_active_for txn r) rest)
        | inr e ↦ rw e (same (is_active_for txn r) rest)
      ]
    where
      skip : (b : Bool) {m n : ℕ} → m ≤ n → m ≤ (if b then suc n else n)
      skip true h = omega arith
      skip false h = h

      same : (b : Bool) {m n : ℕ} → m ≤ n → (if b then suc m else m) ≤ (if b then suc n else n)
      same true h = omega arith
      same false h = h

  -- the rows of an investigation are active
  abbrev pub lapsed : String → Row F → Bool
  lapsed id r = r.id == id && not (is_active r.status)

  pub count-started :
      (txn id : String) (rows : List (Row F))
      → some_row (lapsed id) rows ≡ false
      → count_rows (is_active_for txn) (update_rows id (with_status "IN_PROGRESS") rows)
        ≡ count_rows (is_active_for txn) rows
  unfolding count_rows update_rows some_row
  count-started txn id [] h = refl
  count-started txn id (r ∷ rows) h = elim (Bool-cases (r.id == id)) [
    | inl e ↦
        let (own, others) = parts (is_active r.status) _ (rw e at h) in
        rw (e, own, count-started txn id rows others) refl
    | inr e ↦ rw (e, count-started txn id rows (rw e at h)) refl
  ]
    where
      parts : (b c : Bool) → ((true && not b) || c) ≡ false → (b ≡ true) × (c ≡ false)
      parts b c h = ground arith

  count-append :
      (test : Row F → Bool) (rows : List (Row F)) (new : Row F)
      → count_rows test (rows ++ new ∷ []) ≡ count_rows test rows + (if test new then 1 else 0)
  unfolding count_rows
  count-append test [] new = ground arith
  count-append test (r ∷ rows) new = ground (arith, count-append test rows new)

  count-free :
      (id txn : String) (rows : List (Row F))
      → some_row (λ r. r.id == id || is_active_for txn r) rows ≡ false
      → count_rows (is_active_for txn) rows ≡ 0
  unfolding count_rows some_row
  count-free id txn [] h = refl
  count-free id txn (r ∷ rows) h =
      let (own, others) =
        parts (r.id == id) (is_active_for txn r)
          (some_row (λ x. x.id == id || is_active_for txn x) rows) h in
      rw (own, count-free id txn rows others) refl
    where
      parts : (a b c : Bool) → ((a || b) || c) ≡ false → (b ≡ false) × (c ≡ false)
      parts a b c h = ground arith

  pub count-created :
      (txn other : String) (new : Row F) (rows : List (Row F))
      → new.transaction_id ≡ txn
      → some_row (λ r. r.id == new.id || is_active_for txn r) rows ≡ false
      → count_rows (is_active_for other) rows ≤ 1
      → count_rows (is_active_for other) (rows ++ new ∷ []) ≤ 1
  count-created txn other new rows own free few = elim (Bool-cases (txn == other)) [
    | inl e ↦
        rw
          (
            ← (eq_iff txn other).0 e,
            count-append (is_active_for txn) rows new,
            count-free new.id txn rows free,
          )
          (at_most_one (is_active_for txn new))
    | inr e ↦ rw (count-append (is_active_for other) rows new, own, e) (none_more few)
  ]
    where
      at_most_one : (b : Bool) → 0 + (if b then 1 else 0) ≤ 1
      at_most_one true = omega arith
      at_most_one false = omega arith

      none_more : {n : ℕ} → n ≤ 1 → n + (if (false && is_active new.status) then 1 else 0) ≤ 1
      none_more h = omega arith

  pub created-lapsed :
      (txn : String) (new : Row F) (rows : List (Row F))
      → is_active new.status ≡ true
      → some_row (λ r. r.id == new.id || is_active_for txn r) rows ≡ false
      → some_row (lapsed new.id) (rows ++ new ∷ []) ≡ false
  unfolding some_row
  created-lapsed txn new [] active free = rw active (ground arith)
  created-lapsed txn new (r ∷ rows) active free =
      ground (arith, created-lapsed txn new rows active (ground (arith, free)), free)
