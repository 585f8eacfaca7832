-- ===== src/Service/Hindering.antt =====
-- The investigations of a transaction that hinder a new one
-- (app/services/investigation_service.py).
use card_fraud_ops_analyst_a.Prelude.{
  ℕ, suc, ◌≡◌, ◌≤◌, String, Bool, true, false, none, some, List, [], ◌∷◌, ◌==◌, ◌&&◌, ◌||◌, not,
  if◌then◌else◌, refl, sym, ap, ◌∙◌, arith, Bool-cases, Option-cases, inl, inr, is_some,
  true≢false_of, some_inj, eq_iff, none_ne_some,
}
use card_fraud_ops_analyst_a.Service.Store.{
  Row, Tables, Session, some_row, first_row, update_rows, with_status, is_active_for,
  is_running_for, load_state, commit, execute, update_status,
}
use card_fraud_ops_analyst_a.Service.Run.{admitted, rejected, on_existing}

or_false : (a b : Bool) → (a || b) ≡ false → (a ≡ false) × (b ≡ false)
or_false a b h = ground arith

pub failed-quiet : (b : Bool) → (b && false) ≡ false
failed-quiet b = ground arith

few_left : (n : ℕ) → suc n ≤ 1 → n ≤ 0
few_left n h = omega arith

pub and_unless : (b : Bool) → b ≡ true → (b && not false) ≡ true
and_unless b h = ground arith

no_key : (a b : Bool) → (a && not true && b) ≡ false
no_key a b = ground arith

no_gap : (a : Bool) → (a && not false && not true) ≡ false
no_gap a = ground arith

no_suc : (n : ℕ) → suc n ≤ 0 → ⊥
no_suc n h = omega arith

no_room : (n : ℕ) → suc n ≤ 1 → 1 ≤ n → ⊥
no_room n h k = omega arith

module _ {F : Type 0} where
  unfoldable pub count_rows : (Row F → Bool) → List (Row F) → ℕ
  count_rows test [] = 0
  count_rows test (r ∷ rs) = let rest = count_rows test rs in if test r then suc rest else rest

  -- a running investigation that has no state
  abbrev pub is_stale : Tables F → Row F → Bool
  is_stale t r = r.status == "IN_PROGRESS" && not (r.id == "") && not (is_some (load_state r.id t))

  -- an active investigation that is not stale
  abbrev pub hinders : Tables F → String → Row F → Bool
  hinders t txn r = is_active_for txn r && not (is_stale t r)

  abbrev pub taken : String → String → Row F → Bool
  taken id txn r = r.id == id || is_active_for txn r

  pub active_of_running :
      (txn : String) (r : Row F) → is_running_for txn r ≡ true → is_active_for txn r ≡ true
  active_of_running txn r h = ground arith

  not_running :
      (txn : String) (r : Row F) → is_active_for txn r ≡ false → is_running_for txn r ≡ false
  not_running txn r h = ground arith

  pub some_row-none :
      (t : Tables F) (id txn : String) (rows : List (Row F))
      → some_row (λ r. r.id == id) rows ≡ false
      → first_row (is_running_for txn) rows ≡ none
      → some_row (taken id txn) rows ≡ some_row (hinders t txn) rows
  unfolding some_row first_row
  some_row-none t id txn [] h k = refl
  some_row-none t id txn (r ∷ rows) h k = elim (Bool-cases (is_running_for txn r)) [
    | inl e ↦ absurd (none_ne_some (sym (rw e at k)))
    | inr e ↦ ground (arith, some_row-none t id txn rows (ground (arith, h)) (rw e at k), h)
  ]

  pub first_row-holds :
      (p q : Row F → Bool) (rows : List (Row F)) (row : Row F)
      → first_row p rows ≡ some row
      → q row ≡ true
      → (p row ≡ true) × (some_row q rows ≡ true)
  unfolding some_row first_row
  first_row-holds p q [] row h k = absurd (none_ne_some h)
  first_row-holds p q (r ∷ rows) row h k = elim (Bool-cases (p r)) [
    | inl e ↦ let same = some_inj r row (rw e at h) in (rw (← same) e, rw (ap q same ∙ k) refl)
    | inr e ↦
        let (holds, found) = first_row-holds p q rows row (rw e at h) k in
        (holds, ground (arith, found))
  ]

  count_rows-pos :
      (p : Row F → Bool) (rows : List (Row F)) → some_row p rows ≡ true → 1 ≤ count_rows p rows
  unfolding some_row count_rows
  count_rows-pos p [] h = absurd (true≢false_of h refl)
  count_rows-pos p (r ∷ rows) h = elim (Bool-cases (p r)) [
    | inl e ↦ rw e (omega arith)
    | inr e ↦ rw e (count_rows-pos p rows (rw e at h))
  ]

  count_rows-none :
      (p : Row F → Bool) (rows : List (Row F)) → count_rows p rows ≤ 0 → some_row p rows ≡ false
  unfolding some_row count_rows
  count_rows-none p [] h = refl
  count_rows-none p (r ∷ rows) h = elim (Bool-cases (p r)) [
    | inl e ↦ absurd (no_suc (count_rows p rows) (rw e at h))
    | inr e ↦ rw e (count_rows-none p rows (rw e at h))
  ]

  abbrev marked : String → List (Row F) → List (Row F)
  marked j rows = update_rows j (with_status "FAILED") rows

  marked-free :
      (id txn j : String) (r : Row F)
      → r.id == id ≡ false
      → is_active_for txn r ≡ false
      → taken id txn (if r.id == j then with_status "FAILED" r else r) ≡ false
  marked-free id txn j r h k = elim (Bool-cases (r.id == j)) [
    | inl e ↦ rw (e, h) (failed-quiet (r.transaction_id == txn))
    | inr e ↦ rw (e, h) k
  ]

  quiet-free :
      (t : Tables F) (id txn j : String) (rows : List (Row F))
      → some_row (λ r. r.id == id) rows ≡ false
      → some_row (is_active_for txn) rows ≡ false
      → (some_row (taken id txn) (marked j rows) ≡ false) × (some_row (hinders t txn) rows ≡ false)
  unfolding some_row update_rows
  quiet-free t id txn j [] h k = (refl, refl)
  quiet-free t id txn j (r ∷ rows) h k =
      let (own, others) = or_false _ _ h in
      let (inactive, quiet) = or_false _ _ k in
      let (free, clear) = quiet-free t id txn j rows others quiet in
      (rw (marked-free id txn j r own inactive) free, rw (inactive) clear)

  pub stale-free :
      (t : Tables F) (id txn : String) (rows : List (Row F)) (row : Row F)
      → some_row (λ r. r.id == id) rows ≡ false
      → count_rows (is_active_for txn) rows ≤ 1
      → first_row (is_running_for txn) rows ≡ some row
      → is_stale t row ≡ true
      → (some_row (taken id txn) (marked row.id rows) ≡ false)
        × (some_row (hinders t txn) rows ≡ false)
  unfolding some_row update_rows first_row count_rows
  stale-free t id txn [] row h few k stale = absurd (none_ne_some k)
  stale-free t id txn (r ∷ rows) row h few k stale =
      let (own, others) = or_false (r.id == id) (some_row (λ x. x.id == id) rows) h in
      elim (Bool-cases (is_active_for txn r)) [
        | inl e ↦ elim (Bool-cases (is_running_for txn r)) [
          | inl run ↦
              let same = some_inj r row (rw run at k) in
              let (free, clear) =
                quiet-free t id txn row.id rows others
                  (count_rows-none (is_active_for txn) rows (few_left _ (rw e at few))) in
              let own_key =
                ap (λ (x : Row F). r.id == x.id) (sym same) ∙ (eq_iff r.id r.id).1 refl in
              (
                rw (own_key, own, failed-quiet (r.transaction_id == txn)) free,
                rw (ap (is_stale t) same ∙ stale, failed-quiet (is_active_for txn r)) clear,
              )
          | inr run ↦
              let running =
                first_row-holds (is_running_for txn) (λ x. true) rows row (rw run at k) refl in
              absurd (
                no_room (count_rows (is_active_for txn) rows) (rw e at few) (
                  count_rows-pos (is_active_for txn) rows
                    (first_row-holds (is_running_for txn) (is_active_for txn) rows row (rw run at k)
                      (active_of_running txn row (running.0))).1))
        ]
        | inr e ↦
            let (free, clear) =
              stale-free t id txn rows row others (rw e at few) (rw (not_running txn r e) at k)
                stale in
            (rw (marked-free id txn row.id r own e) free, rw e clear)
      ]

  pub running_status :
      (txn : String) (row : Row F)
      → is_running_for txn row ≡ true
      → (row.status == "IN_PROGRESS") ≡ true
  running_status txn row h = ground arith

  pub existing-stale :
      (txn : String) (row : Row F) (s : Session F)
      → is_stale s.working row ≡ true
      → on_existing txn (some row) s ≡ admitted (commit (execute (update_status row.id "FAILED") s))
  existing-stale txn row s h = elim (Bool-cases (row.id == "")) [
    | inl e ↦ absurd (true≢false_of h (rw e (no_key (row.status == "IN_PROGRESS") _)))
    | inr e ↦ elim (Option-cases (load_state row.id s.working)) [
      | inl none_left ↦ rw (e, none_left) refl
      | inr (x, k) ↦ absurd (true≢false_of h (rw (e, k) (no_gap (row.status == "IN_PROGRESS"))))
    ]
  ]

  pub existing-held :
      (txn : String) (row : Row F) (s : Session F)
      → is_stale s.working row ≡ false
      → (row.status == "IN_PROGRESS") ≡ true
      → on_existing txn (some row) s ≡ rejected row.id
  existing-held txn row s h running = elim (Bool-cases (row.id == "")) [
    | inl e ↦ rw e refl
    | inr e ↦ elim (Option-cases (load_state row.id s.working)) [
      | inl none_left ↦ absurd (true≢false_of (rw (running, e, none_left) refl) h)
      | inr (x, k) ↦ rw (e, k) refl
    ]
  ]
