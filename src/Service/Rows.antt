-- ===== src/Service/Rows.antt =====
-- How the statements of app/persistence/investigation_repository.py change the rows that the
-- others find.
use mathlib.Core.Option
use card_fraud_ops_analyst_a.Prelude.{
  ◌≡◌, String, Bool, true, List, [], ◌∷◌, ◌++◌, ◌==◌, refl, Bool-cases, inl, inr, is_some,
}
use card_fraud_ops_analyst_a.Service.Store.{Row, first_row, update_rows}

module _ {F : Type 0} where
  -- an update that leaves the key alone
  abbrev pub KeepsId : (Row F → Row F) → Type 0
  KeepsId f = (r : Row F) → (f r).id ≡ r.id

  abbrev has_id : String → Row F → Bool
  has_id id r = r.id == id

  pub get-update :
      (id : String) (f : Row F → Row F) (rows : List (Row F))
      → KeepsId f
      → first_row (λ r. r.id == id) (update_rows id f rows)
        ≡ Option.map f (first_row (λ r. r.id == id) rows)
  unfolding first_row update_rows
  get-update id f [] keep = refl
  get-update id f (r ∷ rows) keep = elim (Bool-cases (r.id == id)) [
    | inl e ↦ rw (e, keep r, e) refl
    | inr e ↦ rw (e, e) (get-update id f rows keep)
  ]

  pub get-append :
      (id : String) (row : Row F) (rows : List (Row F))
      → row.id == id ≡ true
      → is_some (first_row (λ r. r.id == id) (rows ++ row ∷ [])) ≡ true
  unfolding first_row
  get-append id row [] h = rw h refl
  get-append id row (r ∷ rows) h = elim (Bool-cases (r.id == id)) [
    | inl e ↦ rw e refl
    | inr e ↦ rw e (get-append id row rows h)
  ]
