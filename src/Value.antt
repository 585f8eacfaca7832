-- ===== src/Value.antt =====
-- JSON-like values, for the `dict[str, Any]` payloads that the agent's state carries.
-- `F` is the type of Python floats (Floats.antt).
use card_fraud_ops_analyst_a.Prelude.{
  String, Bool, true, false, Option, none, some, List, [], ◌∷◌, if◌then◌else◌, ◌==◌, ◌≡◌, refl, sym,
  ◌∙◌, Bool-cases, inl, inr, eq_iff, true≢false_of,
}

mutual
  pub data Value (F : Type 0) : Type 0 where
    null : Value F
    bool : Bool → Value F
    num : F → Value F
    str : String → Value F
    arr : Items F → Value F
    obj : Fields F → Value F

  -- a `list`
  pub data Items (F : Type 0) : Type 0 where
    nil : Items F
    cons : Value F → Items F → Items F

  -- a `dict`, in insertion order
  pub data Fields (F : Type 0) : Type 0 where
    end : Fields F
    field : String → Value F → Fields F → Fields F

-- two names that are the same as a third are the same
apart : (i j k : String) → (i == j) ≡ false → (i == k) ≡ true → (j == k) ≡ false
apart i j k e p = elim (Bool-cases (j == k)) [
  | inl q ↦ absurd (true≢false_of ((eq_iff i j).1 ((eq_iff i k).0 p ∙ sym ((eq_iff j k).0 q))) e)
  | inr q ↦ q
]

module _ {F : Type 0} where
  -- `d.get(k)`
  unfoldable pub get : String → Fields F → Option (Value F)
  get k end = none
  get k (field j v fs) = if j == k then some v else get k fs

  -- `bool(d)` of a dict
  abbrev pub has_fields : Fields F → Bool
  has_fields end = false
  has_fields (field _ _ _) = true

  abbrev pub items : Items F → List (Value F)
  items nil = []
  items (cons v vs) = v ∷ items vs

  abbrev pub append_item : Items F → Value F → Items F
  append_item nil w = cons w nil
  append_item (cons v vs) w = cons v (append_item vs w)

  -- `as_dict`
  abbrev pub as_dict : Option (Value F) → Fields F
  as_dict (some (obj fs)) = fs
  as_dict _ = end

  -- `as_list`
  abbrev pub as_list : Option (Value F) → Items F
  as_list (some (arr vs)) = vs
  as_list _ = nil

  -- `d[k] = v`
  unfoldable pub put : String → Value F → Fields F → Fields F
  put k v end = field k v end
  put k v (field j w fs) = if j == k then field j v fs else field j w (put k v fs)

  -- `d.get(k, default)`, on the result of `d.get(k)`
  abbrev pub get_or : Value F → Option (Value F) → Value F
  get_or d none = d
  get_or d (some v) = v

  abbrev pub items_of : List (Value F) → Items F
  items_of [] = nil
  items_of (v ∷ vs) = cons v (items_of vs)

  -- `del d[k]`
  unfoldable pub remove : String → Fields F → Fields F
  remove k end = end
  remove k (field j v fs) = let rest = remove k fs in if j == k then rest else field j v rest

  pub get-put :
      (k j : String) (v : Value F) (d : Fields F)
      → get k (put j v d) ≡ (if j == k then some v else get k d)
  unfolding get put
  get-put k j v end = refl
  get-put k j v (field i w fs) = elim (Bool-cases (i == j)) [
    | inl e ↦ elim (Bool-cases (j == k)) [
      | inl q ↦ rw (e, (eq_iff i j).0 e, q) refl
      | inr q ↦ rw (e, (eq_iff i j).0 e, q) refl
    ]
    | inr e ↦ elim (Bool-cases (i == k)) [
      | inl p ↦ rw (e, p, apart i j k e p) refl
      | inr p ↦ rw (e, p) (get-put k j v fs)
    ]
  ]

  pub get-remove :
      (k j : String) (d : Fields F) → get k (remove j d) ≡ (if j == k then none else get k d)
  unfolding get remove
  get-remove k j end = elim (Bool-cases (j == k)) [ inl q ↦ rw q refl | inr q ↦ rw q refl ]
  get-remove k j (field i w fs) = elim (Bool-cases (i == j)) [
    | inl e ↦ elim (Bool-cases (j == k)) [
      | inl q ↦ rw (e, q) (get-remove k j fs ∙ rw q refl)
      | inr q ↦ rw (e, (eq_iff i j).0 e, q) (get-remove k j fs ∙ rw q refl)
    ]
    | inr e ↦ elim (Bool-cases (i == k)) [
      | inl p ↦ rw (e, p, apart i j k e p) refl
      | inr p ↦ rw (e, p) (get-remove k j fs)
    ]
  ]
