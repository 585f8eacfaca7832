-- ===== src/Tools/Context/Nested.antt =====
-- The windows of app/tools/_core/context_logic.py lie in each other.
use card_fraud_ops_analyst_a.Prelude.{
  ℕ, suc, ◌+◌, ◌≡◌, ◌≤◌, String, Bool, true, false, Option, none, some, List, [], ◌∷◌, ◌==◌, ◌&&◌,
  not, contains, length, refl, arith, Bool-cases, inl, inr, bind-eq-some, map-eq-some, some_inj,
}
use card_fraud_ops_analyst_a.Value.{Value, Fields, get}
use card_fraud_ops_analyst_a.Floats.{Floats, truthy}
use card_fraud_ops_analyst_a.Tools.Context.{
  WindowStats, window_sizes, count_if, declines, add_distinct, distinct, compute_window_stats,
  put_transaction, dedup_key, deduped, values, within, window_transactions, windows_of, or_now,
  compute_all_windows,
}

module _ {F : Type 0} (fl : Floats F) (coerce_datetime : Option (Value F) → Option ℕ) where
  distinct-le :
      (key : String) (ts : List (Fields F))
      → length (distinct fl coerce_datetime key ts) ≤ length ts
  unfolding distinct
  distinct-le key [] = omega arith
  distinct-le key (t ∷ ts) = add (get key t) _ (distinct-le key ts)
    where
      add :
          (o : Option (Value F)) (seen : List String)
          → length seen ≤ length ts
          → length (add_distinct fl coerce_datetime o seen) ≤ suc (length ts)
      add none seen h = omega (arith, h)
      add (some v) seen h = elim (Bool-cases (truthy fl v && not (contains (fl.text_of v) seen))) [
        | inl e ↦ rw e (omega (arith, h))
        | inr e ↦ rw e (omega (arith, h))
      ]

  declines-le :
      (ts : List (Fields F)) (d : ℕ) → declines fl coerce_datetime ts ≡ some d → d ≤ length ts
  declines-le [] d h = rw (← some_inj 0 d h) (omega arith)
  declines-le (t ∷ ts) d h =
      let (b, one, rest) = bind-eq-some _ _ d h in
      let (n, more, made) = map-eq-some (count_if fl coerce_datetime b) _ d rest in
      rw (← made) (counted b n (declines-le ts n more))
    where
      counted :
          (b : Bool) (n : ℕ) → n ≤ length ts → count_if fl coerce_datetime b n ≤ suc (length ts)
      counted true n h = omega (arith, h)
      counted false n h = omega (arith, h)

  -- a window's counts are those of its own transactions
  pub record IsCounted (n : ℕ) (w : WindowStats F) : Type 0 where
    pub transactions : w.transaction_count ≡ n
    pub declined : w.decline_count ≤ n
    pub merchants : w.unique_merchants ≤ n
    pub cards : w.unique_cards ≤ n

  compute_window_stats-IsCounted :
      (ts : List (Fields F)) (hours : ℕ) (w : WindowStats F)
      → compute_window_stats fl coerce_datetime ts hours ≡ some w
      → IsCounted (length ts) w
  unfolding compute_window_stats
  compute_window_stats-IsCounted ts hours w h =
      let (xs, read, rest) = bind-eq-some _ _ w h in
      let (d, counted, made) = map-eq-some _ (declines fl coerce_datetime ts) w rest in
      rw (← made) (record {
        transactions = refl;
        declined = declines-le ts d counted;
        merchants = distinct-le "merchant_id" ts;
        cards = distinct-le "card_id" ts;
      })

  within-wider :
      (anchor hours more : ℕ) (o : Option ℕ)
      → hours ≤ more
      → within fl coerce_datetime anchor hours o ≡ true
      → within fl coerce_datetime anchor more o ≡ true
  within-wider anchor hours more none h k = k
  within-wider anchor hours more (some ts) h k = ground (arith, h)

  window-wider :
      (anchor hours more : ℕ) (ts : List (Fields F))
      → hours ≤ more
      → length (window_transactions fl coerce_datetime anchor hours ts)
        ≤ length (window_transactions fl coerce_datetime anchor more ts)
  unfolding window_transactions
  window-wider anchor hours more [] h = omega arith
  window-wider anchor hours more (t ∷ ts) h =
      let time = coerce_datetime (get "transaction_timestamp" t) in
      let rest = window-wider anchor hours more ts h in
      elim (Bool-cases (within fl coerce_datetime anchor hours time)) [
        | inl e ↦ rw (e, within-wider anchor hours more time h e) (omega (arith, rest))
        | inr e ↦ elim (Bool-cases (within fl coerce_datetime anchor more time)) [
          | inl k ↦ rw (e, k) (omega (arith, rest))
          | inr k ↦ rw (e, k) rest
        ]
      ]

  window-le :
      (anchor hours : ℕ) (ts : List (Fields F))
      → length (window_transactions fl coerce_datetime anchor hours ts) ≤ length ts
  unfolding window_transactions
  window-le anchor hours [] = omega arith
  window-le anchor hours (t ∷ ts) =
      let rest = window-le anchor hours ts in
      elim (Bool-cases (
        within fl coerce_datetime anchor hours (coerce_datetime (get "transaction_timestamp" t)))) [
          | inl e ↦ rw e (omega (arith, rest))
          | inr e ↦ rw e (omega (arith, rest))
        ]

  put_transaction-le :
      (key : String) (t : Fields F) (done : List (String × Fields F))
      → length (put_transaction fl coerce_datetime key t done) ≤ suc (length done)
  put_transaction-le key t [] = omega arith
  put_transaction-le key t ((j, u) ∷ rest) = elim (Bool-cases (j == key)) [
    | inl e ↦ rw e (omega arith)
    | inr e ↦ rw e (omega (arith, put_transaction-le key t rest))
  ]

  values-length :
      (done : List (String × Fields F)) → length (values fl coerce_datetime done) ≡ length done
  values-length [] = refl
  values-length ((key, t) ∷ rest) = omega (arith, values-length rest)

  deduped-le :
      (ts : List (Fields F)) (done : List (String × Fields F))
      → length (deduped fl coerce_datetime ts done) ≤ length ts + length done
  unfolding deduped
  deduped-le [] done = omega arith
  deduped-le (t ∷ ts) done =
      let key = dedup_key fl coerce_datetime t in
      omega (
        arith,
        deduped-le ts (put_transaction fl coerce_datetime key t done),
        put_transaction-le key t done,
      )

  -- Windows that grow: each counts at least `lo` transactions, no more than the next, and at most
  -- `n`, and its declines, merchants and cards are at most its transactions.
  unfoldable pub IsNested : ℕ → ℕ → List (WindowStats F) → Type 0
  IsNested lo n [] = Unit
  IsNested lo n (w ∷ ws) =
      (lo ≤ w.transaction_count)
      × (w.transaction_count ≤ n)
      × IsCounted w.transaction_count w
      × IsNested w.transaction_count n ws

  -- sizes that do not fall, from `h` on
  unfoldable IsGrowing : ℕ → List ℕ → Type 0
  IsGrowing h [] = Unit
  IsGrowing h (k ∷ ks) = (h ≤ k) × IsGrowing k ks

  IsNested-le :
      (lo n m : ℕ) (ws : List (WindowStats F)) → n ≤ m → IsNested lo n ws → IsNested lo m ws
  unfolding IsNested
  IsNested-le lo n m [] h nested = tt
  IsNested-le lo n m (w ∷ ws) h nested = (
    nested.0,
    omega (arith, nested.1),
    nested.2,
    IsNested-le w.transaction_count n m ws h nested.3,
  )

  recount : (n : ℕ) (w : WindowStats F) → IsCounted n w → IsCounted w.transaction_count w
  recount n w c = record {
    transactions = refl;
    declined = omega (arith, c.declined, c.transactions);
    merchants = omega (arith, c.merchants, c.transactions);
    cards = omega (arith, c.cards, c.transactions);
  }

  windows_of-IsNested :
      (anchor h : ℕ) (hours : List ℕ) (ts : List (Fields F)) (ws : List (WindowStats F))
      → IsGrowing h hours
      → windows_of fl coerce_datetime anchor hours ts ≡ some ws
      → IsNested (length (window_transactions fl coerce_datetime anchor h ts)) (length ts) ws
  unfolding windows_of IsNested IsGrowing
  windows_of-IsNested anchor h [] ts ws growing e = rw (← some_inj [] ws e) tt
  windows_of-IsNested anchor h (k ∷ more) ts ws growing e =
      let (w, one, rest) = bind-eq-some _ _ ws e in
      let (ws', others, made) = map-eq-some (λ xs. w ∷ xs) _ ws rest in
      let inside = window_transactions fl coerce_datetime anchor k ts in
      let counted = compute_window_stats-IsCounted inside k w one in
      let later = windows_of-IsNested anchor k more ts ws' growing.1 others in
      rw (← made) (
        rw counted.transactions (window-wider anchor h k ts growing.0),
        rw counted.transactions (window-le anchor k ts),
        recount (length inside) w counted,
        rw counted.transactions later,
      )

  window_sizes-IsGrowing : IsGrowing 0 window_sizes
  unfolding IsGrowing
  window_sizes-IsGrowing = (omega arith, (omega arith, (omega arith, (omega arith, tt))))

  windows_of-length :
      (anchor : ℕ) (hours : List ℕ) (ts : List (Fields F)) (ws : List (WindowStats F))
      → windows_of fl coerce_datetime anchor hours ts ≡ some ws
      → length ws ≡ length hours
  unfolding windows_of
  windows_of-length anchor [] ts ws e = rw (← some_inj [] ws e) refl
  windows_of-length anchor (k ∷ more) ts ws e =
      let (w, one, rest) = bind-eq-some _ _ ws e in
      let (ws', others, made) = map-eq-some (λ xs. w ∷ xs) _ ws rest in
      rw (← made) (omega (arith, windows_of-length anchor more ts ws' others))

  -- If no transaction makes it raise, `compute_all_windows` gives four windows that lie in each
  -- other: the 1 hour window counts no more transactions than the 6 hour one, and so on to 72
  -- hours, which counts at most as many as were given, and in each the declines, merchants and
  -- cards are at most the transactions.
  pub compute_all_windows-IsNested :
      (now : ℕ) (transactions : List (Fields F)) (reference_timestamp : Option (Value F))
      (ws : List (WindowStats F))
      → compute_all_windows fl coerce_datetime now transactions reference_timestamp ≡ some ws
      → (length ws ≡ 4) × IsNested 0 (length transactions) ws
  unfolding compute_all_windows IsNested
  compute_all_windows-IsNested now transactions reference_timestamp ws e =
      let anchor = or_now fl coerce_datetime now (coerce_datetime reference_timestamp) in
      let unique = deduped fl coerce_datetime transactions [] in
      let kept = values fl coerce_datetime unique in
      (
        windows_of-length anchor window_sizes kept ws e,
        IsNested-le 0 (length kept) (length transactions) ws
            (omega (arith, values-length unique, deduped-le transactions []))
            (from_zero _ _ ws
              (windows_of-IsNested anchor 0 window_sizes kept ws window_sizes-IsGrowing e)),
      )
    where
      from_zero : (lo n : ℕ) (ws : List (WindowStats F)) → IsNested lo n ws → IsNested 0 n ws
      from_zero lo n [] h = h
      from_zero lo n (w ∷ ws) h = (omega arith, h.1, h.2, h.3)
