-- ===== src/Producer/EvictionMonitor/Window.antt =====
-- splitio/producer/evcalc/evcalc.go: what the window holds after any number of flushes, and what the
-- rate says of it.
use mathlib.Core.List.{append_assoc, append-nil}
use split_synchronizer.Prelude.Sliding.{last_n, length-last_n, last_n-snoc_full, last_n-snoc_room}
use split_synchronizer.Prelude.{
  ℕ, zero, suc, ◌*◌, ◌-◌, ◌<◌, ◌≤◌, false, Option, none, some, List, [], ◌∷◌, ◌++◌, length, take,
  drop, length-drop, ℤ, pos, ◌+ℤ◌, ◌-ℤ◌, ◌<ℤ◌, int_eq, ◌≡◌, ◌↔◌, refl, sym, ap, ◌∙◌, arith,
  Bool-cases, leb, subst, inl, inr,
}
use split_synchronizer.Producer.EvictionMonitor.{
  FlushRecord, Rate, quotient, Monitor, new_monitor, calculate_amount_flushed, last_in_storage,
  amount_generated, calculate_lambda, moved, store_data_flushed,
}

behind : (t a b : ℤ) → (t <ℤ a -ℤ b +ℤ t) ↔ (b <ℤ a)
behind t a b = ground arith

module _ {Time : Type 0} where
  -- Calls of `StoreDataFlushed`, up to a panic.
  unfoldable pub store_all : Monitor Time → List (FlushRecord Time) → Option (Monitor Time)
  unfolding store_data_flushed
  store_all m [] = some m
  store_all m (r ∷ rs) = elim (store_data_flushed m r) [ none ↦ none | some m' ↦ store_all m' rs ]

  -- What the monitor has to hold once these records were stored, the latest last.
  pub record Holds (past : List (FlushRecord Time)) (n : ℕ) (m : Monitor Time) : Type 0 where
    pub window : m.flushing_stats ≡ last_n n past
    pub room : m.max_length ≡ n
    pub idle : m.busy ≡ false
    pub rate : 0 < length past → calculate_lambda (last_n n past) ≡ some m.lambda

  calculate_lambda-some :
      (xs : List (FlushRecord Time)) (r : FlushRecord Time)
      → (k : Rate) × (calculate_lambda (xs ++ r ∷ []) ≡ some k)
  unfolding calculate_lambda
  calculate_lambda-some [] r = (_, refl)
  calculate_lambda-some (x ∷ xs) r = (_, refl)

  take_all : (n : ℕ) (xs : List (FlushRecord Time)) → length xs ≤ n → take n xs ≡ xs
  take_all zero [] h = refl
  take_all (suc n) [] h = refl
  take_all zero (x ∷ xs) h = absurd (omega arith)
  take_all (suc n) (x ∷ xs) h = ap (λ t. x ∷ t) (take_all n xs (omega arith))

  drop_nil : (n : ℕ) → drop {A = FlushRecord Time} n [] ≡ []
  drop_nil zero = refl
  drop_nil (suc n) = refl

  moved-last_n :
      (past : List (FlushRecord Time)) (n : ℕ) (m : Monitor Time) (r : FlushRecord Time)
      → 0 < n
      → m.flushing_stats ≡ last_n n past
      → m.max_length ≡ n
      → (stats : List (FlushRecord Time)) × (moved m ≡ some stats)
        × (stats ++ r ∷ [] ≡ last_n n (past ++ r ∷ []))
  unfolding moved
  moved-last_n past n m r p w e = elim (Bool-cases (leb n (length past))) [
    | inl full ↦
        let k : length (last_n n past) ≡ n = ground (arith, length-last_n n past) in
        (
          drop 1 (last_n n past),
          ground (
            arith,
            w,
            e,
            k,
            p,
            full,
            take_all (n - 1) (drop 1 (last_n n past)),
            length-drop 1 (last_n n past),
          ),
          last_n-snoc_full n past r p (ground arith),
        )
    | inr room ↦ (
      last_n n past,
      ground (arith, w, e, room, length-last_n n past),
      last_n-snoc_room n past r (ground arith),
    )
  ]

  store-Holds :
      (past : List (FlushRecord Time)) (n : ℕ) (m : Monitor Time) (r : FlushRecord Time)
      → 0 < n
      → Holds past n m
      → (m' : Monitor Time) × (store_data_flushed m r ≡ some m') × Holds (past ++ r ∷ []) n m'
  unfolding store_data_flushed
  store-Holds past n m r p h =
      let (stats, e, w) = moved-last_n past n m r p h.window h.room in
      let (rate, k) = calculate_lambda-some stats r in
      (
        record m { flushing_stats = stats ++ r ∷ []; lambda = rate },
        rw (store_data_flushed, e, k) refl,
        record {
          window = w;
          room = h.room;
          idle = h.idle;
          rate = λ some_past. ap calculate_lambda (sym w) ∙ k;
        },
      )

  store_all-Holds :
      (past : List (FlushRecord Time)) (n : ℕ) (m : Monitor Time) (rs : List (FlushRecord Time))
      → 0 < n
      → Holds past n m
      → (m' : Monitor Time) × (store_all m rs ≡ some m') × Holds (past ++ rs) n m'
  unfolding store_all
  store_all-Holds past n m [] p h = (m, refl, subst (λ z. Holds z n m) (sym (append-nil past)) h)
  store_all-Holds past n m (r ∷ rs) p h =
      let (m', e, h') = store-Holds past n m r p h in
      let (m'', e', h'') = store_all-Holds (past ++ r ∷ []) n m' rs p h' in
      (m'', rw (store_all, e) e', subst (λ z. Holds z n m'') (append_assoc past (r ∷ []) rs) h'')

  -- Any number of flushes can be stored in a monitor that was made for at least one thread, without a
  -- panic. Its window is then that of the latest flushes, a hundred for each thread at most; its rate,
  -- once there was one flush, is that of the window; and the permission stays free.
  pub store_all-window :
      (threads : ℕ) (rs : List (FlushRecord Time))
      → 0 < threads
      → (m : Monitor Time) × (store_all (new_monitor threads) rs ≡ some m)
        × Holds rs (100 * threads) m
  store_all-window threads rs p =
      store_all-Holds [] (100 * threads) (new_monitor threads) rs (omega arith) (record {
        window = sym (drop_nil (0 - 100 * threads));
        room = refl;
        idle = refl;
        rate = λ h. absurd (omega arith);
      })

  -- Where more is generated than nothing, the rate is below one exactly if the storage holds more at
  -- the end of the window than at its start.
  pub calculate_lambda-behind :
      (r : FlushRecord Time) (rs : List (FlushRecord Time))
      → pos 0 <ℤ amount_generated r rs
      → (calculate_lambda (r ∷ rs)
          ≡ some (quotient (calculate_amount_flushed (r ∷ rs)) (amount_generated r rs)))
        × ((calculate_amount_flushed (r ∷ rs) <ℤ amount_generated r rs)
            ↔ (r.data_in_storage <ℤ last_in_storage r rs))
  unfolding calculate_lambda amount_generated
  calculate_lambda-behind r rs p = (
    ground (arith, p),
    behind (calculate_amount_flushed (r ∷ rs)) (last_in_storage r rs) r.data_in_storage,
  )
