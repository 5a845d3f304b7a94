-- ===== src/Prelude/Searching.antt =====
-- `sort.Search(n, f)`: the binary search of Go's standard library. The window `[i, j)` at least
-- halves on each round, and `n` rounds of fuel are more than it takes.
use Prim.Native.Nat.{ℕ, zero, suc, ◌+◌, ◌/◌, ◌≤◌, ◌<◌}
use mathlib.Core.Bool.{Bool, true, false}
use mathlib.Core.Path.{◌≡◌}
use mathlib.Core.Logic.{inl, inr}
use native.Mathlib.Omega.{arith}
use split_synchronizer.Prelude.Tests.{ltb, Bool-cases}

search_window : ℕ → (ℕ → Bool) → ℕ → ℕ → ℕ
search_window zero f i j = i
search_window (suc fuel) f i j = elim (ltb i j) [
  | false ↦ i
  | true ↦ elim (f ((i + j) / 2)) [
    | false ↦ search_window fuel f ((i + j) / 2 + 1) j
    | true ↦ search_window fuel f i ((i + j) / 2)
  ]
]

module _ (fuel : ℕ) (f : ℕ → Bool) (i j : ℕ) where
  search_window_done : ltb i j ≡ false → search_window (suc fuel) f i j ≡ i
  unfolding search_window
  search_window_done h = rw (h, search_window)

  search_window_right :
      ltb i j ≡ true
      → f ((i + j) / 2) ≡ false
      → search_window (suc fuel) f i j ≡ search_window fuel f ((i + j) / 2 + 1) j
  unfolding search_window
  search_window_right h e = rw (h, e, search_window)

  search_window_left :
      ltb i j ≡ true
      → f ((i + j) / 2) ≡ true
      → search_window (suc fuel) f i j ≡ search_window fuel f i ((i + j) / 2)
  unfolding search_window
  search_window_left h e = rw (h, e, search_window)

unfoldable pub search_first : ℕ → (ℕ → Bool) → ℕ
unfolding search_window
search_first n f = search_window n f 0 n

-- Once true, the test stays true.
abbrev pub Monotone : ℕ → (ℕ → Bool) → Type 0
Monotone n f = (a b : ℕ) → a ≤ b → b < n → f a ≡ true → f b ≡ true

-- The index splits `[0, n)` into the part where the test fails and the part where it passes.
pub record Splits (n : ℕ) (f : ℕ → Bool) (r : ℕ) : Type 0 where
  pub within : r ≤ n
  pub below : (k : ℕ) → k < r → f k ≡ false
  pub above : (k : ℕ) → r ≤ k → k < n → f k ≡ true

module _ (n : ℕ) (f : ℕ → Bool) (mono : Monotone n f) where
  below_mid : (h : ℕ) → f h ≡ false → h < n → (k : ℕ) → k < suc h → f k ≡ false
  below_mid h e hn k lt = elim (Bool-cases (f k)) [
    | inl t ↦ absurd (ground (arith, mono k h (omega arith) hn t))
    | inr e' ↦ e'
  ]

  search_window-Splits :
      (fuel i j : ℕ)
      → j ≤ i + fuel
      → i ≤ j
      → j ≤ n
      → ((k : ℕ) → k < i → f k ≡ false)
      → ((k : ℕ) → j ≤ k → k < n → f k ≡ true)
      → Splits n f (search_window fuel f i j)
  unfolding search_window
  search_window-Splits zero i j b ij jn lo hi = record {
    within = omega arith;
    below = lo;
    above = λ k p q. hi k (omega arith) q;
  }
  search_window-Splits (suc fuel) i j b ij jn lo hi = elim (Bool-cases (ltb i j)) [
    | inr done ↦
        rw (search_window_done fuel f i j done)
          (record { within = omega arith; below = lo; above = λ k p q. hi k (ground arith) q })
    | inl more ↦
        let lt : i < j = ground arith in
        (elim (Bool-cases (f ((i + j) / 2))) [
          | inl t ↦ rw (search_window_left fuel f i j more t) (
              search_window-Splits fuel i ((i + j) / 2) (omega arith) (omega arith) (omega arith) lo
                (λ k p q. mono ((i + j) / 2) k p q t))
          | inr e ↦ rw (search_window_right fuel f i j more e) (
              search_window-Splits fuel ((i + j) / 2 + 1) j (omega arith) (omega arith) jn
                (λ k p. below_mid ((i + j) / 2) e (omega arith) k (omega arith)) hi)
        ])
  ]

  pub search_first-Splits : Splits n f (search_first n f)
  unfolding search_first
  search_first-Splits =
      search_window-Splits n 0 n (omega arith) (omega arith) (omega arith)
        (λ k p. absurd (omega arith)) (λ k p q. absurd (omega arith))
