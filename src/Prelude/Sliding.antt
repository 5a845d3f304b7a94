-- ===== src/Prelude/Sliding.antt =====
-- A window of the latest elements of a list, as many as there is room for.
use mathlib.Core.List.{List, [], ◌∷◌, ◌++◌}
use mathlib.Core.Path.{◌≡◌, refl, sym, ap, ◌∙◌}
use Prim.Native.Nat.{ℕ, zero, suc, ◌-◌, ◌≤◌, ◌<◌}
use native.Mathlib.Omega.{arith}
use split_synchronizer.Prelude.Lists.{length, drop, length-append, length-drop}

module _ {ℓ} {A : Type ℓ} where
  -- The last `n` of a list.
  abbrev pub last_n : ℕ → List A → List A
  last_n n xs = drop (length xs - n) xs

  drop-append : (n : ℕ) (xs ys : List A) → n ≤ length xs → drop n (xs ++ ys) ≡ drop n xs ++ ys
  drop-append zero xs ys h = refl
  drop-append (suc n) [] ys h = absurd (omega arith)
  drop-append (suc n) (x ∷ xs) ys h = drop-append n xs ys (omega arith)

  drop-drop_one : (n : ℕ) (xs : List A) → drop 1 (drop n xs) ≡ drop (suc n) xs
  drop-drop_one zero xs = refl
  drop-drop_one (suc n) [] = refl
  drop-drop_one (suc n) (x ∷ xs) = drop-drop_one n xs

  pub length-last_n : (n : ℕ) (xs : List A) → length (last_n n xs) ≡ length xs - (length xs - n)
  length-last_n n xs = length-drop (length xs - n) xs

  -- The element that leaves a full window is its first.
  pub last_n-snoc_full :
      (n : ℕ) (xs : List A) (x : A)
      → 0 < n
      → n ≤ length xs
      → drop 1 (last_n n xs) ++ x ∷ [] ≡ last_n n (xs ++ x ∷ [])
  last_n-snoc_full n xs x p h =
      ap (λ w. w ++ x ∷ []) (drop-drop_one (length xs - n) xs)
      ∙ sym (drop-append (suc (length xs - n)) xs (x ∷ []) (omega arith))
      ∙ (let e : suc (length xs - n) ≡ length (xs ++ x ∷ []) - n =
            omega (arith, length-append xs (x ∷ [])) in
          ap (λ k. drop k (xs ++ x ∷ [])) e)

  pub last_n-snoc_room :
      (n : ℕ) (xs : List A) (x : A)
      → length xs < n
      → last_n n xs ++ x ∷ [] ≡ last_n n (xs ++ x ∷ [])
  last_n-snoc_room n xs x h =
      (let none_out : length xs - n ≡ 0 = omega arith in ap (λ k. drop k xs ++ x ∷ []) none_out)
      ∙ (let e : 0 ≡ length (xs ++ x ∷ []) - n = omega (arith, length-append xs (x ∷ [])) in
          ap (λ k. drop k (xs ++ x ∷ [])) e)
