-- ===== src/FlagSets/Sanitize.antt =====
-- What `Sanitize` returns: nothing new, every flag set that it should keep, and an already clean
-- list as it is; and a case in which an unknown flag set stays.
use split_synchronizer.FlagSets.Laws.{last_or, init, after_drop, scan, loop-scan}
use split_synchronizer.FlagSets.{FlagSetMatcher, is_dropped, sanitize_loop, sanitize}
use split_synchronizer.Prelude.Keys.{contains}
use split_synchronizer.Prelude.Membership.{contains-sort_slice}
use split_synchronizer.Prelude.Sorting.{sort_slice}
use split_synchronizer.Prelude.Str.{Str, str_lt, str_eq, str_beq_iff}
use split_synchronizer.Prelude.{
  ℕ, zero, suc, ◌+◌, ◌≤◌, Bool, true, false, not, ◌||◌, List, [], ◌∷◌, ◌++◌, length, ◌≡◌, refl,
  arith, ap, sym, ◌∙◌,
}

contains-last :
    (n x : Str) (xs : List Str) → contains n (last_or x xs ∷ init (x ∷ xs)) ≡ contains n (x ∷ xs)
unfolding contains last_or init
contains-last n x [] = ground arith
contains-last n x (y ∷ ys) = ground (arith, contains-last n y ys)

contains-after_drop : (n : Str) (rest : List Str) → contains n (after_drop rest) ≡ contains n rest
unfolding after_drop
contains-after_drop n [] = refl
contains-after_drop n (y ∷ ys) = contains-last n y ys

-- Whether the matcher lets a flag set pass.
abbrev pub is_known : FlagSetMatcher → Str → Bool
is_known f n = not f.strict || contains n f.sets

scan-adds_nothing :
    (fuel : ℕ) (f : FlagSetMatcher) (seen rest : List Str) (n : Str)
    → contains n (scan fuel f seen rest) ≡ true
    → contains n rest ≡ true
unfolding scan after_drop contains
scan-adds_nothing zero f seen rest n h = h
scan-adds_nothing (suc fuel) f seen [] n h = h
scan-adds_nothing (suc fuel) f seen (item ∷ []) n h =
    ground (arith, scan-adds_nothing fuel f (item ∷ seen) [] n)
scan-adds_nothing (suc fuel) f seen (item ∷ r ∷ rs) n h = ground (
  arith,
  scan-adds_nothing fuel f (item ∷ seen) (r ∷ rs) n,
  scan-adds_nothing fuel f (item ∷ seen) (init (r ∷ rs)) n,
  contains-last n r rs,
)

scan-keeps :
    (fuel : ℕ) (f : FlagSetMatcher) (seen rest : List Str) (n : Str)
    → is_known f n ≡ true
    → contains n seen ≡ false
    → contains n rest ≡ true
    → contains n (scan fuel f seen rest) ≡ true
unfolding scan after_drop contains is_dropped
scan-keeps zero f seen rest n k s h = h
scan-keeps (suc fuel) f seen [] n k s h = h
scan-keeps (suc fuel) f seen (item ∷ []) n k s h = ground (arith, str_beq_iff n item)
scan-keeps (suc fuel) f seen (item ∷ r ∷ rs) n k s h = ground (
  arith,
  scan-keeps fuel f (item ∷ seen) (r ∷ rs) n k,
  scan-keeps fuel f (item ∷ seen) (init (r ∷ rs)) n k,
  contains-last n r rs,
  str_beq_iff n item,
)

scan-sanitize :
    (f : FlagSetMatcher) (x : Str) (input : List Str)
    → sanitize f (x ∷ input) ≡ sort_slice str_lt (scan (length (x ∷ input)) f [] (x ∷ input))
unfolding sanitize
scan-sanitize f x input =
    ap (sort_slice str_lt) (loop-scan (length (x ∷ input)) f [] [] (x ∷ input))

-- Each flag set in the result was in the input.
pub sanitize-adds_nothing :
    (f : FlagSetMatcher) (input : List Str) (n : Str)
    → contains n (sanitize f input) ≡ true
    → contains n input ≡ true
unfolding sanitize
sanitize-adds_nothing f [] n h = h
sanitize-adds_nothing f (x ∷ input) n h =
    let all = scan (length (x ∷ input)) f [] (x ∷ input) in
    scan-adds_nothing (length (x ∷ input)) f [] (x ∷ input) n
      (sym (contains-sort_slice str_lt n all) ∙ ap (contains n) (sym (scan-sanitize f x input)) ∙ h)

-- Each flag set of the input that the matcher knows is in the result.
pub sanitize-keeps :
    (f : FlagSetMatcher) (input : List Str) (n : Str)
    → is_known f n ≡ true
    → contains n input ≡ true
    → contains n (sanitize f input) ≡ true
unfolding sanitize contains
sanitize-keeps f [] n k h = h
sanitize-keeps f (x ∷ input) n k h =
    let all = scan (length (x ∷ input)) f [] (x ∷ input) in
    ap (contains n) (scan-sanitize f x input)
    ∙ contains-sort_slice str_lt n all
    ∙ scan-keeps (length (x ∷ input)) f [] (x ∷ input) n k refl h

-- A clean rest: each item is known, and met for the first time.
abbrev IsClean : FlagSetMatcher → List Str → List Str → Type 0
IsClean f seen [] = Unit
IsClean f seen (x ∷ xs) =
    (is_known f x ≡ true) × (contains x seen ≡ false) × IsClean f (x ∷ seen) xs

scan_clean :
    (fuel : ℕ) (f : FlagSetMatcher) (seen rest : List Str)
    → IsClean f seen rest
    → scan fuel f seen rest ≡ rest
unfolding scan is_dropped
scan_clean zero f seen rest c = refl
scan_clean (suc fuel) f seen [] c = refl
scan_clean (suc fuel) f seen (x ∷ xs) c = ground (arith, scan_clean fuel f (x ∷ seen) xs c.2)

-- A list of distinct flag sets that the matcher knows is only sorted.
pub sanitize_clean :
    (f : FlagSetMatcher) (input : List Str)
    → IsClean f [] input
    → sanitize f input ≡ sort_slice str_lt input
unfolding sanitize sort_slice
sanitize_clean f [] c = refl
sanitize_clean f (x ∷ input) c =
    scan-sanitize f x input
    ∙ ap (sort_slice str_lt) (scan_clean (length (x ∷ input)) f [] (x ∷ input) c)

last_or-snoc : (x y : Str) (xs : List Str) → last_or x (xs ++ y ∷ []) ≡ y
unfolding last_or
last_or-snoc x y [] = refl
last_or-snoc x y (z ∷ xs) = last_or-snoc z y xs

-- If the first and the last flag set of an input are both unknown to the matcher, the last one is in
-- the result.
pub sanitize_leaves_unknown :
    (f : FlagSetMatcher) (x : Str) (rest : List Str) (y : Str)
    → is_known f x ≡ false
    → is_known f y ≡ false
    → contains y (sanitize f (x ∷ (rest ++ y ∷ []))) ≡ true
unfolding scan after_drop last_or init contains is_dropped
sanitize_leaves_unknown f x rest y ux uy =
    let all = scan (length (x ∷ (rest ++ y ∷ []))) f [] (x ∷ (rest ++ y ∷ [])) in
    ap (contains y) (scan-sanitize f x (rest ++ y ∷ []))
    ∙ contains-sort_slice str_lt y all
    ∙ first rest
  where
    first :
        (xs : List Str)
        → contains y (scan (length (x ∷ (xs ++ y ∷ []))) f [] (x ∷ (xs ++ y ∷ []))) ≡ true
    first [] = ground (arith, str_beq_iff y y)
    first (z ∷ xs) = ground (arith, str_beq_iff y y, last_or-snoc z y xs)

length-init : (x : Str) (xs : List Str) → length (init (x ∷ xs)) ≡ length xs
unfolding init
length-init x [] = refl
length-init x (y ∷ ys) = ap suc (length-init y ys)

scan_fuel :
    (fuel : ℕ) (f : FlagSetMatcher) (seen rest : List Str)
    → length rest ≤ fuel
    → scan (suc fuel) f seen rest ≡ scan fuel f seen rest
unfolding scan after_drop
scan_fuel zero f seen [] h = refl
scan_fuel zero f seen (x ∷ xs) h = absurd (omega arith)
scan_fuel (suc fuel) f seen [] h = refl
scan_fuel (suc fuel) f seen (x ∷ []) h = ground (arith, scan_fuel fuel f (x ∷ seen) [])
scan_fuel (suc fuel) f seen (x ∷ y ∷ ys) h = ground (
  arith,
  scan_fuel fuel f (x ∷ seen) (y ∷ ys),
  scan_fuel fuel f (x ∷ seen) (init (y ∷ ys)),
  length-init y ys,
)

-- The length of the input is enough fuel for the loop: more changes nothing.
pub sanitize_loop_fuel :
    (extra : ℕ) (f : FlagSetMatcher) (input : List Str)
    → sanitize_loop (extra + length input) f [] input 0 ≡ sanitize_loop (length input) f [] input 0
sanitize_loop_fuel zero f input = ap (λ n. sanitize_loop n f [] input 0) (omega arith)
sanitize_loop_fuel (suc extra) f input =
    let more : suc extra + length input ≡ suc (extra + length input) = omega arith in
    ap (λ n. sanitize_loop n f [] input 0) more
    ∙ loop-scan (suc (extra + length input)) f [] [] input
    ∙ scan_fuel (extra + length input) f [] input (omega arith)
    ∙ sym (loop-scan (extra + length input) f [] [] input)
    ∙ sanitize_loop_fuel extra f input
