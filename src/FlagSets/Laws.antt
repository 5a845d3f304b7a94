-- ===== src/FlagSets/Laws.antt =====
-- The loop of `Sanitize` with its index and its moving items, against a scan of what is left.
use split_synchronizer.FlagSets.{FlagSetMatcher, is_dropped, drop_at, sanitize_loop}
use split_synchronizer.Prelude.Str.{Str, str_eq}
use mathlib.Core.List.{append_assoc}
use split_synchronizer.Prelude.{
  length-append, ℕ, zero, suc, ◌+◌, ◌-◌, none, some, List, [], ◌∷◌, ◌++◌, if◌then◌else◌, length,
  get_elem?, take, ◌≡◌, refl, arith, ap, ◌∙◌, Bool-cases, inl, inr,
}

unfoldable pub last_or : Str → List Str → Str
last_or x [] = x
last_or x (y ∷ ys) = last_or y ys

unfoldable pub init : List Str → List Str
init [] = []
init (x ∷ []) = []
init (x ∷ y ∷ ys) = x ∷ init (y ∷ ys)

-- The rest of the input once its first item is dropped: the last item takes its place.
unfoldable pub after_drop : List Str → List Str
after_drop [] = []
after_drop (y ∷ ys) = last_or y ys ∷ init (y ∷ ys)

take_last : (x : Str) (xs : List Str) → take (length xs) (x ∷ xs) ≡ init (x ∷ xs)
unfolding init
take_last x [] = refl
take_last x (y ∷ ys) = ap (◌∷◌ x) (take_last y ys)

get_last : (x : Str) (xs : List Str) → get_elem? (x ∷ xs) (length xs) ≡ some (last_or x xs)
unfolding last_or
get_last x [] = refl
get_last x (y ∷ ys) = get_last y ys

suc_sub_one : (n : ℕ) → suc n - 1 ≡ n
suc_sub_one n = omega arith

drop_at-zero : (item : Str) (rest : List Str) → drop_at (item ∷ rest) 0 ≡ after_drop rest
unfolding drop_at after_drop
drop_at-zero item [] = refl
drop_at-zero item (y ∷ ys) =
    rw (suc_sub_one (length (y ∷ ys))) (rw (get_last y ys) (ground (arith, take_last y ys)))

drop_at-suc :
    (p x : Str) (xs : List Str) (i : ℕ) → drop_at (p ∷ x ∷ xs) (suc i) ≡ p ∷ drop_at (x ∷ xs) i
unfolding drop_at
drop_at-suc p x xs i =
    rw (suc_sub_one (length (x ∷ xs)), suc_sub_one (length xs)) (ground (arith, get_last x xs))

drop_at-append :
    (pre : List Str) (item : Str) (rest : List Str)
    → drop_at (pre ++ item ∷ rest) (length pre) ≡ pre ++ after_drop rest
drop_at-append [] item rest = drop_at-zero item rest
drop_at-append (p ∷ []) item rest =
    drop_at-suc p item rest 0 ∙ ap (◌∷◌ p) (drop_at-append [] item rest)
drop_at-append (p ∷ q ∷ pre) item rest =
    drop_at-suc p q (pre ++ item ∷ rest) (suc (length pre))
    ∙ ap (◌∷◌ p) (drop_at-append (q ∷ pre) item rest)

get_here :
    (pre : List Str) (item : Str) (rest : List Str)
    → get_elem? (pre ++ item ∷ rest) (length pre) ≡ some item
get_here [] item rest = refl
get_here (p ∷ pre) item rest = get_here pre item rest

get_end : (pre : List Str) → get_elem? (pre ++ []) (length pre) ≡ none
get_end [] = refl
get_end (p ∷ pre) = get_end pre

get_past : (pre : List Str) → get_elem? (pre ++ []) (suc (length pre)) ≡ none
get_past [] = refl
get_past (p ∷ pre) = get_past pre

loop_past :
    (fuel : ℕ) (f : FlagSetMatcher) (seen pre : List Str)
    → sanitize_loop fuel f seen (pre ++ []) (length pre + 1) ≡ pre ++ []
unfolding sanitize_loop
loop_past zero f seen pre = refl
loop_past (suc fuel) f seen pre =
    let e : length pre + 1 ≡ suc (length pre) = omega arith in
    rw e (rw (get_past pre, sanitize_loop))

-- The loop over what is left of the input, without the index.
unfoldable pub scan : ℕ → FlagSetMatcher → List Str → List Str → List Str
unfolding after_drop
scan zero f seen rest = rest
scan (suc fuel) f seen [] = []
scan (suc fuel) f seen (item ∷ rest) =
    if is_dropped f seen item
    then elim (after_drop rest) [ [] ↦ [] | y ∷ ys ↦ y ∷ scan fuel f (item ∷ seen) ys ]
    else item ∷ scan fuel f (item ∷ seen) rest

abbrev pub Refines : ℕ → FlagSetMatcher → Type 0
Refines fuel f =
    (seen pre rest : List Str)
    → sanitize_loop fuel f seen (pre ++ rest) (length pre) ≡ pre ++ scan fuel f seen rest

loop_next :
    (fuel : ℕ) (f : FlagSetMatcher) (seen pre : List Str) (y : Str) (ys : List Str)
    → Refines fuel f
    → sanitize_loop fuel f seen (pre ++ y ∷ ys) (length pre + 1) ≡ pre ++ y ∷ scan fuel f seen ys
loop_next fuel f seen pre y ys h =
    let at = length-append pre (y ∷ []) in
    let assoc = append_assoc pre (y ∷ []) ys in
    let assoc' = append_assoc pre (y ∷ []) (scan fuel f seen ys) in
    let step = h seen (pre ++ y ∷ []) ys in cc (at, assoc, assoc', step)

pub loop-scan : (fuel : ℕ) (f : FlagSetMatcher) → Refines fuel f
unfolding sanitize_loop scan after_drop
loop-scan zero f seen pre rest = refl
loop-scan (suc fuel) f seen pre [] = rw (get_end pre, sanitize_loop)
loop-scan (suc fuel) f seen pre (item ∷ rest) =
    rw (get_here pre item rest, sanitize_loop)
      (elim (Bool-cases (is_dropped f seen item)) [
        | inr keep ↦ rw keep (loop_next fuel f (item ∷ seen) pre item rest (loop-scan fuel f))
        | inl drop ↦ rw drop (rw (drop_at-append pre item rest) (dropped rest (loop-scan fuel f)))
      ])
  where
    dropped :
        (rest : List Str)
        → Refines fuel f
        → sanitize_loop fuel f (item ∷ seen) (pre ++ after_drop rest) (length pre + 1)
          ≡ pre ++ elim (after_drop rest) [ [] ↦ [] | y ∷ ys ↦ y ∷ scan fuel f (item ∷ seen) ys ]
    dropped [] h = loop_past fuel f (item ∷ seen) pre
    dropped (y ∷ ys) h = loop_next fuel f (item ∷ seen) pre (last_or y ys) (init (y ∷ ys)) h
