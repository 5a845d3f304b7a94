-- ===== src/Prelude/Str.antt =====
-- Go strings: lists of bytes, with the order of `strings.Compare`.
use Prim.Native.Char.{code}
use Prim.Native.Nat.{ℕ, compare, Ordering}
use Prim.Native.String.{String}
use mathlib.Core.Bool.{Bool, true, false}
use mathlib.Core.List.{List, [], ◌∷◌}
use mathlib.Core.Logic.{◌↔◌}
use mathlib.Core.Path.{◌≡◌, refl}
use native.Mathlib.Omega.{arith}
use split_synchronizer.Prelude.Keys.{Eq}

abbrev pub Str : Type 0
Str = List ℕ

-- The bytes of an ASCII literal.
abbrev pub str : String → Str
str String.[] = []
str (String.◌∷◌ c s) = code c ∷ str s

-- `strings.Compare`.
unfoldable pub str_compare : Str → Str → Ordering
str_compare [] [] = Ordering.eq
str_compare [] (y ∷ ys) = Ordering.lt
str_compare (x ∷ xs) [] = Ordering.gt
str_compare (x ∷ xs) (y ∷ ys) = elim (compare x y) [
  | Ordering.lt ↦ Ordering.lt
  | Ordering.gt ↦ Ordering.gt
  | Ordering.eq ↦ str_compare xs ys
]

abbrev pub str_beq : Str → Str → Bool
str_beq a b = elim (str_compare a b) [ Ordering.eq ↦ true | _ ↦ false ]

abbrev pub str_lt : Str → Str → Bool
str_lt a b = elim (str_compare a b) [ Ordering.lt ↦ true | _ ↦ false ]

pub str_compare_refl : (a : Str) → str_compare a a ≡ Ordering.eq
unfolding str_compare
str_compare_refl [] = refl
str_compare_refl (x ∷ xs) = ground (arith, str_compare_refl xs)

pub str_compare_eq : (a b : Str) → str_compare a b ≡ Ordering.eq → a ≡ b
unfolding str_compare
str_compare_eq [] [] h = refl
str_compare_eq [] (y ∷ ys) h = ground arith
str_compare_eq (x ∷ xs) [] h = ground arith
str_compare_eq (x ∷ xs) (y ∷ ys) h = ground (arith, str_compare_eq xs ys)

pub str_compare_flip :
    (a b : Str) → (str_compare a b ≡ Ordering.lt) ↔ (str_compare b a ≡ Ordering.gt)
unfolding str_compare
str_compare_flip [] [] = ground arith
str_compare_flip [] (y ∷ ys) = ground arith
str_compare_flip (x ∷ xs) [] = ground arith
str_compare_flip (x ∷ xs) (y ∷ ys) = ground (arith, str_compare_flip xs ys)

pub str_compare_trans :
    (a b c : Str)
    → str_compare a b ≡ Ordering.lt
    → str_compare b c ≡ Ordering.lt
    → str_compare a c ≡ Ordering.lt
unfolding str_compare
str_compare_trans [] [] c h k = ground arith
str_compare_trans [] (y ∷ ys) [] h k = ground arith
str_compare_trans [] (y ∷ ys) (z ∷ zs) h k = refl
str_compare_trans (x ∷ xs) [] c h k = ground arith
str_compare_trans (x ∷ xs) (y ∷ ys) [] h k = ground arith
str_compare_trans (x ∷ xs) (y ∷ ys) (z ∷ zs) h k = ground (arith, str_compare_trans xs ys zs)

pub str_beq_iff : (a b : Str) → (str_beq a b ≡ true) ↔ (a ≡ b)
str_beq_iff a b = ground (arith, str_compare_eq a b, str_compare_refl a)

instance abbrev pub str_eq : Eq Str
str_eq = record { same = str_beq; same_iff = str_beq_iff }

pub str_lt_irrefl : (a : Str) → str_lt a a ≡ false
str_lt_irrefl a = ground (arith, str_compare_refl a)

pub str_lt_asym : (a b : Str) → str_lt a b ≡ true → str_lt b a ≡ false
str_lt_asym a b h = ground (arith, str_compare_flip a b)

pub str_lt_weak : (a b c : Str) → str_lt b a ≡ false → str_lt c b ≡ false → str_lt c a ≡ false
str_lt_weak a b c h k = ground (
  arith,
  str_compare_flip a b,
  str_compare_flip b c,
  str_compare_eq b a,
  str_compare_eq c b,
  str_compare_trans c a b,
  str_compare_refl b,
)
