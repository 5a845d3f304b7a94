-- ===== src/Health/ByPercentage/Sliding.antt =====
-- A list of the latest answers, as many as there is room for.
use split_synchronizer.Health.ByPercentage.{remove_front}
use split_synchronizer.Prelude.Sliding.{last_n, length-last_n, last_n-snoc_full, last_n-snoc_room}
use split_synchronizer.Prelude.{
  ℕ, ◌<◌, List, [], ◌∷◌, ◌++◌, if◌then◌else◌, length, drop, ℤ, nat_beq, ◌≡◌, refl, arith,
}

-- The last `n` of a list.
abbrev pub last_codes : ℕ → List ℤ → List ℤ
last_codes n codes = last_n n codes

remove_front-drop : (xs : List ℤ) → remove_front xs ≡ drop 1 xs
remove_front-drop [] = refl
remove_front-drop (x ∷ xs) = refl

pub moved_on :
    (n : ℕ) (past : List ℤ) (code : ℤ)
    → 0 < n
    → (if nat_beq (length (last_codes n past)) n
          then remove_front (last_codes n past)
          else last_codes n past)
        ++ code ∷ []
      ≡ last_codes n (past ++ code ∷ [])
moved_on n past code p = ground (
  arith,
  length-last_n n past,
  remove_front-drop (last_codes n past),
  last_n-snoc_full n past code,
  last_n-snoc_room n past code,
)
