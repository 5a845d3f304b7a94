-- ===== src/Storage/Segments/Changes.antt =====
-- What `ChangesSince` reports of each key of a stored segment.
use split_synchronizer.Persistent.Segments.{SegmentKey}
use split_synchronizer.Prelude.GoMap.{GoMap, lookup}
use split_synchronizer.Prelude.Keys.{contains, contains-append}
use split_synchronizer.Prelude.Str.{Str, str_eq, str_beq_iff}
use split_synchronizer.Prelude.{
  Bool, true, false, not, ◌&&◌, ◌||◌, Option, none, some, [], ◌∷◌, if◌then◌else◌, ◌==◌, ◌≡◌, refl,
  arith, ℤ, pos, ltb_ℤ, ◌≤ℤ◌,
}
use split_synchronizer.Storage.Segments.{SegmentChangesDto, collect_key, collect}

-- Whether a key is reported at all, and where.
abbrev pub is_reported : ℤ → SegmentKey → Bool
is_reported since k = ltb_ℤ since k.change_number && not (k.removed && ltb_ℤ since (pos 0))

abbrev pub is_added : ℤ → Option SegmentKey → Bool
is_added since none = false
is_added since (some k) = is_reported since k && not k.removed

abbrev pub is_removed : ℤ → Option SegmentKey → Bool
is_removed since none = false
is_removed since (some k) = is_reported since k && k.removed

-- Each entry stands under its own name, once.
abbrev pub IsKeyed : GoMap Str SegmentKey → Type 0
IsKeyed [] = Unit
IsKeyed ((n, k) ∷ m) = (n ≡ k.name) × (lookup n m ≡ none) × IsKeyed m

module _ (since : ℤ) where
  added_key :
      (k : SegmentKey) (dto : SegmentChangesDto) (n : Str)
      → contains n (collect_key since k dto).added
        ≡ (contains n dto.added || (n == k.name && is_added since (some k)))
  unfolding collect_key contains
  added_key k dto n = ground (arith, contains-append n dto.added (k.name ∷ []))

  removed_key :
      (k : SegmentKey) (dto : SegmentChangesDto) (n : Str)
      → contains n (collect_key since k dto).removed
        ≡ (contains n dto.removed || (n == k.name && is_removed since (some k)))
  unfolding collect_key contains
  removed_key k dto n = ground (arith, contains-append n dto.removed (k.name ∷ []))

  pub collect-added :
      (m : GoMap Str SegmentKey) (dto : SegmentChangesDto) (n : Str)
      → IsKeyed m
      → contains n (collect since m dto).added
        ≡ (contains n dto.added || is_added since (lookup n m))
  unfolding collect lookup
  collect-added [] dto n v = ground arith
  collect-added ((j, k) ∷ m) dto n v = ground (
    arith,
    collect-added m (collect_key since k dto) n v.2,
    added_key k dto n,
    str_beq_iff j n,
    str_beq_iff n k.name,
  )

  pub collect-removed :
      (m : GoMap Str SegmentKey) (dto : SegmentChangesDto) (n : Str)
      → IsKeyed m
      → contains n (collect since m dto).removed
        ≡ (contains n dto.removed || is_removed since (lookup n m))
  unfolding collect lookup
  collect-removed [] dto n v = ground arith
  collect-removed ((j, k) ∷ m) dto n v = ground (
    arith,
    collect-removed m (collect_key since k dto) n v.2,
    removed_key k dto n,
    str_beq_iff j n,
    str_beq_iff n k.name,
  )

  -- The latest change that is reported, and `till` if there is none later.
  abbrev pub latest : GoMap Str SegmentKey → ℤ → ℤ
  latest [] till = till
  latest ((_, k) ∷ m) till =
      latest m (if is_reported since k && ltb_ℤ till k.change_number then k.change_number else till)

  pub collect-till :
      (m : GoMap Str SegmentKey) (dto : SegmentChangesDto)
      → (collect since m dto).till ≡ latest m dto.till
  unfolding collect collect_key
  collect-till [] dto = refl
  collect-till ((j, k) ∷ m) dto = ground (arith, collect-till m (collect_key since k dto))

  latest-ge : (m : GoMap Str SegmentKey) (till : ℤ) → till ≤ℤ latest m till
  latest-ge [] till = omega arith
  latest-ge ((j, k) ∷ m) till = ground (
    arith,
    latest-ge m
        (if is_reported since k && ltb_ℤ till k.change_number then k.change_number else till),
  )

  -- `till` is not before any change that is reported.
  pub latest-bounds :
      (m : GoMap Str SegmentKey) (till : ℤ) (n : Str) (k : SegmentKey)
      → lookup n m ≡ some k
      → is_reported since k ≡ true
      → k.change_number ≤ℤ latest m till
  unfolding lookup
  latest-bounds [] till n k e r = cc
  latest-bounds ((j, i) ∷ m) till n k e r =
      let next : ℤ =
        if is_reported since i && ltb_ℤ till i.change_number then i.change_number else till in
      ground (arith, latest-bounds m next n k, latest-ge m next)
