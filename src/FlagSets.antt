-- ===== src/FlagSets.antt =====
-- splitio/proxy/flagsets/flagsets.go: the flag sets that a client asks for, filtered, without
-- duplicates and sorted.
pub mod Laws
pub mod Sanitize
use split_synchronizer.Prelude.Keys.{contains}
use split_synchronizer.Prelude.Sorting.{sort_slice}
use split_synchronizer.Prelude.Str.{Str, str_lt, str_eq}
use split_synchronizer.Prelude.{
  ℕ, zero, suc, ◌+◌, ◌-◌, Bool, true, false, not, ◌&&◌, ◌||◌, Option, none, some, List, [], ◌∷◌,
  if◌then◌else◌, length, get_elem?, set, take, ltb,
}

-- The set of the matcher as a slice: only membership counts.
pub record FlagSetMatcher : Type 0 where
  pub strict : Bool
  pub sets : List Str

unfoldable pub new_matcher : Bool → List Str → FlagSetMatcher
new_matcher strict fetched = record { strict = strict; sets = fetched }

-- The test under which an item is dropped; `seen` holds the items met so far.
unfoldable pub is_dropped : FlagSetMatcher → List Str → Str → Bool
unfolding contains
is_dropped f seen item = (f.strict && not (contains item f.sets)) || contains item seen

-- `if idx+1 < len(input) { input[idx] = input[len(input)-1] }; input = input[:len(input)-1]`
unfoldable pub drop_at : List Str → ℕ → List Str
drop_at input idx =
    let last = length input - 1 in
    take last (
      if ltb (idx + 1) (length input)
      then elim (get_elem? input last) [ none ↦ input | some x ↦ set input idx x ]
      else input)

-- The loop. The index goes up after an item is dropped too, so that the item that took its place is
-- not looked at. Each round raises the index, so that the length of the input is enough fuel.
unfoldable pub sanitize_loop : ℕ → FlagSetMatcher → List Str → List Str → ℕ → List Str
unfolding is_dropped drop_at
sanitize_loop zero f seen input idx = input
sanitize_loop (suc fuel) f seen input idx = elim (get_elem? input idx) [
  | none ↦ input
  | some item ↦
      sanitize_loop fuel f (item ∷ seen)
        (if is_dropped f seen item then drop_at input idx else input) (idx + 1)
]

-- `Sanitize`
unfoldable pub sanitize : FlagSetMatcher → List Str → List Str
unfolding sanitize_loop sort_slice
sanitize f [] = []
sanitize f (x ∷ input) = sort_slice str_lt (sanitize_loop (length (x ∷ input)) f [] (x ∷ input) 0)
