-- ===== src/Observability/SegmentTracker.antt =====
-- splitio/provisional/observability/segment_wrapper.go, `ActiveSegmentTracker`: the number of keys of
-- each segment in use. The counts in the map are positive, and the numbers added and removed are
-- sizes, so that natural numbers serve for Go's int.
use split_synchronizer.Prelude.GoMap.{GoMap, lookup, store, delete, lookup-store, lookup-delete}
use split_synchronizer.Prelude.Str.{Str, str_eq, str_beq_iff}
use split_synchronizer.Prelude.{
  ℕ, ◌+◌, ◌-◌, ◌<◌, Option, none, some, if◌then◌else◌, leb, ◌==◌, ◌≡◌, arith,
}

abbrev pub ActiveSegments : Type 0
ActiveSegments = GoMap Str ℕ

-- The zero value that a missing key reads as.
abbrev pub count_or_zero : Option ℕ → ℕ
count_or_zero none = 0
count_or_zero (some n) = n

unfoldable pub update : ActiveSegments → Str → ℕ → ℕ → ActiveSegments
unfolding lookup store delete
update m name added removed =
    let current = count_or_zero (lookup name m) in
    if leb (current + added) removed
    then delete name m
    else store name (current + added - removed) m

-- `NamesAndCount`: a copy of the map.
abbrev pub names_and_count : ActiveSegments → GoMap Str ℕ
names_and_count m = m

-- The count of a segment after an update, with a missing entry read as zero.
abbrev pub count_of : ActiveSegments → Str → ℕ
count_of m name = count_or_zero (lookup name m)

-- Every count that is listed is positive.
abbrev pub IsPositive : ActiveSegments → Type 0
IsPositive m = (name : Str) (n : ℕ) → lookup name m ≡ some n → 0 < n

-- An update moves the count of its own segment by the difference, down to zero at the least, and
-- leaves the other segments alone.
pub count_of-update :
    (m : ActiveSegments) (name other : Str) (added removed : ℕ)
    → count_of (update m name added removed) other
      ≡ (if name == other then count_of m other + added - removed else count_of m other)
unfolding update
count_of-update m name other added removed = ground (
  arith,
  lookup-store name other (count_of m name + added - removed) m,
  lookup-delete name other m,
  str_beq_iff name other,
)

-- A segment with no key left is dropped, so that all counts listed stay positive.
pub update-IsPositive :
    (m : ActiveSegments) (name : Str) (added removed : ℕ)
    → IsPositive m
    → IsPositive (update m name added removed)
unfolding update
update-IsPositive m name added removed h other n e = ground (
  arith,
  lookup-store name other (count_of m name + added - removed) m,
  lookup-delete name other m,
  h other n,
)
