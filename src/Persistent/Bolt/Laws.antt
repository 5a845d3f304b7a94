-- ===== src/Persistent/Bolt/Laws.antt =====
-- The collection as a map on disk, and the keys of its numbered items.
use split_synchronizer.Persistent.Bolt.{
  put_failed, key_not_found, Result, ok, err, Collection, itob, btoi, bucket_or_new, fetch_by,
  fetch, save_as, save,
}
use split_synchronizer.Prelude.GoMap.{lookup, lookup-store}
use split_synchronizer.Prelude.Str.{Str, str_eq, str_beq_iff}
use split_synchronizer.Prelude.{
  ℕ, suc, ◌^◌, ◌<◌, Bool, true, Option, none, some, if◌then◌else◌, ◌==◌, nat_beq, ◌≡◌, arith, sym,
  ap, ◌∙◌,
}

-- Reading back the eight bytes of a number below 2 ^ 64 gives the number.
pub btoi-itob : (v : ℕ) → v < 2 ^ 64 → btoi (itob v) ≡ some v
unfolding btoi itob
btoi-itob v h = ap some (omega arith)

some_injective : {a b : ℕ} → some a ≡ some b → a ≡ b
some_injective h = cc

pub itob-injective : (v w : ℕ) → v < 2 ^ 64 → w < 2 ^ 64 → itob v ≡ itob w → v ≡ w
itob-injective v w hv hw e = some_injective (sym (btoi-itob v hv) ∙ ap btoi e ∙ btoi-itob w hw)

abbrev pub ok_or_missing : Option Str → Result Str
ok_or_missing none = err key_not_found
ok_or_missing (some v) = ok v

module _ (accepts : Str → Str → Bool) where
  -- A write that bolt takes is read back, and no other key is touched; one that it refuses changes
  -- nothing and is reported.
  pub fetch_by-save_as :
      (c : Collection) (key value j : Str)
      → ((save_as accepts c key value).1 ≡ (if accepts key value then none else some put_failed))
        × (fetch_by (save_as accepts c key value).0 j ≡ (
            if accepts key value
            then (if key == j then ok value else ok_or_missing (lookup j (bucket_or_new c)))
            else fetch_by c j))
  unfolding save_as fetch_by
  fetch_by-save_as c key value j =
      (ground arith, ground (arith, lookup-store key j value (bucket_or_new c)))

  -- If bolt takes it, a new item gets the next number of the sequence; while the numbers fit in 64 bits,
  -- it is read back under it, and the item under any other number stays what it was.
  pub fetch-save :
      (c : Collection) (encode : ℕ → Str) (j : ℕ)
      → suc c.sequence < 2 ^ 64
      → j < 2 ^ 64
      → accepts (itob (suc c.sequence)) (encode (suc c.sequence)) ≡ true
      → ((save accepts c encode).1 ≡ ok (suc c.sequence))
        × ((save accepts c encode).0.sequence ≡ suc c.sequence)
        × (fetch (save accepts c encode).0 j ≡ (
            if nat_beq (suc c.sequence) j
            then ok (encode j)
            else ok_or_missing (lookup (itob j) (bucket_or_new c))))
  unfolding save fetch_by fetch
  fetch-save c encode j small hj t = (
    rw t,
    rw t,
    rw t (
        ground (
          arith,
          lookup-store (itob (suc c.sequence)) (itob j) (encode (suc c.sequence)) (bucket_or_new c),
          str_beq_iff (itob (suc c.sequence)) (itob j),
          itob-injective (suc c.sequence) j small hj,
        )),
  )
