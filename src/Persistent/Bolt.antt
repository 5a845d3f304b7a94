-- ===== src/Persistent/Bolt.antt =====
-- splitio/proxy/storage/persistent/boltdb.go and helpers.go: one collection, a bucket of the bolt
-- database. Bolt is not part of the repository: `accepts` stands for its answer to a `Put` with its
-- commit, which it may refuse (a blank key, a value that is too large, a full disk); a transaction
-- that fails is rolled back. The items are encoded by gob, outside of this file.
pub mod Laws
use split_synchronizer.Prelude.GoMap.{GoMap, lookup, store, delete}
use split_synchronizer.Prelude.Sorting.{sort_slice}
use split_synchronizer.Prelude.Str.{Str, str_lt, str_eq}
use split_synchronizer.Prelude.{
  ℕ, suc, ◌+◌, ◌*◌, ◌/◌, ◌%◌, ◌^◌, Bool, true, false, Option, none, some, List, [], ◌∷◌, map,
  if◌then◌else◌, nat_beq,
}

pub data DbError : Type 0 where
  bucket_not_found key_not_found put_failed invalid_id : DbError

pub data Result {ℓ} (A : Type ℓ) : Type ℓ where
  ok : A → Result A
  err : DbError → Result A

-- The bucket, if it was created, and its sequence.
pub record Collection : Type 0 where
  pub bucket : Option (GoMap Str Str)
  pub sequence : ℕ

abbrev pub new_collection : Collection
new_collection = record { bucket = none; sequence = 0 }

-- `itob`: eight bytes, the most significant first.
unfoldable pub itob : ℕ → Str
itob v =
    (v / 2 ^ 56 % 256)
    ∷ (v / 2 ^ 48 % 256)
    ∷ (v / 2 ^ 40 % 256)
    ∷ (v / 2 ^ 32 % 256)
    ∷ (v / 2 ^ 24 % 256)
    ∷ (v / 2 ^ 16 % 256)
    ∷ (v / 2 ^ 8 % 256)
    ∷ (v % 256)
    ∷ []

-- `btoi`, on eight bytes or more; on fewer the code panics.
unfoldable pub btoi : Str → Option ℕ
btoi (a ∷ b ∷ c ∷ d ∷ e ∷ f ∷ g ∷ h ∷ rest) =
    some
      (a * 2 ^ 56 + b * 2 ^ 48 + c * 2 ^ 40 + d * 2 ^ 32 + e * 2 ^ 24 + f * 2 ^ 16 + g * 2 ^ 8 + h)
btoi _ = none

-- `CreateBucketIfNotExists`
unfoldable pub bucket_or_new : Collection → GoMap Str Str
bucket_or_new c = elim c.bucket [ none ↦ [] | some b ↦ b ]

unfoldable pub delete_key : Collection → Str → Collection
unfolding bucket_or_new delete
delete_key c key = record c { bucket = some (delete key (bucket_or_new c)) }

-- A read of one key.
unfoldable pub fetch_by : Collection → Str → Result Str
unfolding lookup
fetch_by c key = elim c.bucket [
  | none ↦ err bucket_not_found
  | some b ↦ elim (lookup key b) [ none ↦ err key_not_found | some v ↦ ok v ]
]

unfoldable pub fetch : Collection → ℕ → Result Str
unfolding fetch_by itob
fetch c id = fetch_by c (itob id)

-- The cursor goes through the bucket in the order of the keys.
unfoldable pub fetch_all : Collection → Result (List Str)
unfolding sort_slice
fetch_all c = elim c.bucket [
  | none ↦ err bucket_not_found
  | some b ↦ ok (map (λ e. e.1) (sort_slice (λ e f. str_lt e.0 f.0) b))
]

module _ (accepts : Str → Str → Bool) where
  unfoldable pub save_as : Collection → Str → Str → Collection × Option DbError
  unfolding bucket_or_new store
  save_as c key value =
      if accepts key value
      then (record c { bucket = some (store key value (bucket_or_new c)) }, none)
      else (c, some put_failed)

  -- `Save`: `encode` is the item's encoding once its id is set.
  unfoldable pub save : Collection → (ℕ → Str) → Collection × Result ℕ
  unfolding bucket_or_new store itob
  save c encode =
      let id = suc c.sequence in
      if accepts (itob id) (encode id)
      then (
        record { bucket = some (store (itob id) (encode id) (bucket_or_new c)); sequence = id },
        ok id,
      )
      else (c, err put_failed)

  -- `Update`, of the item with this id and encoding.
  unfoldable pub update : Collection → ℕ → Str → Collection × Option DbError
  unfolding save_as itob
  update c id value = if nat_beq id 0 then (c, some invalid_id) else save_as c (itob id) value
