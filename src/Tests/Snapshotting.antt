-- ===== src/Tests/Snapshotting.antt =====
-- A snapshot written and read back, and one that was cut off.
use split_synchronizer.Prelude.Str.{Str, str}
use split_synchronizer.Prelude.{Option, none, some, [], ◌∷◌, ◌++◌, ◌≡◌, refl, ◌⊎◌, arith}
use split_synchronizer.Snapshots.RoundTrip.{decode-encode, decode-short}
use split_synchronizer.Snapshots.{
  SnapshotMetadata, Snapshot, decoded, decode_panicked, decode_failed, err_metadata_read,
  len_to_bytes, bytes_to_uint64, encode, decode,
}

abbrev written_as : SnapshotMetadata → Option Str
written_as meta = some (meta.version ∷ meta.storage ∷ meta.hash)

abbrev read_as : Str → Option SnapshotMetadata
read_as (v ∷ s ∷ h) = some (record { version = v; storage = s; hash = h })
read_as _ = none

abbrev small : Snapshot
small = record { meta = record { version = 1; storage = 2; hash = str "h" }; content = str "data" }

abbrev bytes : Str
bytes = 3 ∷ 0 ∷ 0 ∷ 0 ∷ 0 ∷ 0 ∷ 0 ∷ 0 ∷ (1 ∷ 2 ∷ str "h") ++ str "data"

encoded : encode written_as small ≡ some bytes
unfolding encode len_to_bytes
encoded = refl

decode-encode_example : decode read_as (str "x") bytes ≡ decoded small
decode-encode_example =
    decode-encode read_as written_as small (1 ∷ 2 ∷ str "h") bytes (str "x") refl refl (omega arith)
      encoded

abbrev cut : Str
cut = 2 ∷ 0 ∷ 0 ∷ 0 ∷ 0 ∷ 0 ∷ 0 ∷ 0 ∷ 7 ∷ []

cut_size : bytes_to_uint64 cut ≡ some 2
unfolding bytes_to_uint64
cut_size = refl

decode-short_example :
    (decode read_as (9 ∷ 9 ∷ []) cut ≡ decode_panicked)
    ⊎ (decode read_as (9 ∷ 9 ∷ []) cut ≡ decode_failed err_metadata_read)
decode-short_example =
    decode-short read_as (9 ∷ 9 ∷ []) cut 2 cut_size (omega arith) (omega arith) (omega arith)
