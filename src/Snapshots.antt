-- ===== src/Snapshots.antt =====
-- splitio/common/snapshot/snapshot.go: the layout of a snapshot file. gob and gzip are outside of the
-- repository: parameters. A slice may have bytes behind its length, up to its capacity (`spare`),
-- which a slice expression can reach. The files themselves are I/O.
pub mod RoundTrip
use split_synchronizer.Prelude.Str.{Str}
use split_synchronizer.Prelude.{
  ℕ, suc, ◌+◌, ◌*◌, ◌/◌, ◌%◌, ◌^◌, Bool, true, false, Option, none, some, List, [], ◌∷◌, ◌++◌,
  if◌then◌else◌, length, take, drop, ltb, leb,
}

pub record SnapshotMetadata : Type 0 where
  pub version : ℕ
  pub storage : ℕ
  pub hash : Str

pub record Snapshot : Type 0 where
  pub meta : SnapshotMetadata
  pub content : Str

pub data SnapshotError : Type 0 where
  err_enc_metadata : SnapshotError
  err_snapshot_size : SnapshotError
  err_metadata_read : SnapshotError

pub data Decoded : Type 0 where
  decoded : Snapshot → Decoded
  decode_failed : SnapshotError → Decoded
  decode_panicked : Decoded

-- `New` and `Data`, the latter none where it gives an error.
abbrev pub new_snapshot : (Str → Str) → SnapshotMetadata → Str → Snapshot
new_snapshot compress meta content = record { meta = meta; content = compress content }

abbrev pub snapshot_data : (Str → Option Str) → Snapshot → Option Str
snapshot_data decompress s = decompress s.content

-- `lenToBytes`: eight bytes, the least significant first.
unfoldable pub len_to_bytes : ℕ → Str
len_to_bytes l =
    (l % 256)
    ∷ (l / 2 ^ 8 % 256)
    ∷ (l / 2 ^ 16 % 256)
    ∷ (l / 2 ^ 24 % 256)
    ∷ (l / 2 ^ 32 % 256)
    ∷ (l / 2 ^ 40 % 256)
    ∷ (l / 2 ^ 48 % 256)
    ∷ (l / 2 ^ 56 % 256)
    ∷ []

-- `bytesToUint64` of the first eight bytes; none where there are fewer.
unfoldable pub bytes_to_uint64 : Str → Option ℕ
bytes_to_uint64 (a ∷ b ∷ c ∷ d ∷ e ∷ f ∷ g ∷ h ∷ rest) =
    some
      (a + b * 2 ^ 8 + c * 2 ^ 16 + d * 2 ^ 24 + e * 2 ^ 32 + f * 2 ^ 40 + g * 2 ^ 48 + h * 2 ^ 56)
bytes_to_uint64 _ = none

-- `Encode`: none for its error.
unfoldable pub encode : (SnapshotMetadata → Option Str) → Snapshot → Option Str
unfolding len_to_bytes
encode meta_to_bytes s = elim (meta_to_bytes s.meta) [
  | none ↦ none
  | some meta_bytes ↦ some (len_to_bytes (length meta_bytes) ++ meta_bytes ++ s.content)
]

-- What follows the header, for a metadata size that fits an int: `snap[8 : size+8]` reaches to the
-- capacity, `snap[8+size:]` to the length.
unfoldable pub decode_sized : (Str → Option SnapshotMetadata) → Str → Str → ℕ → Decoded
decode_sized bytes_to_metadata spare snap size =
    if ltb (length snap) size
    then decode_failed err_snapshot_size
    else if ltb (length snap + length spare) (size + 8)
    then decode_panicked
    else elim (bytes_to_metadata (take size (drop 8 (snap ++ spare)))) [
      | none ↦ decode_failed err_metadata_read
      | some meta ↦
          if ltb (length snap) (size + 8)
          then decode_panicked
          else decoded (record { meta = meta; content = drop (8 + size) snap })
    ]

-- `Decode`: a size of 2 ^ 63 or more is a negative int, under which the slice expression panics.
unfoldable pub decode : (Str → Option SnapshotMetadata) → Str → Str → Decoded
unfolding bytes_to_uint64 decode_sized
decode bytes_to_metadata spare snap = elim (bytes_to_uint64 snap) [
  | none ↦ decode_failed err_snapshot_size
  | some size ↦
      if leb (2 ^ 63) size then decode_panicked else decode_sized bytes_to_metadata spare snap size
]
