-- ===== src/Snapshots/RoundTrip.antt =====
-- splitio/common/snapshot/snapshot.go: what is read back of a snapshot, and of one that was cut off.
use mathlib.Core.List.{append_assoc}
use split_synchronizer.Prelude.Str.{Str}
use split_synchronizer.Prelude.{
  ℕ, zero, suc, ◌+◌, ◌^◌, ◌≤◌, ◌<◌, true, false, Option, none, some, [], ◌∷◌, ◌++◌, length,
  length-append, take, drop, ltb, leb, ◌≡◌, refl, sym, ap, ◌∙◌, ◌⊎◌, inl, inr, Option-cases, arith,
}
use split_synchronizer.Snapshots.{
  SnapshotMetadata, Snapshot, decoded, decode_panicked, decode_failed, err_metadata_read,
  len_to_bytes, bytes_to_uint64, encode, decode_sized, decode,
}

bytes_to_uint64-len_to_bytes :
    (l : ℕ) (rest : Str) → l < 2 ^ 63 → bytes_to_uint64 (len_to_bytes l ++ rest) ≡ some l
unfolding bytes_to_uint64 len_to_bytes
bytes_to_uint64-len_to_bytes l rest h = ap some (omega arith)

take-length_append : (xs ys : Str) → take (length xs) (xs ++ ys) ≡ xs
take-length_append [] ys = refl
take-length_append (x ∷ xs) ys = ap (λ z. x ∷ z) (take-length_append xs ys)

drop-length_append : (xs ys : Str) → drop (length xs) (xs ++ ys) ≡ ys
drop-length_append [] ys = refl
drop-length_append (x ∷ xs) ys = drop-length_append xs ys

header-drop : (l : ℕ) (rest : Str) → drop 8 (len_to_bytes l ++ rest) ≡ rest
unfolding len_to_bytes
header-drop l rest = refl

length-header : (l : ℕ) (rest : Str) → length (len_to_bytes l ++ rest) ≡ 8 + length rest
unfolding len_to_bytes
length-header l rest = omega arith

ltb-false : (a b : ℕ) → b ≤ a → ltb a b ≡ false
ltb-false a b h = ground (arith, h)

drop_nil : (k : ℕ) → drop {A = ℕ} k [] ≡ []
drop_nil zero = refl
drop_nil (suc k) = refl

drop-more : (n k : ℕ) (xs : Str) → drop (n + k) xs ≡ drop k (drop n xs)
drop-more zero k xs = let e : 0 + k ≡ k = omega arith in ap (λ z. drop z xs) e
drop-more (suc n) k [] =
    let e : suc n + k ≡ suc (n + k) = omega arith in
    ap (λ z. drop {A = ℕ} z []) e ∙ sym (drop_nil k)
drop-more (suc n) k (x ∷ xs) =
    let e : suc n + k ≡ suc (n + k) = omega arith in ap (λ z. drop z (x ∷ xs)) e ∙ drop-more n k xs

module _ (bytes_to_metadata : Str → Option SnapshotMetadata) where
  decode-small :
      (spare snap : Str) (size : ℕ)
      → bytes_to_uint64 snap ≡ some size
      → size < 2 ^ 63
      → decode bytes_to_metadata spare snap ≡ decode_sized bytes_to_metadata spare snap size
  unfolding decode
  decode-small spare snap size e small =
      let fits : leb (2 ^ 63) size ≡ false = ground (arith, small) in rw (decode, e) (rw fits refl)

  short_sized :
      (spare snap : Str) (size : ℕ)
      → size ≤ length snap
      → length snap < size + 8
      → ((meta : SnapshotMetadata)
          → bytes_to_metadata (take size (drop 8 (snap ++ spare))) ≡ some meta
          → decode_sized bytes_to_metadata spare snap size ≡ decode_panicked)
        × (bytes_to_metadata (take size (drop 8 (snap ++ spare))) ≡ none
            → (decode_sized bytes_to_metadata spare snap size ≡ decode_panicked)
              ⊎ (decode_sized bytes_to_metadata spare snap size ≡ decode_failed err_metadata_read))
  unfolding decode_sized
  short_sized spare snap size l u =
      let held : ltb (length snap) size ≡ false = ground (arith, l) in
      let over : ltb (length snap) (size + 8) ≡ true = ground (arith, u) in
      (λ meta g. ground (arith, held, over, g), λ g. ground (arith, held, over, g))

  -- A file that is too short for its metadata, by at most the eight bytes of the header, is never
  -- refused for its size and never decoded, whatever stands behind the slice's length: Decode panics,
  -- or takes the metadata from behind the file's end and answers that it cannot be read.
  pub decode-short :
      (spare snap : Str) (size : ℕ)
      → bytes_to_uint64 snap ≡ some size
      → size < 2 ^ 63
      → size ≤ length snap
      → length snap < size + 8
      → (decode bytes_to_metadata spare snap ≡ decode_panicked)
        ⊎ (decode bytes_to_metadata spare snap ≡ decode_failed err_metadata_read)
  decode-short spare snap size e small l u =
      let (panics, fails) = short_sized spare snap size l u in
      elim (Option-cases (bytes_to_metadata (take size (drop 8 (snap ++ spare))))) [
        | inr (meta, g) ↦ inl (decode-small spare snap size e small ∙ panics meta g)
        | inl g ↦ elim (fails g) [
          | inl k ↦ inl (decode-small spare snap size e small ∙ k)
          | inr k ↦ inr (decode-small spare snap size e small ∙ k)
        ]
      ]

  decode_sized-whole :
      (spare metadata content : Str) (meta : SnapshotMetadata)
      → bytes_to_metadata metadata ≡ some meta
      → (let snap = len_to_bytes (length metadata) ++ (metadata ++ content) in
          decode_sized bytes_to_metadata spare snap (length metadata)
          ≡ decoded (record { meta = meta; content = content }))
  unfolding decode_sized
  decode_sized-whole spare metadata content meta g =
      let size = length metadata in
      let snap = len_to_bytes size ++ (metadata ++ content) in
      let long = length-header size (metadata ++ content) in
      let both = length-append metadata content in
      let held : ltb (length snap) size ≡ false =
        ltb-false (length snap) size (omega (arith, long, both)) in
      let within : ltb (length snap + length spare) (size + 8) ≡ false =
        ltb-false (length snap + length spare) (size + 8) (omega (arith, long, both)) in
      let whole : ltb (length snap) (size + 8) ≡ false =
        ltb-false (length snap) (size + 8) (omega (arith, long, both)) in
      let read : take size (drop 8 (snap ++ spare)) ≡ metadata =
        ap (λ z. take size (drop 8 z))
          (append_assoc (len_to_bytes size) (metadata ++ content) spare)
        ∙ ap (take size) (header-drop size ((metadata ++ content) ++ spare))
        ∙ ap (take size) (append_assoc metadata content spare)
        ∙ take-length_append metadata (content ++ spare) in
      let rest : drop (8 + size) snap ≡ content =
        drop-more 8 size snap
        ∙ ap (drop size) (header-drop size (metadata ++ content))
        ∙ drop-length_append metadata content in
      rw held (
        rw within
          (rw (read, g) (rw whole (ap (λ z. decoded (record { meta = meta; content = z })) rest))))

  -- A snapshot that was encoded is decoded as it was, whatever stands behind the slice's length, where
  -- gob reads back the metadata that it wrote, in fewer than 2 ^ 63 bytes.
  pub decode-encode :
      (meta_to_bytes : SnapshotMetadata → Option Str) (s : Snapshot) (metadata snap spare : Str)
      → meta_to_bytes s.meta ≡ some metadata
      → bytes_to_metadata metadata ≡ some s.meta
      → length metadata < 2 ^ 63
      → encode meta_to_bytes s ≡ some snap
      → decode bytes_to_metadata spare snap ≡ decoded s
  unfolding encode
  decode-encode meta_to_bytes s metadata snap spare w g small e =
      let written : encode meta_to_bytes s
          ≡ some (len_to_bytes (length metadata) ++ metadata ++ s.content) =
        rw (encode, w) refl in
      let same : len_to_bytes (length metadata) ++ metadata ++ s.content ≡ snap = cc in
      let laid : snap ≡ len_to_bytes (length metadata) ++ (metadata ++ s.content) =
        sym same ∙ append_assoc (len_to_bytes (length metadata)) metadata s.content in
      ap (decode bytes_to_metadata spare) laid
      ∙ decode-small spare (len_to_bytes (length metadata) ++ (metadata ++ s.content))
          (length metadata)
          (bytes_to_uint64-len_to_bytes (length metadata) (metadata ++ s.content) small) small
      ∙ decode_sized-whole spare metadata s.content s.meta g
