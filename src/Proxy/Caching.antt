-- ===== src/Proxy/Caching.antt =====
-- splitio/proxy/caching/caching.go and workers.go: the keys under which responses are cached, and what
-- each synchronization evicts. The cache itself (gincache), the wrapped synchronizers and the storages
-- whose change numbers are read are outside of these files: the cache is an interface with its laws,
-- the rest are functions on a state `W`. A synchronizer that answers nil makes the caller panic.
pub mod Keys
pub mod Fresh
pub mod Synced
use split_synchronizer.Prelude.GoMap.{GoMap, lookup, store}
use split_synchronizer.Prelude.Str.{Str, str, str_eq}
use split_synchronizer.Prelude.{
  ℕ, Bool, true, false, not, ◌&&◌, ◌||◌, Option, none, some, List, [], ◌∷◌, ◌++◌, if◌then◌else◌,
  ◌==◌, ℤ, pos, minus_one, ltb_ℤ, int_eq, nat_eq, ◌≡◌,
}

abbrev pub split_surrogate : Str
split_surrogate = str "sp"

abbrev pub memberships_surrogate : Str
memberships_surrogate = str "mem"

abbrev pub segment_prefix : Str
segment_prefix = str "se::"

-- `MakeSurrogateForSegmentChanges`, `MakeMySegmentsEntries`
abbrev pub make_surrogate_for_segment_changes : Str → Str
make_surrogate_for_segment_changes segment_name = segment_prefix ++ segment_name

abbrev pub make_my_segments_entries : Str → List Str
make_my_segments_entries key =
    (str "/api/mySegments/" ++ key) ∷ (str "gzip::/api/mySegments/" ++ key) ∷ []

-- The parts of a request that `keyFactoryFN` reads.
pub record Request : Type 0 where
  pub accept_encoding : Str
  pub path : Str
  pub raw_query : Str

-- `strings.HasPrefix` and `strings.Contains`, the argument of the search first.
unfoldable pub has_prefix : Str → Str → Bool
has_prefix [] s = true
has_prefix (p ∷ ps) [] = false
has_prefix (p ∷ ps) (x ∷ xs) = p == x && has_prefix ps xs

unfoldable pub contains_str : Str → Str → Bool
unfolding has_prefix
contains_str sub [] = has_prefix sub []
contains_str sub (x ∷ xs) = has_prefix sub (x ∷ xs) || contains_str sub xs

unfoldable pub encoding_prefix : Request → Str
unfolding contains_str
encoding_prefix r = if contains_str (str "gzip") r.accept_encoding then str "gzip::" else []

unfoldable pub is_auth : Request → Bool
unfolding has_prefix
is_auth r = has_prefix (str "/api/auth") r.path || has_prefix (str "/api/v2/auth") r.path

-- `keyFactoryFN`
unfoldable pub key_factory : Request → Str
unfolding encoding_prefix is_auth
key_factory r =
    if is_auth r then encoding_prefix r ++ r.path else encoding_prefix r ++ r.path ++ r.raw_query

-- `gincache.CacheFlusher`, with what the cache answers for a key and the surrogates of its entries.
-- An eviction drops its entries, and neither caches nor tags anything.
pub record CacheFlusher (C : Type 0) : Type 0 where
  pub evict : Str → C → C
  pub evict_by_surrogate : Str → C → C
  pub holds : Str → C → Bool
  pub tagged : Str → Str → C → Bool
  pub evicted : (key : Str) (c : C) → holds key (evict key c) ≡ false
  pub evicted_by_surrogate :
      (surrogate key : Str) (c : C)
      → tagged surrogate key (evict_by_surrogate surrogate c) ≡ true
      → holds key (evict_by_surrogate surrogate c) ≡ false
  pub evict_adds_none :
      (other key : Str) (c : C) → holds key c ≡ false → holds key (evict other c) ≡ false
  pub surrogate_adds_none :
      (surrogate key : Str) (c : C)
      → holds key c ≡ false
      → holds key (evict_by_surrogate surrogate c) ≡ false
  pub evict_tags_none :
      (other surrogate key : Str) (c : C)
      → tagged surrogate key (evict other c) ≡ true
      → tagged surrogate key c ≡ true
  pub surrogate_tags_none :
      (other surrogate key : Str) (c : C)
      → tagged surrogate key (evict_by_surrogate other c) ≡ true
      → tagged surrogate key c ≡ true

-- `segment.UpdateResult`, as far as it is read.
pub record SegmentResult : Type 0 where
  pub new_change_number : ℤ
  pub updated_keys : List Str

-- A change number that grew, or that was there and is gone.
abbrev pub changed : ℤ → ℤ → Bool
changed previous current =
    ltb_ℤ previous current || (not (previous == minus_one) && current == minus_one)

-- The condition of `SynchronizeSegments`, whose map answers zero for a segment it does not have.
abbrev pub changed_or_removed : ℤ → ℤ → Bool
changed_or_removed previous current =
    ltb_ℤ previous current || (ltb_ℤ (pos 0) previous && current == minus_one)

abbrev pub number_or_zero : Str → GoMap Str ℤ → ℤ
number_or_zero name cns = elim (lookup name cns) [ none ↦ pos 0 | some cn ↦ cn ]

module _ {C : Type 0} (flusher : CacheFlusher C) where
  abbrev pub evict_all : List Str → C → C
  evict_all [] c = c
  evict_all (key ∷ keys) c = evict_all keys (flusher.evict key c)

  -- The entries of each updated key.
  unfoldable pub evict_my_segments : List Str → C → C
  evict_my_segments [] c = c
  evict_my_segments (key ∷ keys) c =
      evict_my_segments keys (evict_all (make_my_segments_entries key) c)

  abbrev pub evict_segment : Str → C → C
  evict_segment name c =
      flusher.evict_by_surrogate memberships_surrogate
        (flusher.evict_by_surrogate (make_surrogate_for_segment_changes name) c)

  unfoldable pub evict_results : GoMap Str ℤ → GoMap Str SegmentResult → C → C
  unfolding lookup evict_my_segments
  evict_results cns [] c = c
  evict_results cns ((name, result) ∷ results) c =
      let c' =
        if changed_or_removed (number_or_zero name cns) result.new_change_number
        then evict_segment name c
        else c in
      evict_results cns results (evict_my_segments result.updated_keys c')

  -- `evictByLargeSegmentSurrogate`
  unfoldable pub evict_by_large_segment_surrogate : ℤ → ℤ → C → C
  evict_by_large_segment_surrogate previous current c =
      if ltb_ℤ previous current || current == minus_one
      then flusher.evict_by_surrogate memberships_surrogate c
      else c

  unfoldable pub evict_large_results : GoMap Str ℤ → GoMap Str (Option ℤ) → C → Option C
  unfolding lookup evict_by_large_segment_surrogate
  evict_large_results cns [] c = some c
  evict_large_results cns ((name, none) ∷ results) c = none
  evict_large_results cns ((name, some cn) ∷ results) c =
      evict_large_results cns results
        (evict_by_large_segment_surrogate (number_or_zero name cns) cn c)

  module _ {W R : Type 0} where
    -- `SynchronizeSplits` and `SynchronizeFeatureFlags`, which differ in the call they wrap.
    unfoldable pub synchronize_splits : (W → ℤ) → (W → ℤ) → (W → W × R) → W × C → (W × C) × R
    synchronize_splits change_number rb_change_number wrapped (w, c) =
        let (w', result) = wrapped w in
        let evicts =
          changed (change_number w) (change_number w')
          || changed (rb_change_number w) (rb_change_number w') in
        ((w', if evicts then flusher.evict_by_surrogate split_surrogate c else c), result)

  module _ {W : Type 0} where
    unfoldable pub local_kill : (W → W) → W × C → W × C
    local_kill wrapped (w, c) = (wrapped w, flusher.evict_by_surrogate split_surrogate c)

    -- `SynchronizeSegment`: none where the wrapped call answers nil.
    unfoldable pub synchronize_segment :
        (W → Str → ℤ)
        → (W → W × Option SegmentResult)
        → Str
        → W × C
        → Option ((W × C) × SegmentResult)
    unfolding evict_my_segments
    synchronize_segment change_number wrapped name (w, c) =
        let (w', answer) = wrapped w in
        elim answer [
          | none ↦ none
          | some result ↦
              let c' =
                if changed (change_number w name) result.new_change_number
                then evict_segment name c
                else c in
              some ((w', evict_my_segments result.updated_keys c'), result)
        ]

    -- The change numbers before `SynchronizeSegments`, of the segments in use.
    unfoldable pub previous_numbers : (W → Str → ℤ) → W → List Str → GoMap Str ℤ
    unfolding store
    previous_numbers change_number w [] = []
    previous_numbers change_number w (name ∷ names) =
        store name (change_number w name) (previous_numbers change_number w names)

    -- `SynchronizeSegments`
    unfoldable pub synchronize_segments :
        (W → Str → ℤ)
        → (W → List Str)
        → (W → W × GoMap Str SegmentResult)
        → W × C
        → (W × C) × GoMap Str SegmentResult
    unfolding previous_numbers evict_results
    synchronize_segments change_number segment_names wrapped (w, c) =
        let cns = previous_numbers change_number w (segment_names w) in
        let (w', results) = wrapped w in ((w', evict_results cns results c), results)

    -- `SynchronizeLargeSegment` and `SynchronizeLargeSegmentUpdate`
    unfoldable pub synchronize_large_segment :
        (W → Str → ℤ) → (W → W × Option ℤ) → Str → W × C → Option ((W × C) × ℤ)
    unfolding evict_by_large_segment_surrogate
    synchronize_large_segment change_number wrapped name (w, c) =
        let (w', answer) = wrapped w in
        elim answer [
          | none ↦ none
          | some cn ↦ some ((w', evict_by_large_segment_surrogate (change_number w name) cn c), cn)
        ]

    -- `SynchronizeLargeSegments`
    unfoldable pub synchronize_large_segments :
        (W → Str → ℤ)
        → (W → List Str)
        → (W → W × GoMap Str (Option ℤ))
        → W × C
        → Option ((W × C) × GoMap Str (Option ℤ))
    unfolding previous_numbers evict_large_results
    synchronize_large_segments change_number segment_names wrapped (w, c) =
        let cns = previous_numbers change_number w (segment_names w) in
        let (w', results) = wrapped w in
        elim (evict_large_results cns results c) [
          | none ↦ none
          | some c' ↦ some ((w', c'), results)
        ]
