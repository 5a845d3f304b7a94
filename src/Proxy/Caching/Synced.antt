-- ===== src/Proxy/Caching/Synced.antt =====
-- splitio/proxy/caching/workers.go: what is no longer cached after a synchronization of all segments.
use split_synchronizer.Prelude.GoMap.{GoMap, lookup, lookup-store}
use split_synchronizer.Prelude.Keys.{contains}
use split_synchronizer.Prelude.Str.{Str, str_eq, str_beq_iff}
use split_synchronizer.Prelude.{
  Bool, true, List, [], ◌∷◌, if◌then◌else◌, ℤ, pos, ◌≡◌, refl, ap, ◌∙◌, arith,
}
use split_synchronizer.Proxy.Caching.Fresh.{IsFresh, NoneOf, ClearedAll, evict_results-ClearedAll}
use split_synchronizer.Proxy.Caching.{
  CacheFlusher, SegmentResult, make_surrogate_for_segment_changes, memberships_surrogate,
  changed_or_removed, number_or_zero, previous_numbers, synchronize_segments,
}

module _ {C : Type 0} (flusher : CacheFlusher C) where
  lookup-previous_numbers :
      {W : Type 0} (change_number : W → Str → ℤ) (w : W) (names : List Str) (name : Str)
      → number_or_zero name (previous_numbers flusher change_number w names)
        ≡ (if contains name names then change_number w name else pos 0)
  unfolding previous_numbers lookup contains
  lookup-previous_numbers change_number w [] name = refl
  lookup-previous_numbers change_number w (n ∷ names) name = ground (
    arith,
    lookup-previous_numbers change_number w names name,
    lookup-store n name (change_number w n) (previous_numbers flusher change_number w names),
    str_beq_iff n name,
    str_beq_iff name n,
  )

  -- What a synchronization of all segments leaves in the cache: nothing for the updated keys of a
  -- result, and nothing for the changes and the memberships of a segment whose change number grew, or
  -- was positive and went away, where a segment that is not in use counts from zero.
  abbrev pub SyncedAll : (Str → Bool) → (Str → ℤ) → GoMap Str SegmentResult → C → Type 0
  SyncedAll in_use number [] c = Unit
  SyncedAll in_use number ((name, result) ∷ results) c =
      let previous = if in_use name then number name else pos 0 in
      NoneOf flusher result.updated_keys c
      × (changed_or_removed previous result.new_change_number ≡ true
          → IsFresh flusher (make_surrogate_for_segment_changes name) c
            × IsFresh flusher memberships_surrogate c)
      × SyncedAll in_use number results c

  ClearedAll-SyncedAll :
      (cns : GoMap Str ℤ) (in_use : Str → Bool) (number : Str → ℤ)
      (results : GoMap Str SegmentResult) (c : C)
      → ((name : Str) → number_or_zero name cns ≡ (if in_use name then number name else pos 0))
      → ClearedAll flusher cns results c
      → SyncedAll in_use number results c
  ClearedAll-SyncedAll cns in_use number [] c e h = tt
  ClearedAll-SyncedAll cns in_use number ((name, result) ∷ results) c e h = (
    h.0,
    λ t. h.1 (ap (λ z. changed_or_removed z result.new_change_number) (e name) ∙ t),
    ClearedAll-SyncedAll cns in_use number results c e h.2,
  )

  -- `SynchronizeSegments` answers what the call that it wraps answers. After it, for each result, no
  -- response for one of the updated keys is cached, but for requests with a query; and if the
  -- segment's change number grew, or was positive and went away, no response for its changes and no
  -- memberships are. A segment that was not in use before counts from zero.
  pub synchronize_segments-SyncedAll :
      {W : Type 0} (change_number : W → Str → ℤ) (segment_names : W → List Str)
      (wrapped : W → W × GoMap Str SegmentResult) (w : W) (c : C)
      → let ((w', c'), results) =
          synchronize_segments flusher change_number segment_names wrapped (w, c) in
        ((w', results) ≡ wrapped w)
        × SyncedAll (λ name. contains name (segment_names w)) (change_number w) results c'
  unfolding synchronize_segments
  synchronize_segments-SyncedAll change_number segment_names wrapped w c =
      let cns = previous_numbers flusher change_number w (segment_names w) in
      (
        refl,
        ClearedAll-SyncedAll cns _ (change_number w) (wrapped w).1 _
            (lookup-previous_numbers change_number w (segment_names w))
            (evict_results-ClearedAll flusher cns (wrapped w).1 c),
      )
