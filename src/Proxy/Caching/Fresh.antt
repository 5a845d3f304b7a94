-- ===== src/Proxy/Caching/Fresh.antt =====
-- splitio/proxy/caching/workers.go: what is no longer cached after a synchronization.
use split_synchronizer.Prelude.GoMap.{GoMap}
use split_synchronizer.Prelude.Str.{Str, str_eq}
use split_synchronizer.Prelude.{
  Bool, true, false, ◌||◌, Option, none, some, List, [], ◌∷◌, if◌then◌else◌, ℤ, int_eq, Any, ◌≡◌,
  refl, sym, ap, subst, ◌∙◌, Bool-cases, Option-cases, inl, inr,
}
use split_synchronizer.Proxy.Caching.Keys.{my_segments_path, key_factory-entries}
use split_synchronizer.Proxy.Caching.{
  CacheFlusher, Request, SegmentResult, key_factory, make_my_segments_entries,
  make_surrogate_for_segment_changes, memberships_surrogate, split_surrogate, changed,
  changed_or_removed, evict_all, evict_my_segments, evict_segment, evict_results, number_or_zero,
  synchronize_splits, synchronize_segment,
}

module _ {C : Type 0} (flusher : CacheFlusher C) where
  -- Nothing with the surrogate is cached.
  abbrev pub IsFresh : Str → C → Type 0
  IsFresh surrogate c =
      (key : Str) → flusher.tagged surrogate key c ≡ true → flusher.holds key c ≡ false

  evict-IsFresh : (s key : Str) (c : C) → IsFresh s c → IsFresh s (flusher.evict key c)
  evict-IsFresh s key c h k t =
      flusher.evict_adds_none key k c (h k (flusher.evict_tags_none key s k c t))

  surrogate-IsFresh :
      (s other : Str) (c : C) → IsFresh s c → IsFresh s (flusher.evict_by_surrogate other c)
  surrogate-IsFresh s other c h k t =
      flusher.surrogate_adds_none other k c (h k (flusher.surrogate_tags_none other s k c t))

  evict_all-IsFresh :
      (s : Str) (keys : List Str) (c : C) → IsFresh s c → IsFresh s (evict_all flusher keys c)
  evict_all-IsFresh s [] c h = h
  evict_all-IsFresh s (key ∷ keys) c h =
      evict_all-IsFresh s keys (flusher.evict key c) (evict-IsFresh s key c h)

  evict_my_segments-IsFresh :
      (s : Str) (keys : List Str) (c : C)
      → IsFresh s c
      → IsFresh s (evict_my_segments flusher keys c)
  unfolding evict_my_segments
  evict_my_segments-IsFresh s [] c h = h
  evict_my_segments-IsFresh s (key ∷ keys) c h =
      evict_my_segments-IsFresh s keys _ (evict_all-IsFresh s (make_my_segments_entries key) c h)

  evict_segment-IsFresh :
      (name : Str) (c : C)
      → IsFresh (make_surrogate_for_segment_changes name) (evict_segment flusher name c)
        × IsFresh memberships_surrogate (evict_segment flusher name c)
  evict_segment-IsFresh name c =
      let segment = make_surrogate_for_segment_changes name in
      (
        surrogate-IsFresh segment memberships_surrogate (flusher.evict_by_surrogate segment c)
            (λ k t. flusher.evicted_by_surrogate segment k c t),
        λ k t.
            flusher.evicted_by_surrogate memberships_surrogate k
              (flusher.evict_by_surrogate segment c) t,
      )

  evict_all-none :
      (key : Str) (keys : List Str) (c : C)
      → flusher.holds key c ≡ false
      → flusher.holds key (evict_all flusher keys c) ≡ false
  evict_all-none key [] c h = h
  evict_all-none key (k ∷ keys) c h =
      evict_all-none key keys (flusher.evict k c) (flusher.evict_adds_none k key c h)

  evict_all-Any :
      (key : Str) (keys : List Str) (c : C)
      → Any (λ k. key ≡ k) keys
      → flusher.holds key (evict_all flusher keys c) ≡ false
  evict_all-Any key [] c h = absurd h
  evict_all-Any key (k ∷ keys) c (inl e) =
      evict_all-none key keys (flusher.evict k c)
        (subst (λ z. flusher.holds z (flusher.evict k c) ≡ false) (sym e) (flusher.evicted k c))
  evict_all-Any key (k ∷ keys) c (inr h) = evict_all-Any key keys (flusher.evict k c) h

  evict_my_segments-none :
      (key : Str) (keys : List Str) (c : C)
      → flusher.holds key c ≡ false
      → flusher.holds key (evict_my_segments flusher keys c) ≡ false
  unfolding evict_my_segments
  evict_my_segments-none key [] c h = h
  evict_my_segments-none key (k ∷ keys) c h =
      evict_my_segments-none key keys _ (evict_all-none key (make_my_segments_entries k) c h)

  -- No request for the segments of an updated key, without a query, finds a cached response.
  evict_my_segments-Any :
      (r : Request) (key : Str) (keys : List Str) (c : C)
      → r.path ≡ my_segments_path key
      → r.raw_query ≡ []
      → Any (λ k. key ≡ k) keys
      → flusher.holds (key_factory r) (evict_my_segments flusher keys c) ≡ false
  unfolding evict_my_segments
  evict_my_segments-Any r key [] c p q h = absurd h
  evict_my_segments-Any r key (k ∷ keys) c p q (inl e) =
      evict_my_segments-none (key_factory r) keys _ (
        evict_all-Any (key_factory r) (make_my_segments_entries k) c
          (key_factory-entries k r (p ∙ ap my_segments_path e) q))
  evict_my_segments-Any r key (k ∷ keys) c p q (inr h) = evict_my_segments-Any r key keys _ p q h

  -- No response for one of the updated keys is cached, but for requests with a query.
  abbrev pub NoneOf : List Str → C → Type 0
  NoneOf keys c =
      (r : Request) (key : Str)
      → r.path ≡ my_segments_path key
      → r.raw_query ≡ []
      → Any (λ k. key ≡ k) keys
      → flusher.holds (key_factory r) c ≡ false

  evict_segment-cond :
      (b : Bool) (name : Str) (keys : List Str) (c : C)
      → b ≡ true
      → IsFresh
          (make_surrogate_for_segment_changes name)
          (evict_my_segments flusher keys (if b then evict_segment flusher name c else c))
        × IsFresh memberships_surrogate
            (evict_my_segments flusher keys (if b then evict_segment flusher name c else c))
  evict_segment-cond b name keys c t =
      let fresh = evict_segment-IsFresh name c in
      rw t (
        evict_my_segments-IsFresh (make_surrogate_for_segment_changes name) keys
            (evict_segment flusher name c) fresh.0,
        evict_my_segments-IsFresh memberships_surrogate keys (evict_segment flusher name c) fresh.1,
      )

  module _ {W : Type 0} where
    -- What one answer of the wrapped call leaves in the cache.
    abbrev pub Cleared : ℤ → Str → (W × C) × SegmentResult → Type 0
    Cleared previous name r =
        NoneOf r.1.updated_keys r.0.1
        × (changed previous r.1.new_change_number ≡ true
            → IsFresh (make_surrogate_for_segment_changes name) r.0.1
              × IsFresh memberships_surrogate r.0.1)

    -- After a segment was synchronized, no response for one of the updated keys is cached, but for
    -- requests with a query; and if its change number grew or went away, no response for its changes
    -- and no memberships are.
    pub synchronize_segment-Cleared :
        (change_number : W → Str → ℤ) (wrapped : W → W × Option SegmentResult) (name : Str) (w : W)
        (c : C)
        → (r : (W × C) × SegmentResult)
        → synchronize_segment flusher change_number wrapped name (w, c) ≡ some r
        → Cleared (change_number w name) name r
    unfolding synchronize_segment
    synchronize_segment-Cleared change_number wrapped name w c r e =
        elim (Option-cases (wrapped w).1) [
          | inl n ↦
              let failed : synchronize_segment flusher change_number wrapped name (w, c) ≡ none =
                rw (synchronize_segment, n) refl in
              absurd cc
          | inr (result, a) ↦
              let b = changed (change_number w name) result.new_change_number in
              let after : (W × C) × SegmentResult = (
                (
                  (wrapped w).0,
                  evict_my_segments flusher result.updated_keys
                      (if b then evict_segment flusher name c else c),
                ),
                result,
              ) in
              let given : synchronize_segment flusher change_number wrapped name (w, c)
                  ≡ some after =
                rw (synchronize_segment, a) refl in
              let same : after ≡ r = cc in
              subst (Cleared (change_number w name) name) same (
                (λ req key p q h. evict_my_segments-Any req key result.updated_keys _ p q h),
                λ t. evict_segment-cond b name result.updated_keys c t,
              )
        ]

  -- Once the results of all segments are gone through, whatever is in them: the updated keys of each,
  -- and the changes and memberships of each that changed.
  abbrev pub ClearedAll : GoMap Str ℤ → GoMap Str SegmentResult → C → Type 0
  ClearedAll cns [] c = Unit
  ClearedAll cns ((name, result) ∷ results) c =
      NoneOf result.updated_keys c
      × (changed_or_removed (number_or_zero name cns) result.new_change_number ≡ true
          → IsFresh (make_surrogate_for_segment_changes name) c × IsFresh memberships_surrogate c)
      × ClearedAll cns results c

  -- One round of the loop over the results.
  abbrev round : GoMap Str ℤ → Str → SegmentResult → C → C
  round cns name result c = evict_my_segments flusher result.updated_keys (
      if changed_or_removed (number_or_zero name cns) result.new_change_number
      then evict_segment flusher name c
      else c)

  round-none :
      (cns : GoMap Str ℤ) (name key : Str) (result : SegmentResult) (c : C)
      → flusher.holds key c ≡ false
      → flusher.holds key (round cns name result c) ≡ false
  round-none cns name key result c h =
      evict_my_segments-none key result.updated_keys _
        (elim (Bool-cases (changed_or_removed (number_or_zero name cns) result.new_change_number)) [
          | inl t ↦ rw t (
              flusher.surrogate_adds_none memberships_surrogate key _
                (flusher.surrogate_adds_none (make_surrogate_for_segment_changes name) key c h))
          | inr f ↦ rw f h
        ])

  round-IsFresh :
      (cns : GoMap Str ℤ) (name s : Str) (result : SegmentResult) (c : C)
      → IsFresh s c
      → IsFresh s (round cns name result c)
  round-IsFresh cns name s result c h =
      evict_my_segments-IsFresh s result.updated_keys _
        (elim (Bool-cases (changed_or_removed (number_or_zero name cns) result.new_change_number)) [
          | inl t ↦ rw t (
              surrogate-IsFresh s memberships_surrogate _
                (surrogate-IsFresh s (make_surrogate_for_segment_changes name) c h))
          | inr f ↦ rw f h
        ])

  evict_results-none :
      (cns : GoMap Str ℤ) (key : Str) (results : GoMap Str SegmentResult) (c : C)
      → flusher.holds key c ≡ false
      → flusher.holds key (evict_results flusher cns results c) ≡ false
  unfolding evict_results
  evict_results-none cns key [] c h = h
  evict_results-none cns key ((name, result) ∷ results) c h =
      evict_results-none cns key results (round cns name result c)
        (round-none cns name key result c h)

  evict_results-IsFresh :
      (cns : GoMap Str ℤ) (s : Str) (results : GoMap Str SegmentResult) (c : C)
      → IsFresh s c
      → IsFresh s (evict_results flusher cns results c)
  unfolding evict_results
  evict_results-IsFresh cns s [] c h = h
  evict_results-IsFresh cns s ((name, result) ∷ results) c h =
      evict_results-IsFresh cns s results (round cns name result c)
        (round-IsFresh cns name s result c h)

  pub evict_results-ClearedAll :
      (cns : GoMap Str ℤ) (results : GoMap Str SegmentResult) (c : C)
      → ClearedAll cns results (evict_results flusher cns results c)
  unfolding evict_results
  evict_results-ClearedAll cns [] c = tt
  evict_results-ClearedAll cns ((name, result) ∷ results) c =
      let next = round cns name result c in
      let cond = changed_or_removed (number_or_zero name cns) result.new_change_number in
      (
        λ r key p q h.
            evict_results-none cns (key_factory r) results next
              (evict_my_segments-Any r key result.updated_keys _ p q h),
        λ t. (
          evict_results-IsFresh cns (make_surrogate_for_segment_changes name) results next
              (evict_segment-cond cond name result.updated_keys c t).0,
          evict_results-IsFresh cns memberships_surrogate results next
              (evict_segment-cond cond name result.updated_keys c t).1,
        ),
        evict_results-ClearedAll cns results next,
      )

  module _ {W R : Type 0} where
    -- When a synchronization of the flags moved the change number of the flags or that of the
    -- rule-based segments forward, or reset it, no response with flags is cached after it; otherwise
    -- the cache is as it was.
    pub synchronize_splits-IsFresh :
        (cn rb_cn : W → ℤ) (wrapped : W → W × R) (w : W) (c : C)
        → (changed (cn w) (cn (wrapped w).0) || changed (rb_cn w) (rb_cn (wrapped w).0) ≡ true
            → IsFresh split_surrogate (synchronize_splits flusher cn rb_cn wrapped (w, c)).0.1)
          × (changed (cn w) (cn (wrapped w).0) || changed (rb_cn w) (rb_cn (wrapped w).0) ≡ false
              → (synchronize_splits flusher cn rb_cn wrapped (w, c)).0.1 ≡ c)
    unfolding synchronize_splits
    synchronize_splits-IsFresh cn rb_cn wrapped w c =
        (λ t. rw t (λ k u. flusher.evicted_by_surrogate split_surrogate k c u), λ f. rw f refl)
