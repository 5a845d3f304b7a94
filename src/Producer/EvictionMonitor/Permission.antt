-- ===== src/Producer/EvictionMonitor/Permission.antt =====
-- splitio/producer/evcalc/evcalc.go: the permission to flush, when each caller releases what it
-- acquired. Flushes are stored at any time in between.
use split_synchronizer.Prelude.{ℕ, true, false, some, List, [], ◌∷◌, ◌≡◌, arith, refl, ap, ◌∙◌}
use split_synchronizer.Producer.EvictionMonitor.{
  FlushRecord, Monitor, new_monitor, store_data_flushed, acquire, release,
}

module _ {Time : Type 0} where
  -- The callers that hold the permission: one that acquires it while it is free is added, one that
  -- releases holds it.
  pub data Reached (threads : ℕ) : Monitor Time → List ℕ → Type 0 where
    start : Reached threads (new_monitor threads) []
    acquired :
        (m : Monitor Time) (holders : List ℕ)
        → Reached threads m holders
        → (caller : ℕ) → (acquire m).1 ≡ true
        → Reached threads (acquire m).0 (caller ∷ holders)
    denied :
        (m : Monitor Time) (holders : List ℕ)
        → Reached threads m holders
        → (caller : ℕ) → (acquire m).1 ≡ false
        → Reached threads (acquire m).0 holders
    released :
        (m : Monitor Time) (caller : ℕ) (holders : List ℕ)
        → Reached threads m (caller ∷ holders)
        → Reached threads (release m) holders
    flushed :
        (m m' : Monitor Time) (holders : List ℕ)
        → Reached threads m holders
        → (r : FlushRecord Time) → store_data_flushed m r ≡ some m'
        → Reached threads m' holders

  -- One caller holds the permission, or none, as the monitor says.
  abbrev pub AtMostOne : Monitor Time → List ℕ → Type 0
  AtMostOne m [] = m.busy ≡ false
  AtMostOne m (caller ∷ []) = m.busy ≡ true
  AtMostOne m (caller ∷ other ∷ rest) = ⊥

  acquire-AtMostOne :
      (m : Monitor Time) (holders : List ℕ) (caller : ℕ)
      → (acquire m).1 ≡ true
      → AtMostOne m holders
      → AtMostOne (acquire m).0 (caller ∷ holders)
  unfolding acquire
  acquire-AtMostOne m [] caller e h = ground (arith, e, h)
  acquire-AtMostOne m (c ∷ []) caller e h = ground (arith, e, h)
  acquire-AtMostOne m (c ∷ d ∷ rest) caller e h = absurd h

  denied-same : (m : Monitor Time) → (acquire m).1 ≡ false → (acquire m).0 ≡ m
  unfolding acquire
  denied-same m e = ground (arith, e)

  release-AtMostOne :
      (m : Monitor Time) (caller : ℕ) (holders : List ℕ)
      → AtMostOne m (caller ∷ holders)
      → AtMostOne (release m) holders
  unfolding release
  release-AtMostOne m caller [] h = refl
  release-AtMostOne m caller (c ∷ rest) h = absurd h

  busy-store_data_flushed :
      (m m' : Monitor Time) (r : FlushRecord Time)
      → store_data_flushed m r ≡ some m'
      → m'.busy ≡ m.busy
  unfolding store_data_flushed
  busy-store_data_flushed m m' r e = ground (arith, e)

  AtMostOne-same :
      (m m' : Monitor Time) (holders : List ℕ)
      → m'.busy ≡ m.busy
      → AtMostOne m holders
      → AtMostOne m' holders
  AtMostOne-same m m' [] e h = e ∙ h
  AtMostOne-same m m' (c ∷ []) e h = e ∙ h
  AtMostOne-same m m' (c ∷ d ∷ rest) e h = h

  -- When each caller releases only what it acquired, at most one holds the permission at any time, and
  -- the monitor is busy exactly while one does.
  pub Reached-AtMostOne :
      (threads : ℕ) (m : Monitor Time) (holders : List ℕ)
      → Reached threads m holders
      → AtMostOne m holders
  Reached-AtMostOne threads m holders Reached.start = refl
  Reached-AtMostOne threads m holders (Reached.acquired n hs r caller e) =
      acquire-AtMostOne n hs caller e (Reached-AtMostOne threads n hs r)
  Reached-AtMostOne threads m holders (Reached.denied n hs r caller e) =
      AtMostOne-same n m hs (ap (λ k. k.busy) (denied-same n e)) (Reached-AtMostOne threads n hs r)
  Reached-AtMostOne threads m holders (Reached.released n caller hs r) =
      release-AtMostOne n caller hs (Reached-AtMostOne threads n (caller ∷ hs) r)
  Reached-AtMostOne threads m holders (Reached.flushed n n' hs r f e) =
      AtMostOne-same n n' hs (busy-store_data_flushed n n' f e) (Reached-AtMostOne threads n hs r)
