-- ===== src/Tests/Staging.antt =====
-- A run of the deferred queue: two stagings, the second refused, and a flush.
use split_synchronizer.Prelude.{ℕ, [], ◌∷◌, refl}
use split_synchronizer.Proxy.Deferred.Order.{IsOrdered, Reached-IsOrdered}
use split_synchronizer.Proxy.Deferred.{
  Deferred, new_deferred, stage, begin_flush, test_queue, receive, Reached,
}

abbrev full : Deferred ℕ
full = (stage 7 (new_deferred 1 1)).0

abbrev refused : Deferred ℕ
refused = (stage 8 full).0

abbrev flushed : Deferred ℕ
flushed = receive 0 7 [] (test_queue 0 (begin_flush 0 refused))

flush_reached : Reached 1 1 (7 ∷ []) flushed
unfolding stage begin_flush test_queue
flush_reached =
    Reached.received (7 ∷ []) (test_queue 0 (begin_flush 0 refused))
      (Reached.tested (7 ∷ []) (begin_flush 0 refused)
        (Reached.began (7 ∷ []) refused
          (Reached.refused (7 ∷ []) full (Reached.staged [] (new_deferred 1 1) Reached.made 7 refl)
            8 refl)
          0 refl)
        0 refl)
      0 7 [] refl refl

Reached-IsOrdered_example : IsOrdered 1 (7 ∷ []) flushed
Reached-IsOrdered_example = Reached-IsOrdered 1 1 (7 ∷ []) flushed flush_reached
