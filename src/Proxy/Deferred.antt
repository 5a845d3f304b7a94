-- ===== src/Proxy/Deferred.antt =====
-- splitio/proxy/tasks/deferred.go: the bounded queue in front of a worker pool. `Stage` holds the
-- mutex and is one step; a flush is not, so that stagings come between its steps, and any number of
-- goroutines may run one. The worker pool, which may answer that it did not take a message, is outside
-- of the repository: what is handed to it is listed, and its answer is not read.
pub mod Order
use split_synchronizer.Prelude.{
  ℕ, suc, Bool, true, false, Option, some, List, [], ◌∷◌, ◌++◌, if◌then◌else◌, length, get_elem?,
  set, replicate, ltb, nat_beq, ◌≡◌,
}

-- Where a call of the flush stands: before it or past its end, at the test of its loop, or at the
-- receive from the queue.
pub data Flush : Type 0 where
  out : Flush
  at_test : Flush
  at_receive : Flush

pub record Deferred (A : Type 0) : Type 0 where
  pub queue : List A
  pub capacity : ℕ
  pub drain_in_progress : Bool
  pub flushes : List Flush
  pub handed : List A
  pub wake_ups : ℕ

pub data Staged : Type 0 where
  accepted : Staged
  err_queue_full : Staged

module _ {A : Type 0} where
  -- `newDeferredFlushTask`, for so many goroutines that may flush.
  abbrev pub new_deferred : ℕ → ℕ → Deferred A
  new_deferred queue_size goroutines = record {
    queue = [];
    capacity = queue_size;
    drain_in_progress = false;
    flushes = replicate goroutines out;
    handed = [];
    wake_ups = 0;
  }

  -- `Stage`
  unfoldable pub stage : A → Deferred A → Deferred A × Staged
  stage x s =
      if ltb (length s.queue) s.capacity
      then (
        record s {
          queue = s.queue ++ x ∷ [];
          wake_ups =
              if nat_beq (suc (length s.queue)) s.capacity then suc s.wake_ups else s.wake_ups;
        },
        accepted,
      )
      else (s, err_queue_full)

  -- The start of a flush: it goes on only if no other is in progress.
  unfoldable pub begin_flush : ℕ → Deferred A → Deferred A
  begin_flush i s =
      if s.drain_in_progress
      then s
      else record s { drain_in_progress = true; flushes = set s.flushes i at_test }

  -- The test `len(queue) > 0` of its loop.
  unfoldable pub test_queue : ℕ → Deferred A → Deferred A
  test_queue i s =
      if ltb 0 (length s.queue)
      then record s { flushes = set s.flushes i at_receive }
      else record s { drain_in_progress = false; flushes = set s.flushes i out }

  -- `pool.QueueMessage(<-queue)`, where the queue holds something.
  abbrev pub receive : ℕ → A → List A → Deferred A → Deferred A
  receive i x rest s = record s {
    queue = rest;
    handed = s.handed ++ x ∷ [];
    flushes = set s.flushes i at_test;
  }

  -- What was accepted so far, and the state.
  pub data Reached (queue_size goroutines : ℕ) : List A → Deferred A → Type 0 where
    made : Reached queue_size goroutines [] (new_deferred queue_size goroutines)
    staged :
        (xs : List A) (s : Deferred A)
        → Reached queue_size goroutines xs s
        → (x : A) → (stage x s).1 ≡ accepted
        → Reached queue_size goroutines (xs ++ x ∷ []) (stage x s).0
    refused :
        (xs : List A) (s : Deferred A)
        → Reached queue_size goroutines xs s
        → (x : A) → (stage x s).1 ≡ err_queue_full
        → Reached queue_size goroutines xs (stage x s).0
    began :
        (xs : List A) (s : Deferred A)
        → Reached queue_size goroutines xs s
        → (i : ℕ) → get_elem? s.flushes i ≡ some out
        → Reached queue_size goroutines xs (begin_flush i s)
    tested :
        (xs : List A) (s : Deferred A)
        → Reached queue_size goroutines xs s
        → (i : ℕ) → get_elem? s.flushes i ≡ some at_test
        → Reached queue_size goroutines xs (test_queue i s)
    received :
        (xs : List A) (s : Deferred A)
        → Reached queue_size goroutines xs s
        → (i : ℕ) (x : A) (rest : List A) → get_elem? s.flushes i ≡ some at_receive
        → s.queue ≡ x ∷ rest
        → Reached queue_size goroutines xs (receive i x rest s)
