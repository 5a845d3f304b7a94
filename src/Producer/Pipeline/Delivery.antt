-- ===== src/Producer/Pipeline/Delivery.antt =====
-- splitio/producer/task/pipelined.go: what becomes of the results of `Process` on its way to a post.
use split_synchronizer.Prelude.Str.{Str}
use split_synchronizer.Prelude.Weights.{total, total-append, total-set}
use split_synchronizer.Prelude.{
  ℕ, zero, suc, ◌+◌, Bool, true, false, some, List, [], ◌∷◌, ◌++◌, length, get_elem?, set,
  replicate, leb, ltb, ◌≡◌, refl, ap, arith, Bool-cases, inl, inr,
}
use split_synchronizer.Producer.Pipeline.Conservation.{Accounted, Reachable-Accounted}
use split_synchronizer.Producer.Pipeline.{
  Config, Processor, gathering, sending, processor_ended, Sinker, receiving, posting, sinker_ended,
  Pipeline, start, stop, pushed, submit, received, submitted, with_batch, Step, Reachable,
}

-- What a goroutine still has to send or to post.
abbrev pub results_of : {D : Type 0} → Processor D → List D
results_of (gathering batch) = []
results_of (sending last results) = results
results_of processor_ended = []

abbrev pub in_hand : {D : Type 0} → Sinker D → List D
in_hand receiving = []
in_hand (posting d) = d ∷ []
in_hand sinker_ended = []

-- A weight of the results, for which what was made of the batches is counted.
module _ {D : Type 0} (process : List Str → List D) (w : D → ℕ) where
  abbrev pub made : List (List Str) → ℕ
  made batches = total (λ b. total w (process b)) batches

  abbrev pub unsent : List (Processor D) → ℕ
  unsent processors = total (λ p. total w (results_of p)) processors

  abbrev pub unposted : List (Sinker D) → ℕ
  unposted sinkers = total (λ k. total w (in_hand k)) sinkers

  -- What `Process` made was handed to a post, or is with a sinker, in the sink or with a processor.
  abbrev pub Delivered : Pipeline D → Type 0
  Delivered s =
      made s.log.processed
      ≡ total w s.log.posted + unposted s.sinkers + total w s.pre_submit + unsent s.processors

  unsent-start : (n : ℕ) → unsent (replicate n (gathering [])) ≡ 0
  unsent-start zero = refl
  unsent-start (suc n) = omega (arith, unsent-start n)

  unposted-start : (n : ℕ) → unposted (replicate n receiving) ≡ 0
  unposted-start zero = refl
  unposted-start (suc n) = omega (arith, unposted-start n)

  -- A batch comes back from `submit` as all that `Process` made of it.
  made-with_batch :
      (last : Bool) (batches : List (List Str)) (batch : List Str)
      → made (with_batch batches batch)
        ≡ made batches + total w (results_of (submit process last batch))
  unfolding submit
  made-with_batch false batches [] = omega arith
  made-with_batch true batches [] = omega arith
  made-with_batch false batches (item ∷ batch) =
      omega (arith, total-append (λ b. total w (process b)) batches ((item ∷ batch) ∷ []))
  made-with_batch true batches (item ∷ batch) =
      omega (arith, total-append (λ b. total w (process b)) batches ((item ∷ batch) ∷ []))

  -- One processor moves, with what it had to send and what it has then.
  set-unsent :
      (s : Pipeline D) (i : ℕ) (p q : Processor D)
      → get_elem? s.processors i ≡ some p
      → unsent (set s.processors i q) + total w (results_of p)
        ≡ unsent s.processors + total w (results_of q)
  set-unsent s i p q e = total-set (λ r. total w (results_of r)) s.processors i p q e

  set-unposted :
      (s : Pipeline D) (j : ℕ) (p q : Sinker D)
      → get_elem? s.sinkers j ≡ some p
      → unposted (set s.sinkers j q) + total w (in_hand p)
        ≡ unposted s.sinkers + total w (in_hand q)
  set-unposted s j p q e = total-set (λ k. total w (in_hand k)) s.sinkers j p q e

  pushed-Delivered :
      (c : Config) (raws : List Str) (s : Pipeline D) → Delivered s → Delivered (pushed c raws s)
  unfolding pushed
  pushed-Delivered c raws s h = elim (Bool-cases (ltb (length s.input) c.input_buffer_size)) [
    | inl t ↦ rw t h
    | inr f ↦ rw f h
  ]

  stop-Delivered : (s : Pipeline D) → Delivered s → Delivered (stop s).0
  unfolding stop
  stop-Delivered s h = elim (Bool-cases s.running) [ inl t ↦ rw t h | inr f ↦ rw f h ]

  submitted-Delivered :
      (last : Bool) (i : ℕ) (old batch : List Str) (s : Pipeline D)
      → get_elem? s.processors i ≡ some (gathering old)
      → Delivered s
      → Delivered (submitted process last i batch s)
  submitted-Delivered last i old batch s e h = omega (
    arith,
    h,
    made-with_batch last s.log.processed batch,
    set-unsent s i (gathering old) (submit process last batch) e,
  )

  received-Delivered :
      (c : Config) (i : ℕ) (batch raws : List Str) (rest : List (List Str)) (s : Pipeline D)
      → get_elem? s.processors i ≡ some (gathering batch)
      → Delivered s
      → Delivered (received process c i batch raws rest s)
  unfolding received
  received-Delivered c i batch raws rest s e h =
      elim (Bool-cases (leb c.process_batch_size (length (batch ++ raws)))) [
        | inl t ↦ rw t (submitted-Delivered false i batch (batch ++ raws) s e h)
        | inr f ↦
            rw f (omega (arith, h, set-unsent s i (gathering batch) (gathering (batch ++ raws)) e))
      ]

  step-Delivered : (c : Config) (s t : Pipeline D) → Step process c s t → Delivered s → Delivered t
  step-Delivered c s t (Step.stopped e) h = stop-Delivered s h
  step-Delivered c s t (Step.loop_ended e f) h = h
  step-Delivered c s t (Step.loop_went_on e f) h = h
  step-Delivered c s t (Step.fetched_nothing e) h = h
  step-Delivered c s t (Step.bulk_fetched e raw raws) h = pushed-Delivered c (raw ∷ raws) s h
  step-Delivered c s t (Step.waited e) h = h
  step-Delivered c s t (Step.shut_down e f) h = h
  step-Delivered c s t (Step.took_bulk i batch raws rest e k) h =
      received-Delivered c i batch raws rest s e h
  step-Delivered c s t (Step.found_closed i batch e k f) h =
      submitted-Delivered true i batch batch s e h
  step-Delivered c s t (Step.timed_out i item batch e) h =
      submitted-Delivered false i (item ∷ batch) (item ∷ batch) s e h
  step-Delivered c s t (Step.sent i last d results e room) h = omega (
    arith,
    h,
    set-unsent s i (sending last (d ∷ results)) (sending last results) e,
    total-append w s.pre_submit (d ∷ []),
  )
  step-Delivered c s t (Step.batch_done i true e) h =
      omega (arith, h, set-unsent s i (sending true []) processor_ended e)
  step-Delivered c s t (Step.batch_done i false e) h =
      omega (arith, h, set-unsent s i (sending false []) (gathering []) e)
  step-Delivered c s t (Step.processors_done e f) h = h
  step-Delivered c s t (Step.took_result j d rest e f) h =
      omega (arith, h, ap (λ z. total w z) f, set-unposted s j receiving (posting d) e)
  step-Delivered c s t (Step.posted j d e) h =
      omega
        (arith, h, set-unposted s j (posting d) receiving e, total-append w s.log.posted (d ∷ []))
  step-Delivered c s t (Step.sinker_done j e f g) h =
      omega (arith, h, set-unposted s j receiving sinker_ended e)

  pub Reachable-Delivered : (c : Config) (s : Pipeline D) → Reachable process c s → Delivered s
  unfolding start
  Reachable-Delivered c s Reachable.at_start =
      omega (arith, unsent-start c.process_concurrency, unposted-start c.post_concurrency)
  Reachable-Delivered c s (Reachable.step a t r e) =
      step-Delivered c a t e (Reachable-Delivered c a r)

  -- In every reachable state, each item occurs among those fetched as often as among those dropped,
  -- those in the input buffer, those in the processors' batches and those in the batches that were
  -- handed to `Process`; and, by any weight of the results, all that `Process` makes of these batches
  -- was handed to a post, or is with a sinker, in the sink or with a processor.
  pub Reachable-Conserved :
      (c : Config) (s : Pipeline D) (x : Str) → Reachable process c s → Accounted x s × Delivered s
  Reachable-Conserved c s x r = (Reachable-Accounted process c s x r, Reachable-Delivered c s r)
