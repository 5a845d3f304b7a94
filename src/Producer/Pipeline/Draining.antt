-- ===== src/Producer/Pipeline/Draining.antt =====
-- splitio/producer/task/pipelined.go: once the input buffer is closed, no run goes on for ever.
use split_synchronizer.Prelude.Str.{Str}
use split_synchronizer.Prelude.Weights.{total, total-set}
use split_synchronizer.Prelude.{
  ℕ, zero, suc, ◌+◌, ◌*◌, ◌≤◌, ◌<◌, Bool, true, false, some, List, [], ◌∷◌, ◌++◌, length,
  length-append, get_elem?, leb, ◌⊎◌, ◌≡◌, refl, ap, arith, Bool-cases, inl, inr,
}
use split_synchronizer.Producer.Pipeline.{
  Config, filler_ended, Processor, gathering, sending, is_over, processor_ended, Sinker, receiving,
  posting, sinker_ended, Pipeline, stop, submit, received, Step,
}

abbrev pub open_weight : Bool → ℕ
open_weight true = 0
open_weight false = 1

module _ {D : Type 0} where
  -- The filler has closed the input buffer, which it does when `Stop` asked it to.
  pub record IsClosed (s : Pipeline D) : Type 0 where
    pub closed : s.input_closed ≡ true
    pub ended : s.filler ≡ filler_ended
    pub asked : s.running ≡ false

  abbrev pub batches_ahead : Processor D → ℕ
  batches_ahead (gathering []) = 1
  batches_ahead (gathering (x ∷ xs)) = 3
  batches_ahead (sending true results) = 1
  batches_ahead (sending false results) = 2
  batches_ahead processor_ended = 0

  abbrev pub still_open : Sinker D → ℕ
  still_open sinker_ended = 0
  still_open receiving = 1
  still_open (posting d) = 1

  -- The rounds that the goroutines may still go.
  abbrev pub rounds : Pipeline D → ℕ
  rounds s =
      3 * length s.input
      + total batches_ahead s.processors
      + open_weight s.pre_submit_closed
      + total still_open s.sinkers

  abbrev pub results_ahead : Processor D → ℕ
  results_ahead (gathering batch) = 0
  results_ahead (sending last results) = 3 * length results
  results_ahead processor_ended = 0

  abbrev pub is_posting : Sinker D → ℕ
  is_posting sinker_ended = 0
  is_posting receiving = 0
  is_posting (posting d) = 1

  -- The moves of results within one round.
  abbrev pub moves : Pipeline D → ℕ
  moves s = total results_ahead s.processors + 2 * length s.pre_submit + total is_posting s.sinkers

  abbrev pub Less : Pipeline D → Pipeline D → Type 0
  Less t s = (rounds t < rounds s) ⊎ ((rounds t ≡ rounds s) × (moves t < moves s))

  batches_positive : (p : Processor D) → is_over p ≡ false → 1 ≤ batches_ahead p
  batches_positive (gathering []) e = omega arith
  batches_positive (gathering (x ∷ xs)) e = omega arith
  batches_positive (sending true results) e = omega arith
  batches_positive (sending false results) e = omega arith
  batches_positive processor_ended e = cc

  batches_bounded : (p : Processor D) → batches_ahead p ≤ 3
  batches_bounded (gathering []) = omega arith
  batches_bounded (gathering (x ∷ xs)) = omega arith
  batches_bounded (sending true results) = omega arith
  batches_bounded (sending false results) = omega arith
  batches_bounded processor_ended = omega arith

  module _ (process : List Str → List D) (c : Config) where
    submit_bounded : (batch : List Str) → batches_ahead (submit process false batch) ≤ 2
    unfolding submit
    submit_bounded [] = omega arith
    submit_bounded (x ∷ xs) = omega arith

    submit_last :
        (batch : List Str)
        → batches_ahead (submit process true batch) < batches_ahead (gathering batch)
    unfolding submit
    submit_last [] = omega arith
    submit_last (x ∷ xs) = omega arith

    received-Less :
        (i : ℕ) (batch raws : List Str) (rest : List (List Str)) (s : Pipeline D)
        → get_elem? s.processors i ≡ some (gathering batch)
        → s.input ≡ raws ∷ rest
        → rounds (received process c i batch raws rest s) < rounds s
    unfolding received
    received-Less i batch raws rest s e k =
        elim (Bool-cases (leb c.process_batch_size (length (batch ++ raws)))) [
          | inl t ↦ rw t (
              omega (
                arith,
                ap (λ z. length z) k,
                batches_positive (gathering batch) refl,
                submit_bounded (batch ++ raws),
                total-set batches_ahead s.processors i (gathering batch)
                    (submit process false (batch ++ raws)) e,
              ))
          | inr f ↦ rw f (
              omega (
                arith,
                ap (λ z. length z) k,
                batches_positive (gathering batch) refl,
                batches_bounded (gathering (batch ++ raws)),
                total-set batches_ahead s.processors i (gathering batch) (gathering (batch ++ raws))
                    e,
              ))
        ]

    received-IsClosed :
        (i : ℕ) (batch raws : List Str) (rest : List (List Str)) (s : Pipeline D)
        → IsClosed s
        → IsClosed (received process c i batch raws rest s)
    unfolding received
    received-IsClosed i batch raws rest s h =
        elim (Bool-cases (leb c.process_batch_size (length (batch ++ raws)))) [
          | inl t ↦ rw t (record { closed = h.closed; ended = h.ended; asked = h.asked })
          | inr f ↦ rw f (record { closed = h.closed; ended = h.ended; asked = h.asked })
        ]

    not_running : (s : Pipeline D) → (stop s).1 ≡ true → s.running ≡ false → ⊥
    unfolding stop
    not_running s e f = ground (arith, e, f)

    -- After the input buffer is closed it stays so, and each step leaves fewer rounds, or as many and
    -- fewer moves.
    pub step-Less : (s t : Pipeline D) → Step process c s t → IsClosed s → IsClosed t × Less t s
    step-Less s t (Step.stopped e) h = absurd (not_running s e h.asked)
    step-Less s t (Step.loop_ended e f) h = ground (arith, e, h.ended)
    step-Less s t (Step.loop_went_on e f) h = ground (arith, e, h.ended)
    step-Less s t (Step.fetched_nothing e) h = ground (arith, e, h.ended)
    step-Less s t (Step.bulk_fetched e raw raws) h = ground (arith, e, h.ended)
    step-Less s t (Step.waited e) h = ground (arith, e, h.ended)
    step-Less s t (Step.shut_down e f) h = ground (arith, e, h.ended)
    step-Less s t (Step.took_bulk i batch raws rest e k) h =
        (received-IsClosed i batch raws rest s h, inl (received-Less i batch raws rest s e k))
    step-Less s t (Step.found_closed i batch e k f) h = (
      record { closed = h.closed; ended = h.ended; asked = h.asked },
      inl (
          omega (
            arith,
            submit_last batch,
            total-set batches_ahead s.processors i (gathering batch) (submit process true batch) e,
          )),
    )
    step-Less s t (Step.timed_out i item batch e) h = (
      record { closed = h.closed; ended = h.ended; asked = h.asked },
      inl (
          omega (
            arith,
            submit_bounded (item ∷ batch),
            total-set batches_ahead s.processors i (gathering (item ∷ batch))
                (submit process false (item ∷ batch)) e,
          )),
    )
    step-Less s t (Step.sent i true d results e room) h = (
      record { closed = h.closed; ended = h.ended; asked = h.asked },
      inr (
        omega (
          arith,
          total-set batches_ahead s.processors i (sending true (d ∷ results)) (sending true results)
              e,
        ),
        omega (
          arith,
          length-append s.pre_submit (d ∷ []),
          total-set results_ahead s.processors i (sending true (d ∷ results)) (sending true results)
              e,
        ),
      ),
    )
    step-Less s t (Step.sent i false d results e room) h = (
      record { closed = h.closed; ended = h.ended; asked = h.asked },
      inr (
        omega (
          arith,
          total-set batches_ahead s.processors i (sending false (d ∷ results))
              (sending false results) e,
        ),
        omega (
          arith,
          length-append s.pre_submit (d ∷ []),
          total-set results_ahead s.processors i (sending false (d ∷ results))
              (sending false results) e,
        ),
      ),
    )
    step-Less s t (Step.batch_done i true e) h = (
      record { closed = h.closed; ended = h.ended; asked = h.asked },
      inl (
          omega
            (arith, total-set batches_ahead s.processors i (sending true []) processor_ended e)),
    )
    step-Less s t (Step.batch_done i false e) h = (
      record { closed = h.closed; ended = h.ended; asked = h.asked },
      inl (
          omega
            (arith, total-set batches_ahead s.processors i (sending false []) (gathering []) e)),
    )
    step-Less s t (Step.processors_done e f) h = (
      record { closed = h.closed; ended = h.ended; asked = h.asked },
      inl (omega (arith, ap open_weight f)),
    )
    step-Less s t (Step.took_result j d rest e f) h = (
      record { closed = h.closed; ended = h.ended; asked = h.asked },
      inr (
        omega (arith, total-set still_open s.sinkers j receiving (posting d) e),
        omega
            (arith, ap (λ z. length z) f, total-set is_posting s.sinkers j receiving (posting d) e),
      ),
    )
    step-Less s t (Step.posted j d e) h = (
      record { closed = h.closed; ended = h.ended; asked = h.asked },
      inr (
        omega (arith, total-set still_open s.sinkers j (posting d) receiving e),
        omega (arith, total-set is_posting s.sinkers j (posting d) receiving e),
      ),
    )
    step-Less s t (Step.sinker_done j e f g) h = (
      record { closed = h.closed; ended = h.ended; asked = h.asked },
      inl (omega (arith, total-set still_open s.sinkers j receiving sinker_ended e)),
    )

    -- All runs from a state are finite.
    pub data Finite : Pipeline D → Type 0 where
      after : (s : Pipeline D) → ((t : Pipeline D) → Step process c s t → Finite t) → Finite s

    same_round :
        (n : ℕ)
        → ((t : Pipeline D) → rounds t < n → IsClosed t → Finite t)
        → (k : ℕ) (s : Pipeline D) → rounds s < suc n
        → moves s < k
        → IsClosed s
        → Finite s
    same_round n fewer zero s r m h = absurd (omega (arith, m))
    same_round n fewer (suc k) s r m h =
        after s (λ t e. go t (same_round n fewer k t) (step-Less s t e h))
      where
        go :
            (t : Pipeline D)
            → (rounds t < suc n → moves t < k → IsClosed t → Finite t)
            → IsClosed t × Less t s
            → Finite t
        go t again (h', inl less) = fewer t (omega (arith, less, r)) h'
        go t again (h', inr (same, less)) =
            again (omega (arith, same, r)) (omega (arith, less, m)) h'

    within : (n : ℕ) (s : Pipeline D) → rounds s < n → IsClosed s → Finite s
    within zero s r h = absurd (omega (arith, r))
    within (suc n) s r h = same_round n (within n) (suc (moves s)) s r (omega arith) h

    -- Once the filler has closed the input buffer, every run of the processors and the sinkers is
    -- finite, whatever `Process` makes of a batch.
    pub closed-Finite : (s : Pipeline D) → IsClosed s → Finite s
    closed-Finite s h = within (suc (rounds s)) s (omega arith) h
