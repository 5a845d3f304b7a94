-- ===== src/Producer/Pipeline/Conservation.antt =====
-- splitio/producer/task/pipelined.go: what becomes of the items that were fetched, and the bounds of
-- the buffers.
use split_synchronizer.Prelude.Str.{Str, str_eq}
use split_synchronizer.Prelude.Weights.{total, total-append, total-set}
use split_synchronizer.Prelude.{
  ℕ, zero, suc, ◌+◌, Bool, true, false, some, List, [], ◌∷◌, ◌++◌, if◌then◌else◌, length, get_elem?,
  set, replicate, leb, ltb, ◌==◌, ◌≡◌, refl, ap, arith, Bool-cases, inl, inr,
}
use split_synchronizer.Producer.Pipeline.{
  Config, Processor, gathering, sending, processor_ended, Pipeline, batch_of, start, stop, pushed,
  submit, received, submitted, with_batch, Step, Reachable,
}

-- How often an item stands in a list.
abbrev pub occurs : Str → List Str → ℕ
occurs x xs = total (λ y. if y == x then 1 else 0) xs

-- How often an item stands in the batches that were handed to `Process`.
abbrev pub handed : Str → List (List Str) → ℕ
handed x batches = total (λ b. occurs x b) batches

handed-with_batch :
    (x : Str) (batches : List (List Str)) (batch : List Str)
    → handed x (with_batch batches batch) ≡ handed x batches + occurs x batch
handed-with_batch x batches [] = omega arith
handed-with_batch x batches (item ∷ batch) =
    omega (arith, total-append (λ b. occurs x b) batches ((item ∷ batch) ∷ []))

gathered-start :
    (D : Type 0) (x : Str) (n : ℕ)
    → total (λ p. occurs x (batch_of p)) (replicate {A = Processor D} n (gathering [])) ≡ 0
gathered-start D x zero = refl
gathered-start D x (suc n) = omega (arith, gathered-start D x n)

module _ {D : Type 0} where
  abbrev pub buffered : Str → Pipeline D → ℕ
  buffered x s = total (λ raws. occurs x raws) s.input

  abbrev pub gathered : Str → Pipeline D → ℕ
  gathered x s = total (λ p. occurs x (batch_of p)) s.processors

  -- Each occurrence of an item that was fetched was dropped, waits in the input buffer or in a
  -- processor's batch, or was handed to `Process`.
  abbrev pub Accounted : Str → Pipeline D → Type 0
  Accounted x s =
      occurs x s.log.fetched
      ≡ occurs x s.log.dropped + buffered x s + gathered x s + handed x s.log.processed

  pushed-Accounted :
      (c : Config) (x : Str) (raws : List Str) (s : Pipeline D)
      → Accounted x s
      → Accounted x (pushed c raws s)
  unfolding pushed
  pushed-Accounted c x raws s h = elim (Bool-cases (ltb (length s.input) c.input_buffer_size)) [
    | inl t ↦ rw t (
        omega (
          arith,
          h,
          total-append (λ y. if y == x then 1 else 0) s.log.fetched raws,
          total-append (λ r. occurs x r) s.input (raws ∷ []),
        ))
    | inr f ↦ rw f (
        omega (
          arith,
          h,
          total-append (λ y. if y == x then 1 else 0) s.log.fetched raws,
          total-append (λ y. if y == x then 1 else 0) s.log.dropped raws,
        ))
  ]

  module _ (process : List Str → List D) where
    occurs-submit :
        (x : Str) (last : Bool) (batch : List Str)
        → occurs x (batch_of (submit process last batch)) ≡ 0
    unfolding submit
    occurs-submit x false [] = refl
    occurs-submit x true [] = refl
    occurs-submit x false (i ∷ b) = refl
    occurs-submit x true (i ∷ b) = refl

    submitted-Accounted :
        (x : Str) (last : Bool) (i : ℕ) (batch : List Str) (s : Pipeline D)
        → get_elem? s.processors i ≡ some (gathering batch)
        → Accounted x s
        → Accounted x (submitted process last i batch s)
    submitted-Accounted x last i batch s e h = omega (
      arith,
      h,
      handed-with_batch x s.log.processed batch,
      occurs-submit x last batch,
      total-set (λ p. occurs x (batch_of p)) s.processors i (gathering batch)
          (submit process last batch) e,
    )

    received-Accounted :
        (c : Config) (x : Str) (i : ℕ) (batch raws : List Str) (rest : List (List Str))
        (s : Pipeline D)
        → get_elem? s.processors i ≡ some (gathering batch)
        → s.input ≡ raws ∷ rest
        → Accounted x s
        → Accounted x (received process c i batch raws rest s)
    unfolding received
    received-Accounted c x i batch raws rest s e k h =
        let all_in = total-append (λ y. if y == x then 1 else 0) batch raws in
        let w : Processor D → ℕ = λ p. occurs x (batch_of p) in
        elim (Bool-cases (leb c.process_batch_size (length (batch ++ raws)))) [
          | inl t ↦ rw t (
              omega (
                arith,
                h,
                all_in,
                ap (λ z. total (λ r. occurs x r) z) k,
                handed-with_batch x s.log.processed (batch ++ raws),
                occurs-submit x false (batch ++ raws),
                total-set w s.processors i (gathering batch) (submit process false (batch ++ raws))
                    e,
              ))
          | inr f ↦ rw f (
              omega (
                arith,
                h,
                all_in,
                ap (λ z. total (λ r. occurs x r) z) k,
                total-set w s.processors i (gathering batch) (gathering (batch ++ raws)) e,
              ))
        ]

    stop-Accounted : (x : Str) (s : Pipeline D) → Accounted x s → Accounted x (stop s).0
    unfolding stop
    stop-Accounted x s h = elim (Bool-cases s.running) [ inl t ↦ rw t h | inr f ↦ rw f h ]

    set-Accounted :
        (x : Str) (i : ℕ) (p q : Processor D) (s : Pipeline D)
        → get_elem? s.processors i ≡ some p
        → batch_of p ≡ batch_of q
        → Accounted x s
        → Accounted x (record s { processors = set s.processors i q })
    set-Accounted x i p q s e same h = omega (
      arith,
      h,
      ap (λ b. occurs x b) same,
      total-set (λ r. occurs x (batch_of r)) s.processors i p q e,
    )

    step-Accounted :
        (c : Config) (x : Str) (s t : Pipeline D)
        → Step process c s t
        → Accounted x s
        → Accounted x t
    step-Accounted c x s t (Step.stopped e) h = stop-Accounted x s h
    step-Accounted c x s t (Step.loop_ended e f) h = h
    step-Accounted c x s t (Step.loop_went_on e f) h = h
    step-Accounted c x s t (Step.fetched_nothing e) h = h
    step-Accounted c x s t (Step.bulk_fetched e raw raws) h = pushed-Accounted c x (raw ∷ raws) s h
    step-Accounted c x s t (Step.waited e) h = h
    step-Accounted c x s t (Step.shut_down e f) h = h
    step-Accounted c x s t (Step.took_bulk i batch raws rest e k) h =
        received-Accounted c x i batch raws rest s e k h
    step-Accounted c x s t (Step.found_closed i batch e k f) h =
        submitted-Accounted x true i batch s e h
    step-Accounted c x s t (Step.timed_out i item batch e) h =
        submitted-Accounted x false i (item ∷ batch) s e h
    step-Accounted c x s t (Step.sent i last d results e room) h =
        set-Accounted x i (sending last (d ∷ results)) (sending last results) s e refl h
    step-Accounted c x s t (Step.batch_done i true e) h =
        set-Accounted x i (sending true []) processor_ended s e refl h
    step-Accounted c x s t (Step.batch_done i false e) h =
        set-Accounted x i (sending false []) (gathering []) s e refl h
    step-Accounted c x s t (Step.processors_done e f) h = h
    step-Accounted c x s t (Step.took_result j d rest e f) h = h
    step-Accounted c x s t (Step.posted j d e) h = h
    step-Accounted c x s t (Step.sinker_done j e f g) h = h

    pub Reachable-Accounted :
        (c : Config) (s : Pipeline D) (x : Str) → Reachable process c s → Accounted x s
    unfolding start
    Reachable-Accounted c s x Reachable.at_start =
        omega (arith, gathered-start D x c.process_concurrency)
    Reachable-Accounted c s x (Reachable.step a t r e) =
        step-Accounted c x a t e (Reachable-Accounted c a x r)
