-- ===== src/Producer/Pipeline/Stopping.antt =====
-- splitio/producer/task/pipelined.go: a `Stop` that comes while the filler is in a fetch that brings
-- something. The loop ends at its test, and nothing closes the input buffer.
use split_synchronizer.Prelude.Str.{Str}
use split_synchronizer.Prelude.{
  ℕ, true, false, List, ◌∷◌, ◌++◌, length, ltb, leb, All, All-weaken, ◌⊎◌, ◌≡◌, refl, subst, ◌∙◌,
  arith, Bool-cases, inl, inr,
}
use split_synchronizer.Producer.Pipeline.Sound.{OverWhenClosed, still_open, Reachable-IsSound}
use split_synchronizer.Producer.Pipeline.{
  Config, filler_ended, testing, fetching, Processor, gathering, sending, processor_ended, Pipeline,
  is_over, stop, pushed, received, Step, Reachable,
}

module _ {D : Type 0} (process : List Str → List D) (c : Config) where
  pub data Runs : Pipeline D → Pipeline D → Type 0 where
    here : (s : Pipeline D) → Runs s s
    on : (s t u : Pipeline D) → Runs s t → Step process c t u → Runs s u

  -- Stopped, and the filler out of the wait in which it would see that.
  abbrev pub IsStuck : Pipeline D → Type 0
  IsStuck s =
      (s.input_closed ≡ false)
      × (s.running ≡ false)
      × ((s.filler ≡ testing) ⊎ (s.filler ≡ filler_ended))

  received-IsStuck :
      (s : Pipeline D) (i : ℕ) (batch raws : List Str) (rest : List (List Str))
      → IsStuck s
      → IsStuck (received process c i batch raws rest s)
  unfolding received
  received-IsStuck s i batch raws rest h =
      elim (Bool-cases (leb c.process_batch_size (length (batch ++ raws)))) [
        | inl t ↦ rw t h
        | inr f ↦ rw f h
      ]

  stop_again : (s : Pipeline D) → (stop s).1 ≡ true → s.running ≡ false → ⊥
  unfolding stop
  stop_again s e f = ground (arith, e, f)

  step-IsStuck : (s t : Pipeline D) → Step process c s t → IsStuck s → IsStuck t
  step-IsStuck s t (Step.stopped e) h = absurd (stop_again s e h.1)
  step-IsStuck s t (Step.loop_ended e f) h = (h.0, h.1, inr refl)
  step-IsStuck s t (Step.loop_went_on e f) h = ground (arith, f, h.1)
  step-IsStuck s t (Step.fetched_nothing e) h = ground (arith, e, h.2)
  step-IsStuck s t (Step.bulk_fetched e raw raws) h = ground (arith, e, h.2)
  step-IsStuck s t (Step.waited e) h = ground (arith, e, h.2)
  step-IsStuck s t (Step.shut_down e f) h = ground (arith, e, h.2)
  step-IsStuck s t (Step.took_bulk i batch raws rest e k) h = received-IsStuck s i batch raws rest h
  step-IsStuck s t (Step.found_closed i batch e k f) h = h
  step-IsStuck s t (Step.timed_out i item batch e) h = h
  step-IsStuck s t (Step.sent i last d results e room) h = h
  step-IsStuck s t (Step.batch_done i last e) h = h
  step-IsStuck s t (Step.processors_done e f) h = h
  step-IsStuck s t (Step.took_result j d rest e f) h = h
  step-IsStuck s t (Step.posted j d e) h = h
  step-IsStuck s t (Step.sinker_done j e f g) h = h

  Runs-IsStuck : (s u : Pipeline D) → Runs s u → IsStuck s → IsStuck u
  Runs-IsStuck s u (Runs.here t) h = h
  Runs-IsStuck s u (Runs.on a t b r e) h = step-IsStuck t u e (Runs-IsStuck s t r h)

  Runs-Reachable : (s u : Pipeline D) → Runs s u → Reachable process c s → Reachable process c u
  Runs-Reachable s u (Runs.here t) h = h
  Runs-Reachable s u (Runs.on a t b r e) h = Reachable.step t u (Runs-Reachable s t r h) e

  stop_accepted : (s : Pipeline D) → s.running ≡ true → (stop s).1 ≡ true
  unfolding stop
  stop_accepted s e = ground (arith, e)

  fetching-stop : (s : Pipeline D) → s.filler ≡ fetching → (stop s).0.filler ≡ fetching
  unfolding stop
  fetching-stop s e = ground (arith, e)

  stopped_fields :
      (s : Pipeline D)
      → s.running ≡ true
      → ((stop s).0.running ≡ false) × ((stop s).0.input_closed ≡ s.input_closed)
  unfolding stop
  stopped_fields s e = (ground (arith, e), ground (arith, e))

  pushed-IsStuck :
      (s : Pipeline D) (raws : List Str)
      → s.running ≡ false
      → s.input_closed ≡ false
      → IsStuck (pushed c raws s)
  unfolding pushed
  pushed-IsStuck s raws e o = elim (Bool-cases (ltb (length s.input) c.input_buffer_size)) [
    | inl t ↦ rw t (o, e, inl refl)
    | inr f ↦ rw f (o, e, inl refl)
  ]

  not_over :
      (input : List (List Str)) (p : Processor D) → OverWhenClosed false input p → is_over p ≡ false
  not_over input (gathering batch) h = refl
  not_over input (sending last results) h = refl
  not_over input processor_ended h = absurd (ground (arith, h refl))

  -- When `Stop` comes during a fetch that brings something, no later step closes the input buffer or
  -- ends a processor.
  pub stop_in_fetch :
      (s : Pipeline D)
      → Reachable process c s
      → s.running ≡ true
      → s.filler ≡ fetching
      → (raw : Str) (raws : List Str) (u : Pipeline D) → Runs (pushed c (raw ∷ raws) (stop s).0) u
      → (u.input_closed ≡ false) × All (λ p. is_over p ≡ false) u.processors
  stop_in_fetch s r e f raw raws u run =
      let open_input : s.input_closed ≡ false =
        still_open process c s (Reachable-IsSound process c s r) fetching f (λ k. cc) in
      let stopped : Reachable process c (stop s).0 =
        Reachable.step s _ r (Step.stopped (stop_accepted s e)) in
      let after : Reachable process c (pushed c (raw ∷ raws) (stop s).0) =
        Reachable.step _ _ stopped (Step.bulk_fetched (fetching-stop s f) raw raws) in
      let stuck = Runs-IsStuck _ u run (
        pushed-IsStuck (stop s).0 (raw ∷ raws) (stopped_fields s e).0
          ((stopped_fields s e).1 ∙ open_input)) in
      let sound = Reachable-IsSound process c u (Runs-Reachable _ u run after) in
      (
        stuck.0,
        All-weaken (OverWhenClosed false u.input) (λ p. is_over p ≡ false) (not_over u.input)
            u.processors
            (subst (λ b. All (OverWhenClosed b u.input) u.processors) stuck.0 sound.over),
      )
