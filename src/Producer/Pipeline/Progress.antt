-- ===== src/Producer/Pipeline/Progress.antt =====
-- splitio/producer/task/pipelined.go: with the input buffer closed, some goroutine can move until all
-- have ended, and then nothing is left in a buffer.
use split_synchronizer.Prelude.Str.{Str, str_eq}
use split_synchronizer.Prelude.Weights.{total, find_position}
use split_synchronizer.Prelude.{
  ℕ, ◌+◌, ◌*◌, ◌<◌, Bool, true, false, not, some, List, [], ◌∷◌, length, get_elem?, All,
  All-get_elem?, nat_beq, ◌⊎◌, ◌≡◌, refl, ap, arith, Bool-cases, inl, inr,
}
use split_synchronizer.Producer.Pipeline.Conservation.{occurs, handed, Reachable-Accounted}
use split_synchronizer.Producer.Pipeline.Delivery.{made, unsent, unposted, Reachable-Delivered}
use split_synchronizer.Producer.Pipeline.Draining.{IsClosed, Finite, step-Less, closed-Finite}
use split_synchronizer.Producer.Pipeline.Sound.{
  OverWhenClosed, DoneWhenClosed, IsSound, Reachable-IsSound,
}
use split_synchronizer.Producer.Pipeline.{
  Config, Processor, gathering, sending, processor_ended, Sinker, receiving, posting, sinker_ended,
  Pipeline, filler_ended, batch_of, is_over, sinker_is_over, Step, Reachable,
}

module _ {D : Type 0} (process : List Str → List D) (c : Config) where
  abbrev pub CanStep : Pipeline D → Type 0
  CanStep s = (t : Pipeline D) × Step process c s t

  -- All goroutines ended, and nothing is left in a buffer.
  pub record IsDrained (s : Pipeline D) : Type 0 where
    pub filler_over : s.filler ≡ filler_ended
    pub processors_over : All (λ p. is_over p ≡ true) s.processors
    pub sinkers_over : All (λ k. sinker_is_over k ≡ true) s.sinkers
    pub input_empty : s.input ≡ []
    pub pre_submit_empty : s.pre_submit ≡ []

  All-is_true :
      {A : Type 0} (f : A → Bool) (xs : List A)
      → All (λ x. not (f x) ≡ false) xs
      → All (λ x. f x ≡ true) xs
  All-is_true f [] h = tt
  All-is_true f (x ∷ xs) h = (ground (arith, h.0), All-is_true f xs h.1)

  -- A processor that is not over can move, when the sink has room.
  processor_moves :
      (s : Pipeline D) (i : ℕ) (p : Processor D)
      → get_elem? s.processors i ≡ some p
      → not (is_over p) ≡ true
      → s.input_closed ≡ true
      → length s.pre_submit < c.post_concurrency * 4
      → CanStep s
  processor_moves s i (gathering batch) e n o room = go s.input refl
    where
      go : (input : List (List Str)) → s.input ≡ input → CanStep s
      go [] k = (_, Step.found_closed i batch e k o)
      go (raws ∷ rest) k = (_, Step.took_bulk i batch raws rest e k)
  processor_moves s i (sending last []) e n o room = (_, Step.batch_done i last e)
  processor_moves s i (sending last (d ∷ results)) e n o room =
      (_, Step.sent i last d results e room)
  processor_moves s i processor_ended e n o room = absurd cc

  -- A sinker that is not over can move, when there is a result or the sink is closed.
  sinker_moves :
      (s : Pipeline D) (j : ℕ) (k : Sinker D)
      → get_elem? s.sinkers j ≡ some k
      → not (sinker_is_over k) ≡ true
      → s.pre_submit_closed ≡ true ⊎ (length s.pre_submit ≡ 0 → ⊥)
      → CanStep s
  sinker_moves s j (posting d) e n o = (_, Step.posted j d e)
  sinker_moves s j sinker_ended e n o = absurd cc
  sinker_moves s j receiving e n o = go s.pre_submit refl
    where
      go : (pre : List D) → s.pre_submit ≡ pre → CanStep s
      go (d ∷ rest) k = (_, Step.took_result j d rest e k)
      go [] k = elim o [
        | inl closed ↦ (_, Step.sinker_done j e k closed)
        | inr some_left ↦ absurd (some_left (ap (λ z. length z) k))
      ]

  first :
      {A : Type 0} (P : A → Type 0) (xs : List A)
      → 0 < length xs
      → All P xs
      → (x : A) × P x × (get_elem? xs 0 ≡ some x)
  first P [] n h = absurd (omega (arith, n))
  first P (x ∷ xs) n h = (x, h.0, refl)

  when_over :
      (s : Pipeline D)
      → IsSound c s
      → s.input_closed ≡ true
      → 0 < c.process_concurrency
      → 0 < c.post_concurrency
      → All (λ k. sinker_is_over k ≡ true) s.sinkers
      → IsDrained s
  when_over s h o n m over =
      let (k, ko, ke) =
        first (λ r. sinker_is_over r ≡ true) s.sinkers (omega (arith, h.sinkers)) over in
      let sunk =
        All-get_elem? (DoneWhenClosed s.pre_submit_closed s.pre_submit) s.sinkers 0 k h.sunk ke
          ko in
      let processors_over = h.done sunk.0 in
      let (p, po, pe) =
        first (λ r. is_over r ≡ true) s.processors (omega (arith, h.processors)) processors_over in
      record {
        filler_over = (h.closed o).0;
        processors_over = processors_over;
        sinkers_over = over;
        input_empty =
            (last_empty p po
              (All-get_elem? (OverWhenClosed s.input_closed s.input) s.processors 0 p h.over pe));
        pre_submit_empty = sunk.1;
      }
    where
      last_empty :
          (p : Processor D)
          → is_over p ≡ true
          → OverWhenClosed s.input_closed s.input p
          → s.input ≡ []
      last_empty (gathering batch) e w = absurd cc
      last_empty (sending last results) e w = absurd cc
      last_empty processor_ended e w = (w refl).1

  progress :
      (s : Pipeline D)
      → IsSound c s
      → s.input_closed ≡ true
      → 0 < c.process_concurrency
      → 0 < c.post_concurrency
      → CanStep s ⊎ IsDrained s
  progress s h o n m = elim (find_position (λ k. not (sinker_is_over k)) s.sinkers) [
    | inr over ↦ inr (when_over s h o n m (All-is_true sinker_is_over s.sinkers over))
    | inl (j, k, e, t) ↦ elim (Bool-cases (nat_beq (length s.pre_submit) 0)) [
      | inr some_left ↦ inl (sinker_moves s j k e t (inr (λ z. ground (arith, z, some_left))))
      | inl empty ↦ elim (find_position (λ p. not (is_over p)) s.processors) [
        | inl (i, p, pe, pt) ↦ inl (processor_moves s i p pe pt o (ground (arith, empty, m)))
        | inr over ↦ elim (Bool-cases s.pre_submit_closed) [
          | inl closed ↦ inl (sinker_moves s j k e t (inl closed))
          | inr open_sink ↦
              inl (_, Step.processors_done (All-is_true is_over s.processors over) open_sink)
        ]
      ]
    ]
  ]

  gathered_over :
      (x : Str) (ps : List (Processor D))
      → All (λ p. is_over p ≡ true) ps
      → total (λ p. occurs x (batch_of p)) ps ≡ 0
  gathered_over x [] h = refl
  gathered_over x (processor_ended ∷ ps) h = omega (arith, gathered_over x ps h.1)
  gathered_over x (gathering batch ∷ ps) h = absurd (ground (arith, h.0))
  gathered_over x (sending last results ∷ ps) h = absurd (ground (arith, h.0))

  nothing_unsent :
      (w : D → ℕ) (ps : List (Processor D))
      → All (λ p. is_over p ≡ true) ps
      → unsent process w ps ≡ 0
  nothing_unsent w [] h = refl
  nothing_unsent w (processor_ended ∷ ps) h = omega (arith, nothing_unsent w ps h.1)
  nothing_unsent w (gathering batch ∷ ps) h = absurd (ground (arith, h.0))
  nothing_unsent w (sending last results ∷ ps) h = absurd (ground (arith, h.0))

  nothing_unposted :
      (w : D → ℕ) (ks : List (Sinker D))
      → All (λ k. sinker_is_over k ≡ true) ks
      → unposted process w ks ≡ 0
  nothing_unposted w [] h = refl
  nothing_unposted w (sinker_ended ∷ ks) h = omega (arith, nothing_unposted w ks h.1)
  nothing_unposted w (receiving ∷ ks) h = absurd (ground (arith, h.0))
  nothing_unposted w (posting d ∷ ks) h = absurd (ground (arith, h.0))

  -- Drained, with each item that was fetched dropped or handed to `Process`, as often as it was
  -- fetched, and all that `Process` made of the batches handed to a post, by any weight of the results.
  abbrev pub Finished : Pipeline D → Type 0
  Finished s =
      IsDrained s
      × ((x : Str) → occurs x s.log.fetched ≡ occurs x s.log.dropped + handed x s.log.processed)
      × ((w : D → ℕ) → made process w s.log.processed ≡ total w s.log.posted)

  -- Whatever the scheduler does, the run goes on until it is finished, and does so.
  pub data Drains : Pipeline D → Type 0 where
    drains :
        (s : Pipeline D)
        → CanStep s ⊎ Finished s
        → ((t : Pipeline D) → Step process c s t → Drains t)
        → Drains s

  drained-Finished : (s : Pipeline D) → Reachable process c s → IsDrained s → Finished s
  drained-Finished s r d = (
    d,
    λ x. omega (
      arith,
      Reachable-Accounted process c s x r,
      ap (λ z. total (λ raws. occurs x raws) z) d.input_empty,
      gathered_over x s.processors d.processors_over,
    ),
    λ w. omega (
      arith,
      Reachable-Delivered process w c s r,
      ap (λ z. total w z) d.pre_submit_empty,
      nothing_unsent w s.processors d.processors_over,
      nothing_unposted w s.sinkers d.sinkers_over,
    ),
  )

  Finite-Drains :
      (s : Pipeline D)
      → Finite process c s
      → Reachable process c s
      → s.input_closed ≡ true
      → 0 < c.process_concurrency
      → 0 < c.post_concurrency
      → Drains s
  Finite-Drains s (Finite.after u f) r o n m =
      drains s
        (elim (progress s (Reachable-IsSound process c s r) o n m) [
          | inl moves ↦ inl moves
          | inr d ↦ inr (drained-Finished s r d)
        ])
        (λ t e. Finite-Drains t (f t e) (Reachable.step s t r e) (stays_closed t e) n m)
    where
      h : IsSound c s
      h = Reachable-IsSound process c s r

      stays_closed : (t : Pipeline D) → Step process c s t → t.input_closed ≡ true
      stays_closed t e =
          let w : IsClosed s = record {
            closed = o;
            ended = (h.closed o).0;
            asked = (h.closed o).1;
          } in
          (step-Less process c s t e w).0.closed

  -- Once the filler has closed the input buffer, and with a processor and a sinker at least, every run
  -- comes to an end, in which all goroutines have ended, no buffer holds anything, each item that was
  -- fetched was either dropped or handed to `Process`, and all that `Process` made of the batches was
  -- handed to a post, by any weight of the results.
  pub closed-Drains :
      (s : Pipeline D)
      → Reachable process c s
      → s.input_closed ≡ true
      → 0 < c.process_concurrency
      → 0 < c.post_concurrency
      → Drains s
  closed-Drains s r o n m =
      let h = Reachable-IsSound process c s r in
      Finite-Drains s
        (closed-Finite process c s
          (record { closed = o; ended = (h.closed o).0; asked = (h.closed o).1 }))
        r o n m
