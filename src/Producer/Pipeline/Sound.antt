-- ===== src/Producer/Pipeline/Sound.antt =====
-- splitio/producer/task/pipelined.go: which channels are closed when, and which goroutines ended.
use split_synchronizer.Prelude.Str.{Str}
use split_synchronizer.Prelude.{
  ℕ, Bool, true, false, some, List, [], ◌∷◌, ◌++◌, length, length-set, length-replicate, get_elem?,
  set, All, All-set, All-get_elem?, All-weaken, All-replicate, leb, ltb, ◌≡◌, refl, sym, ◌∙◌, arith,
  Bool-cases, inl, inr, ◌≢◌,
}
use split_synchronizer.Producer.Pipeline.{
  Config, Filler, filler_ended, testing, fetching, waiting, Processor, gathering, sending,
  processor_ended, Log, Sinker, receiving, posting, sinker_ended, Pipeline, is_over, sinker_is_over,
  start, stop, pushed, submit, received, Step, Reachable,
}

module _ {D : Type 0} where
  -- A processor that found the input buffer closed: it sends its last batch, or ended.
  abbrev pub is_last : Processor D → Bool
  is_last (gathering batch) = false
  is_last (sending last results) = last
  is_last processor_ended = true

  abbrev pub OverWhenClosed : Bool → List (List Str) → Processor D → Type 0
  OverWhenClosed input_closed input p = is_last p ≡ true → (input_closed ≡ true) × (input ≡ [])

  abbrev pub DoneWhenClosed : Bool → List D → Sinker D → Type 0
  DoneWhenClosed closed pre_submit k = sinker_is_over k ≡ true → (closed ≡ true) × (pre_submit ≡ [])

  -- The filler closes the input buffer as it ends, after `Stop`; a processor makes its last batch once the buffer is
  -- closed and empty; the sink is closed once all processors ended, and a sinker ends once the sink
  -- is closed and empty.
  pub record IsSound (c : Config) (s : Pipeline D) : Type 0 where
    pub asked : s.shutdown ≡ true → s.running ≡ false
    pub closed : s.input_closed ≡ true → (s.filler ≡ filler_ended) × (s.running ≡ false)
    pub over : All (OverWhenClosed s.input_closed s.input) s.processors
    pub done : s.pre_submit_closed ≡ true → All (λ p. is_over p ≡ true) s.processors
    pub sunk : All (DoneWhenClosed s.pre_submit_closed s.pre_submit) s.sinkers
    pub processors : length s.processors ≡ c.process_concurrency
    pub sinkers : length s.sinkers ≡ c.post_concurrency

  module _ (process : List Str → List D) (c : Config) where
    stop-IsSound : (s : Pipeline D) → IsSound c s → IsSound c (stop s).0
    unfolding stop
    stop-IsSound s h = elim (Bool-cases s.running) [
      | inl t ↦ rw t (record {
        asked = λ e. refl;
        closed = λ e. ground (arith, h.closed e, t);
        over = h.over;
        done = h.done;
        sunk = h.sunk;
        processors = h.processors;
        sinkers = h.sinkers;
      })
      | inr f ↦ simp f h
    ]

    -- A filler that has not ended has not closed the input buffer.
    pub still_open :
        (s : Pipeline D)
        → IsSound c s
        → (f : Filler) → s.filler ≡ f
        → f ≢ filler_ended
        → s.input_closed ≡ false
    still_open s h f e n = elim (Bool-cases s.input_closed) [
      | inl t ↦ absurd (n (sym e ∙ (h.closed t).0))
      | inr o ↦ o
    ]

    filler-IsSound :
        (s : Pipeline D) (f : Filler)
        → s.input_closed ≡ false
        → IsSound c s
        → IsSound c (record s { filler = f })
    filler-IsSound s f o h = record {
      asked = h.asked;
      closed = λ e. absurd (ground (arith, e, o));
      over = h.over;
      done = h.done;
      sunk = h.sunk;
      processors = h.processors;
      sinkers = h.sinkers;
    }

    -- A processor that is over under an open buffer does not exist.
    none_over :
        (s : Pipeline D) (closed' : Bool) (input' : List (List Str))
        → s.input_closed ≡ false
        → IsSound c s
        → All (OverWhenClosed closed' input') s.processors
    none_over s closed' input' o h =
        All-weaken (OverWhenClosed s.input_closed s.input) (OverWhenClosed closed' input')
          (λ p k e. absurd (ground (arith, (k e).0, o))) s.processors h.over

    pushed-IsSound :
        (s : Pipeline D) (raws : List Str)
        → s.input_closed ≡ false
        → IsSound c s
        → IsSound c (pushed c raws s)
    unfolding pushed
    pushed-IsSound s raws o h = elim (Bool-cases (ltb (length s.input) c.input_buffer_size)) [
      | inl t ↦ rw t (record {
        asked = h.asked;
        closed = λ e. absurd (ground (arith, e, o));
        over = none_over s s.input_closed (s.input ++ raws ∷ []) o h;
        done = h.done;
        sunk = h.sunk;
        processors = h.processors;
        sinkers = h.sinkers;
      })
      | inr f ↦ rw f (record {
        asked = h.asked;
        closed = λ e. absurd (ground (arith, e, o));
        over = h.over;
        done = h.done;
        sunk = h.sunk;
        processors = h.processors;
        sinkers = h.sinkers;
      })
    ]

    shut_down-IsSound :
        (s : Pipeline D)
        → s.input_closed ≡ false
        → s.shutdown ≡ true
        → IsSound c s
        → IsSound c (record s { shutdown = false; input_closed = true; filler = filler_ended })
    shut_down-IsSound s o e h = record {
      asked = λ f. absurd cc;
      closed = λ f. (refl, h.asked e);
      over = none_over s true s.input o h;
      done = h.done;
      sunk = h.sunk;
      processors = h.processors;
      sinkers = h.sinkers;
    }

    -- One processor moves that is not over: the sink is open then.
    processor-IsSound :
        (s : Pipeline D) (i : ℕ) (p q : Processor D) (input' : List (List Str)) (pre' : List D)
        (log' : Log D)
        → get_elem? s.processors i ≡ some p
        → is_over p ≡ false
        → (s.input ≡ [] → input' ≡ [])
        → OverWhenClosed s.input_closed input' q
        → IsSound c s
        → IsSound c (record s {
          input = input';
          processors = set s.processors i q;
          pre_submit = pre';
          log = log';
        })
    processor-IsSound s i p q input' pre' log' e n empty hq h =
        let open_sink : s.pre_submit_closed ≡ true → ⊥ = λ t.
          ground (arith, n, All-get_elem? (λ r. is_over r ≡ true) s.processors i p (h.done t) e) in
        record {
          asked = h.asked;
          closed = h.closed;
          over =
              All-set (OverWhenClosed s.input_closed input') s.processors i q
                (All-weaken (OverWhenClosed s.input_closed s.input)
                  (OverWhenClosed s.input_closed input') (λ r k o. ((k o).0, empty (k o).1))
                  s.processors h.over)
                hq;
          done = λ t. absurd (open_sink t);
          sunk =
              All-weaken (DoneWhenClosed s.pre_submit_closed s.pre_submit)
                (DoneWhenClosed s.pre_submit_closed pre') (λ r k o. absurd (open_sink (k o).0))
                s.sinkers h.sunk;
          processors = length-set s.processors i q ∙ h.processors;
          sinkers = h.sinkers;
        }

    sinker-IsSound :
        (s : Pipeline D) (j : ℕ) (q : Sinker D) (pre' : List D) (log' : Log D)
        → (s.pre_submit ≡ [] → pre' ≡ [])
        → DoneWhenClosed s.pre_submit_closed pre' q
        → IsSound c s
        → IsSound c (record s { sinkers = set s.sinkers j q; pre_submit = pre'; log = log' })
    sinker-IsSound s j q pre' log' empty hq h = record {
      asked = h.asked;
      closed = h.closed;
      over = h.over;
      done = h.done;
      sunk =
          All-set (DoneWhenClosed s.pre_submit_closed pre') s.sinkers j q
            (All-weaken (DoneWhenClosed s.pre_submit_closed s.pre_submit)
              (DoneWhenClosed s.pre_submit_closed pre') (λ r k o. ((k o).0, empty (k o).1))
              s.sinkers h.sunk)
            hq;
      processors = h.processors;
      sinkers = length-set s.sinkers j q ∙ h.sinkers;
    }

    submit_goes_on : (batch : List Str) → is_last (submit process false batch) ≡ false
    unfolding submit
    submit_goes_on [] = refl
    submit_goes_on (x ∷ xs) = refl

    received-IsSound :
        (s : Pipeline D) (i : ℕ) (batch raws : List Str) (rest : List (List Str))
        → get_elem? s.processors i ≡ some (gathering batch)
        → s.input ≡ raws ∷ rest
        → IsSound c s
        → IsSound c (received process c i batch raws rest s)
    unfolding received
    received-IsSound s i batch raws rest e k h =
        elim (Bool-cases (leb c.process_batch_size (length (batch ++ raws)))) [
          | inl t ↦ rw t (
              processor-IsSound s i (gathering batch) (submit process false (batch ++ raws)) rest
                s.pre_submit _ e refl (λ n. absurd cc)
                (λ o. absurd (ground (arith, o, submit_goes_on (batch ++ raws)))) h)
          | inr f ↦ rw f (
              processor-IsSound s i (gathering batch) (gathering (batch ++ raws)) rest s.pre_submit
                s.log e refl (λ n. absurd cc) (λ o. absurd cc) h)
        ]

    pub step-IsSound : (s t : Pipeline D) → Step process c s t → IsSound c s → IsSound c t
    step-IsSound s t (Step.stopped e) h = stop-IsSound s h
    step-IsSound s t (Step.loop_ended e f) h =
        filler-IsSound s filler_ended (still_open s h testing e (λ k. cc)) h
    step-IsSound s t (Step.loop_went_on e f) h =
        filler-IsSound s fetching (still_open s h testing e (λ k. cc)) h
    step-IsSound s t (Step.fetched_nothing e) h =
        filler-IsSound s waiting (still_open s h fetching e (λ k. cc)) h
    step-IsSound s t (Step.bulk_fetched e raw raws) h =
        pushed-IsSound s (raw ∷ raws) (still_open s h fetching e (λ k. cc)) h
    step-IsSound s t (Step.waited e) h =
        filler-IsSound s testing (still_open s h waiting e (λ k. cc)) h
    step-IsSound s t (Step.shut_down e f) h =
        shut_down-IsSound s (still_open s h waiting e (λ k. cc)) f h
    step-IsSound s t (Step.took_bulk i batch raws rest e k) h =
        received-IsSound s i batch raws rest e k h
    step-IsSound s t (Step.found_closed i batch e k f) h =
        processor-IsSound s i (gathering batch) (submit process true batch) s.input s.pre_submit _ e
          refl (λ n. n) (λ o. (f, k)) h
    step-IsSound s t (Step.timed_out i item batch e) h =
        processor-IsSound s i (gathering (item ∷ batch)) (submit process false (item ∷ batch))
          s.input s.pre_submit _ e refl (λ n. n)
          (λ o. absurd (ground (arith, o, submit_goes_on (item ∷ batch)))) h
    step-IsSound s t (Step.sent i last d results e room) h =
        processor-IsSound s i (sending last (d ∷ results)) (sending last results) s.input
          (s.pre_submit ++ d ∷ []) s.log e refl (λ n. n)
          (All-get_elem? (OverWhenClosed s.input_closed s.input) s.processors i
            (sending last (d ∷ results)) h.over e)
          h
    step-IsSound s t (Step.batch_done i true e) h =
        processor-IsSound s i (sending true []) processor_ended s.input s.pre_submit s.log e refl
          (λ n. n)
          (All-get_elem? (OverWhenClosed s.input_closed s.input) s.processors i (sending true [])
            h.over e)
          h
    step-IsSound s t (Step.batch_done i false e) h =
        processor-IsSound s i (sending false []) (gathering []) s.input s.pre_submit s.log e refl
          (λ n. n) (λ o. absurd cc) h
    step-IsSound s t (Step.processors_done e f) h = record {
      asked = h.asked;
      closed = h.closed;
      over = h.over;
      done = λ k. e;
      sunk =
          All-weaken (DoneWhenClosed s.pre_submit_closed s.pre_submit)
            (DoneWhenClosed true s.pre_submit) (λ r k o. (refl, (k o).1)) s.sinkers h.sunk;
      processors = h.processors;
      sinkers = h.sinkers;
    }
    step-IsSound s t (Step.took_result j d rest e f) h =
        sinker-IsSound s j (posting d) rest s.log (λ n. absurd cc) (λ o. absurd cc) h
    step-IsSound s t (Step.posted j d e) h =
        sinker-IsSound s j receiving s.pre_submit _ (λ n. n) (λ o. absurd cc) h
    step-IsSound s t (Step.sinker_done j e f g) h =
        sinker-IsSound s j sinker_ended s.pre_submit s.log (λ n. n) (λ o. (g, f)) h

    pub Reachable-IsSound : (s : Pipeline D) → Reachable process c s → IsSound c s
    unfolding start
    Reachable-IsSound s Reachable.at_start = record {
      asked = λ e. absurd cc;
      closed = λ e. absurd cc;
      over =
          All-replicate (OverWhenClosed false []) c.process_concurrency (gathering [])
            (λ o. absurd cc);
      done = λ e. absurd cc;
      sunk = All-replicate (DoneWhenClosed false []) c.post_concurrency receiving (λ o. absurd cc);
      processors = length-replicate c.process_concurrency (gathering []);
      sinkers = length-replicate c.post_concurrency receiving;
    }
    Reachable-IsSound s (Reachable.step a t r e) = step-IsSound a t e (Reachable-IsSound a r)
