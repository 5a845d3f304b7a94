-- ===== src/Producer/Pipeline.antt =====
-- splitio/producer/task/pipelined.go: the task that fetches, processes and posts, with a buffer
-- between two stages. Each goroutine is a state machine and each of its channel operations one step;
-- the scheduler picks any goroutine that can move, and a timer may fire at any time. The worker's
-- `Process` is a parameter that gives what it sends to the sink; what a post answers, and that it is
-- tried three times, makes no difference to the buffers.
pub mod Conservation
pub mod Delivery
pub mod Draining
pub mod Progress
pub mod Stopping
pub mod Sound
use split_synchronizer.Prelude.Str.{Str}
use split_synchronizer.Prelude.{
  ℕ, suc, ◌*◌, ◌/◌, ◌<◌, Bool, true, false, Option, some, List, [], ◌∷◌, ◌++◌, if◌then◌else◌,
  length, get_elem?, set, replicate, All, leb, ltb, nat_beq, ◌≡◌,
}

-- The parts of `Config` that the buffers depend on.
pub record Config : Type 0 where
  pub input_buffer_size : ℕ
  pub process_concurrency : ℕ
  pub process_batch_size : ℕ
  pub post_concurrency : ℕ

abbrev pub or_default : ℕ → ℕ → ℕ
or_default n default = if nat_beq n 0 then default else n

-- `normalize`; `runtime.NumCPU()` is `cpus`.
unfoldable pub normalize : ℕ → Config → Config
normalize cpus c = record {
  input_buffer_size = or_default c.input_buffer_size 1000;
  process_concurrency = or_default c.process_concurrency (cpus / 2);
  process_batch_size = or_default c.process_batch_size 10000;
  post_concurrency = or_default c.post_concurrency 2000;
}

-- Where `filler` stands: at the test of its loop, in `Fetch`, in the wait after an empty fetch, or
-- past its end.
pub data Filler : Type 0 where
  testing : Filler
  fetching : Filler
  waiting : Filler
  filler_ended : Filler

-- A processor gathers a batch, or sends what `Process` made of one, the last one or not.
pub data Processor (D : Type 0) : Type 0 where
  gathering : List Str → Processor D
  sending : Bool → List D → Processor D
  processor_ended : Processor D

pub data Sinker (D : Type 0) : Type 0 where
  receiving : Sinker D
  posting : D → Sinker D
  sinker_ended : Sinker D

-- What happened so far: the items of the fetches and of the bulks that found no room, the batches that
-- `Process` was called on, and what the sinkers are done posting, with success or not. The code keeps
-- no such record, but for its log messages.
pub record Log (D : Type 0) : Type 0 where
  pub fetched : List Str
  pub dropped : List Str
  pub processed : List (List Str)
  pub posted : List D

pub record Pipeline (D : Type 0) : Type 0 where
  pub running : Bool
  pub shutdown : Bool
  pub filler : Filler
  pub input : List (List Str)
  pub input_closed : Bool
  pub processors : List (Processor D)
  pub pre_submit : List D
  pub pre_submit_closed : Bool
  pub sinkers : List (Sinker D)
  pub log : Log D

abbrev pub batch_of : {D : Type 0} → Processor D → List Str
batch_of (gathering batch) = batch
batch_of (sending last results) = []
batch_of processor_ended = []

abbrev pub is_over : {D : Type 0} → Processor D → Bool
is_over processor_ended = true
is_over (gathering batch) = false
is_over (sending last results) = false

abbrev pub sinker_is_over : {D : Type 0} → Sinker D → Bool
sinker_is_over sinker_ended = true
sinker_is_over receiving = false
sinker_is_over (posting d) = false

-- `NewPipelinedTask` and `Start`
unfoldable pub start : {D : Type 0} → Config → Pipeline D
start c = record {
  running = true;
  shutdown = false;
  filler = testing;
  input = [];
  input_closed = false;
  processors = replicate c.process_concurrency (gathering []);
  pre_submit = [];
  pre_submit_closed = false;
  sinkers = replicate c.post_concurrency receiving;
  log = record { fetched = []; dropped = []; processed = []; posted = [] };
}

-- `Stop`: whether it was running, else it returns an error.
unfoldable pub stop : {D : Type 0} → Pipeline D → Pipeline D × Bool
stop s = if s.running then (record s { running = false; shutdown = true }, true) else (s, false)

-- A fetch that brought something: the select with a default.
unfoldable pub pushed : {D : Type 0} → Config → List Str → Pipeline D → Pipeline D
pushed c raws s =
    if ltb (length s.input) c.input_buffer_size
    then record s {
      filler = testing;
      input = s.input ++ raws ∷ [];
      log = record s.log { fetched = s.log.fetched ++ raws };
    }
    else record s {
      filler = testing;
      log = record s.log { fetched = s.log.fetched ++ raws; dropped = s.log.dropped ++ raws };
    }

-- A batch that is ready goes into the log, unless it is empty.
abbrev pub with_batch : List (List Str) → List Str → List (List Str)
with_batch batches [] = batches
with_batch batches (item ∷ batch) = batches ++ (item ∷ batch) ∷ []

module _ {D : Type 0} (process : List Str → List D) where
  -- A batch that is ready: an empty one is not processed.
  unfoldable pub submit : Bool → List Str → Processor D
  submit false [] = gathering []
  submit true [] = processor_ended
  submit last (item ∷ batch) = sending last (process (item ∷ batch))

  -- One bulk out of the input buffer, appended to the batch.
  unfoldable pub received :
      Config → ℕ → List Str → List Str → List (List Str) → Pipeline D → Pipeline D
  unfolding submit
  received c i batch raws rest s =
      let grown = batch ++ raws in
      if leb c.process_batch_size (length grown)
      then record s {
        input = rest;
        processors = set s.processors i (submit false grown);
        log = record s.log { processed = with_batch s.log.processed grown };
      }
      else record s { input = rest; processors = set s.processors i (gathering grown) }

  abbrev pub submitted : Bool → ℕ → List Str → Pipeline D → Pipeline D
  submitted last i batch s = record s {
    processors = set s.processors i (submit last batch);
    log = record s.log { processed = with_batch s.log.processed batch };
  }

  -- The steps of the filler, the processors, the goroutine that waits for them, the sinkers, and of a
  -- caller of `Stop`.
  pub data Step (c : Config) (s : Pipeline D) : Pipeline D → Type 0 where
    stopped : (stop s).1 ≡ true → Step c s (stop s).0
    loop_ended :
        s.filler ≡ testing → s.running ≡ false → Step c s (record s { filler = filler_ended })
    loop_went_on : s.filler ≡ testing → s.running ≡ true → Step c s (record s { filler = fetching })
    fetched_nothing : s.filler ≡ fetching → Step c s (record s { filler = waiting })
    bulk_fetched :
        s.filler ≡ fetching → (raw : Str) (raws : List Str) → Step c s (pushed c (raw ∷ raws) s)
    waited : s.filler ≡ waiting → Step c s (record s { filler = testing })
    shut_down :
        s.filler ≡ waiting
        → s.shutdown ≡ true
        → Step c s (record s { shutdown = false; input_closed = true; filler = filler_ended })
    took_bulk :
        (i : ℕ) (batch raws : List Str) (rest : List (List Str))
        → get_elem? s.processors i ≡ some (gathering batch)
        → s.input ≡ raws ∷ rest
        → Step c s (received c i batch raws rest s)
    found_closed :
        (i : ℕ) (batch : List Str)
        → get_elem? s.processors i ≡ some (gathering batch)
        → s.input ≡ []
        → s.input_closed ≡ true
        → Step c s (submitted true i batch s)
    timed_out :
        (i : ℕ) (item : Str) (batch : List Str)
        → get_elem? s.processors i ≡ some (gathering (item ∷ batch))
        → Step c s (submitted false i (item ∷ batch) s)
    sent :
        (i : ℕ) (last : Bool) (d : D) (results : List D)
        → get_elem? s.processors i ≡ some (sending last (d ∷ results))
        → length s.pre_submit < c.post_concurrency * 4
        → Step c s (record s {
          processors = set s.processors i (sending last results);
          pre_submit = s.pre_submit ++ d ∷ [];
        })
    batch_done :
        (i : ℕ) (last : Bool)
        → get_elem? s.processors i ≡ some (sending last [])
        → Step c s (record s {
          processors = set s.processors i (if last then processor_ended else gathering []);
        })
    processors_done :
        All (λ p. is_over p ≡ true) s.processors
        → s.pre_submit_closed ≡ false
        → Step c s (record s { pre_submit_closed = true })
    took_result :
        (j : ℕ) (d : D) (rest : List D)
        → get_elem? s.sinkers j ≡ some receiving
        → s.pre_submit ≡ d ∷ rest
        → Step c s (record s { sinkers = set s.sinkers j (posting d); pre_submit = rest })
    posted :
        (j : ℕ) (d : D)
        → get_elem? s.sinkers j ≡ some (posting d)
        → Step c s (record s {
          sinkers = set s.sinkers j receiving;
          log = record s.log { posted = s.log.posted ++ d ∷ [] };
        })
    sinker_done :
        (j : ℕ)
        → get_elem? s.sinkers j ≡ some receiving
        → s.pre_submit ≡ []
        → s.pre_submit_closed ≡ true
        → Step c s (record s { sinkers = set s.sinkers j sinker_ended })

  pub data Reachable (c : Config) : Pipeline D → Type 0 where
    at_start : Reachable c (start c)
    step : (s t : Pipeline D) → Reachable c s → Step c s t → Reachable c t
