-- ===== src/Tests/Pipelines.antt =====
-- Runs of the pipelined task: one bulk and a stop, in the wait or in a fetch.
use split_synchronizer.Prelude.Str.{Str, str}
use split_synchronizer.Prelude.{true, false, List, [], ◌∷◌, All, ◌≡◌, refl, arith, length}
use split_synchronizer.Producer.Pipeline.Conservation.{Accounted}
use split_synchronizer.Producer.Pipeline.Delivery.{Delivered, Reachable-Conserved}
use split_synchronizer.Producer.Pipeline.Progress.{Drains, closed-Drains}
use split_synchronizer.Producer.Pipeline.Stopping.{Runs, stop_in_fetch}
use split_synchronizer.Producer.Pipeline.{
  Config, Pipeline, fetching, waiting, filler_ended, is_over, start, stop, pushed, Step, Reachable,
}

abbrev config : Config
config = record {
  input_buffer_size = 2;
  process_concurrency = 1;
  process_batch_size = 2;
  post_concurrency = 1;
}

abbrev each : List Str → List Str
each batch = batch

abbrev in_fetch : Pipeline Str
in_fetch = record (start config) { filler = fetching }

abbrev with_bulk : Pipeline Str
with_bulk = pushed config (str "item" ∷ []) in_fetch

abbrev in_wait : Pipeline Str
in_wait = record with_bulk { filler = waiting }

abbrev asked : Pipeline Str
asked = (stop in_wait).0

abbrev shut : Pipeline Str
shut = record asked { shutdown = false; input_closed = true; filler = filler_ended }

fetch_reached : Reachable each config in_fetch
unfolding start
fetch_reached = Reachable.step _ _ Reachable.at_start (Step.loop_went_on refl refl)

wait_reached : Reachable each config in_wait
unfolding start pushed
wait_reached =
    Reachable.step (record with_bulk { filler = fetching }) _
      (Reachable.step with_bulk _
        (Reachable.step in_fetch _ fetch_reached (Step.bulk_fetched refl (str "item") []))
        (Step.loop_went_on refl refl))
      (Step.fetched_nothing refl)

shut_reached : Reachable each config shut
unfolding start pushed stop
shut_reached =
    Reachable.step asked _ (Reachable.step in_wait _ wait_reached (Step.stopped refl))
      (Step.shut_down refl refl)

Reachable-Conserved_example : Accounted (str "item") in_wait × Delivered each length in_wait
Reachable-Conserved_example =
    Reachable-Conserved each length config in_wait (str "item") wait_reached

closed-Drains_example : Drains each config shut
unfolding start pushed stop
closed-Drains_example = closed-Drains each config shut shut_reached refl (omega arith) (omega arith)

stop_in_fetch_example :
    ((pushed config (str "item" ∷ []) (stop in_fetch).0).input_closed ≡ false)
    × All (λ p. is_over p ≡ false) (pushed config (str "item" ∷ []) (stop in_fetch).0).processors
unfolding start
stop_in_fetch_example =
    stop_in_fetch each config in_fetch fetch_reached refl refl (str "item") []
      (pushed config (str "item" ∷ []) (stop in_fetch).0)
      (Runs.here (pushed config (str "item" ∷ []) (stop in_fetch).0))
