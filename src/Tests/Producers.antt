-- ===== src/Tests/Producers.antt =====
-- Runs of the impressions and events workers, and of the eviction monitor.
use split_synchronizer.Prelude.Str.{Str, str, str_eq}
use split_synchronizer.Prelude.{
  ℕ, ◌*◌, Bool, true, false, Option, none, some, List, [], ◌∷◌, All, pos, ◌<ℤ◌, ◌≡◌, refl, arith,
}
use split_synchronizer.Producer.EvictionMonitor.Permission.{Reached, AtMostOne, Reached-AtMostOne}
use split_synchronizer.Producer.EvictionMonitor.Window.{store_all, Holds, store_all-window}
use split_synchronizer.Producer.EvictionMonitor.{
  FlushRecord, Monitor, new_monitor, amount_generated, last_in_storage, calculate_amount_flushed,
  acquire,
}
use split_synchronizer.Producer.Events.Grouping.{Grouped, process-Grouped}
use split_synchronizer.Producer.Events.{QueueEvent}
use split_synchronizer.Producer.Events
use split_synchronizer.Producer.Impressions.Bounds.{IsSized, process-IsSized}
use split_synchronizer.Producer.Impressions.Grouping.{posted, posted_all, accepted, process-posted}
use split_synchronizer.Producer.Impressions.{Impression, QueueObject, process}
use split_synchronizer.Producer.Metadata.{Metadata}

abbrev sdk : Metadata
sdk = record { sdk_version = str "go-6"; machine_ip = str "10.0.0.1"; machine_name = str "m" }

-- The key of an impression is the raw item.
abbrev impression : Str → Impression
impression raw = record {
  feature_name = str "flag";
  key_impression = record {
    key_name = raw;
    treatment = str "on";
    time = pos 1;
    change_number = pos 1;
    label = str "l";
    bucketing_key = [];
    pt = pos 0;
    properties = [];
  };
}

-- An empty item does not parse.
abbrev parse : Str → Option QueueObject
parse [] = none
parse (x ∷ xs) = some (record { metadata = sdk; impression = impression (x ∷ xs) })

-- A manager that drops every second impression.
abbrev every_second : Bool → Impression → Bool × Impression × Bool
every_second true i = (false, i, true)
every_second false i = (true, i, false)

abbrev raws : List Str
raws = str "a" ∷ [] ∷ str "b" ∷ str "c" ∷ []

process-posted_example :
    posted sdk (str "flag") (process every_second parse true raws).1
    ≡ posted_all every_second sdk (str "flag") (accepted every_second parse true raws)
process-posted_example = process-posted every_second parse true raws sdk (str "flag")

process-IsSized_example : All IsSized (process every_second parse true raws).1
process-IsSized_example = process-IsSized every_second parse true raws

abbrev parse_event : Str → Option (QueueEvent Str)
parse_event [] = none
parse_event (x ∷ xs) = some (record { metadata = sdk; event = x ∷ xs })

process-Grouped_example : Grouped parse_event raws (Events.process parse_event raws)
process-Grouped_example = process-Grouped parse_event raws

abbrev flush : ℕ → FlushRecord ℕ
flush n = record { timestamp = n; data_flushed = pos 5; data_in_storage = pos n }

store_all-window_example :
    (m : Monitor ℕ) × (store_all (new_monitor 1) (flush 1 ∷ flush 3 ∷ []) ≡ some m)
    × Holds (flush 1 ∷ flush 3 ∷ []) (100 * 1) m
store_all-window_example = store_all-window 1 (flush 1 ∷ flush 3 ∷ []) (omega arith)

generated_positive : pos 0 <ℤ amount_generated (flush 1) (flush 3 ∷ [])
unfolding amount_generated last_in_storage calculate_amount_flushed
generated_positive = omega arith

held : Reached 1 (acquire (new_monitor {Time = ℕ} 1)).0 (7 ∷ [])
unfolding acquire
held = Reached.acquired (new_monitor 1) [] Reached.start 7 refl

Reached-AtMostOne_example : AtMostOne (acquire (new_monitor {Time = ℕ} 1)).0 (7 ∷ [])
Reached-AtMostOne_example = Reached-AtMostOne 1 (acquire (new_monitor 1)).0 (7 ∷ []) held
