-- ===== src/Tests/Telemetries.antt =====
-- Runs of the telemetry that the producer takes from Redis.
use split_synchronizer.Prelude.GoMap.{GoMap, lookup}
use split_synchronizer.Prelude.Str.{Str, str, str_compare, str_eq}
use split_synchronizer.Prelude.{
  ℕ, suc, true, Option, none, some, List, [], ◌∷◌, if◌then◌else◌, ◌==◌, take, drop, pos, ◌≡◌, refl,
  arith,
}
use split_synchronizer.Producer.Metadata.{Metadata, metadata_eq}
use split_synchronizer.Producer.TelemetryConfigs.Latest.{
  or_else, last_listed, last_hashed, pop_rounds-latest,
}
use split_synchronizer.Producer.TelemetryConfigs.Rounds.{Works}
use split_synchronizer.Producer.TelemetryConfigs.{RedisClient, QueueConfig, pop_rounds}
use split_synchronizer.Producer.TelemetryConsumer.Latencies.{count_at, latest, pop_latencies-latest}
use split_synchronizer.Producer.TelemetryConsumer.Methods.{
  Method, treatment, put_method, every_method,
}
use split_synchronizer.Producer.TelemetryConsumer.{
  Layout, MultiMethodLatencies, popped, pop_latencies, parse_latency_field, set_latency,
  add_latency, add_latencies,
}
use split_synchronizer.Producer.TelemetryWorker.Join.{joined, build_stats-joined}
use split_synchronizer.Producer.TelemetryWorker.{build_stats}

abbrev layout : Layout
layout = record {
  separator = str "/";
  sdk_version = 0;
  machine_name = 1;
  machine_ip = 2;
  method = 3;
  bucket = 4;
}

abbrev sdk : Metadata
sdk = record { sdk_version = str "v"; machine_name = str "n"; machine_ip = str "i" }

abbrev named : Str → Option Str
named s = some s

abbrev classified : Str → Option Method
classified s = if s == str "t" then some treatment else none

abbrev fields : GoMap Str Str
fields = (str "v/n/i/t/1", str "7") ∷ (str "broken", str "1") ∷ []

abbrev counted : MultiMethodLatencies
counted = (sdk, put_method treatment (pos 0 ∷ pos 7 ∷ []) (every_method (pos 0 ∷ pos 0 ∷ []))) ∷ []

counts_popped : pop_latencies named classified 2 layout (some fields) ≡ popped counted
unfolding pop_latencies add_latencies add_latency parse_latency_field set_latency str_compare
counts_popped = refl

pop_latencies-latest_example :
    count_at named classified 2 layout sdk treatment 1 counted
    ≡ latest named classified 2 layout sdk treatment 1 (pos 0) fields
pop_latencies-latest_example =
    pop_latencies-latest named classified 2 layout fields counted counts_popped sdk treatment 1
      (omega arith)

abbrev lats : GoMap Metadata ℕ
lats = (sdk, 5) ∷ []

abbrev excs : GoMap Metadata ℕ
excs = (sdk, 6) ∷ []

build_stats-joined_example :
    lookup sdk (build_stats lats excs) ≡ joined (lookup sdk lats) (lookup sdk excs)
unfolding lookup
build_stats-joined_example = build_stats-joined lats excs sdk (refl, tt) (refl, tt)

abbrev Store : Type 0
Store = GoMap Str Str × List Str

abbrev store_client : RedisClient Store
store_client = record {
  hget_all = λ r. some r.0;
  del = λ r. (([], r.1), true);
  lrange = λ r n. some (take (suc n) r.1);
  ltrim = λ r n. ((r.0, drop n r.1), true);
}

abbrev hash_of : Store → GoMap Str Str
hash_of r = r.0

abbrev items_of : Store → List Str
items_of r = r.1

abbrev store_works : Works store_client hash_of items_of
store_works = record {
  gets = λ r. refl;
  deletes = λ r. (refl, refl, refl);
  ranges = λ r n. refl;
  trims = λ r n. (refl, refl, refl);
}

abbrev text_config : Str → Option Str
text_config s = some s

abbrev text_object : Str → Option (QueueConfig Str)
text_object s = some (record { metadata = sdk; config = s })

abbrev two_left : Store
two_left = ((str "v/n/i", str "a") ∷ [], str "b" ∷ str "c" ∷ [])

pop_rounds-latest_example :
    (r' : Store) × (after : GoMap Metadata Str) × (pop_rounds store_client layout text_config
        text_object 3 1 [] two_left
      ≡ some (r', after))
    × (items_of r' ≡ [])
    × ((m : Metadata)
        → lookup m after
          ≡ or_else
              (last_listed m text_object (items_of two_left))
              (or_else (last_hashed m layout text_config (hash_of two_left)) none))
unfolding lookup
pop_rounds-latest_example =
    pop_rounds-latest store_client layout text_config text_object hash_of items_of store_works 3 1
      [] two_left (omega arith) (omega arith)
