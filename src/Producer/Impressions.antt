-- ===== src/Producer/Impressions.antt =====
-- splitio/producer/task/impressions.go: the impressions worker of the pipeline. Impressions are put
-- into bulks by the metadata of their SDK, and inside a bulk by feature. The memory pools hand out
-- slices of length zero and maps that were cleared, which are new ones here. JSON, the impression
-- manager (with its state type `M`) and Redis are outside of the repository: parameters.
pub mod Grouping
pub mod Bounds
use split_synchronizer.Prelude.GoMap.{GoMap, lookup, store}
use split_synchronizer.Prelude.Indexed.{update_at}
use split_synchronizer.Prelude.Str.{Str, str, str_eq}
use split_synchronizer.Prelude.{
  ℕ, suc, ◌*◌, Bool, true, false, Option, none, some, List, [], ◌∷◌, ◌++◌, if◌then◌else◌, length,
  get_elem?, ltb, ℤ, pos, nat_beq,
}
use split_synchronizer.Producer.EvictionMonitor.{Monitor, store_data_flushed}
use split_synchronizer.Producer.Metadata.{Metadata, metadata_eq}

-- `dtos.ImpressionDTO`, and `dtos.Impression` with the feature's name.
pub record KeyImpression : Type 0 where
  pub key_name : Str
  pub treatment : Str
  pub time : ℤ
  pub change_number : ℤ
  pub label : Str
  pub bucketing_key : Str
  pub pt : ℤ
  pub properties : Str

pub record Impression : Type 0 where
  pub feature_name : Str
  pub key_impression : KeyImpression

pub record QueueObject : Type 0 where
  pub metadata : Metadata
  pub impression : Impression

-- `dtos.ImpressionsDTO`
pub record TestImpressions : Type 0 where
  pub test_name : Str
  pub key_impressions : List KeyImpression

pub record ImpsWithMetadata : Type 0 where
  pub metadata : Metadata
  pub imps : List TestImpressions
  pub count : ℕ
  pub nindex : GoMap Str ℕ

pub record ImpBatches : Type 0 where
  pub groups : List ImpsWithMetadata
  pub index : GoMap Metadata ℕ

-- An HTTP request, with its headers in the order in which they are added.
pub record Request : Type 0 where
  pub url : Str
  pub body : Str
  pub headers : List (Str × Str)

abbrev pub default_imp_fetch_size : ℕ
default_imp_fetch_size = 20000

-- `ImpressionWorkerConfig.normalize`
abbrev pub normalize_fetch_size : ℕ → ℕ
normalize_fetch_size n = if nat_beq n 0 then default_imp_fetch_size else n

-- `Fetch`, of what the storage pops and holds after that, or its error; none where the monitor panics.
unfoldable pub fetch :
    {Time : Type 0}
    → Option (List Str × ℤ)
    → Time
    → Monitor Time
    → Option (Monitor Time × Option (List Str))
unfolding store_data_flushed
fetch none now monitor = some (monitor, none)
fetch (some (raw, size_after_pop)) now monitor =
    elim (store_data_flushed monitor (record {
      timestamp = now;
      data_flushed = pos (length raw);
      data_in_storage = size_after_pop;
    })) [ none ↦ none | some m ↦ some (m, some raw) ]

abbrev pub default_feature_count : ℕ
default_feature_count = 200

abbrev pub default_imps_per_feature : ℕ
default_imps_per_feature = 25

abbrev pub default_bulk_size : ℕ
default_bulk_size = default_feature_count * default_imps_per_feature

unfoldable pub new_imps_with_metadata : Metadata → ImpsWithMetadata
new_imps_with_metadata metadata = record { metadata = metadata; imps = []; count = 0; nindex = [] }

abbrev pub push_impression : KeyImpression → TestImpressions → TestImpressions
push_impression i t = record t { key_impressions = t.key_impressions ++ i ∷ [] }

-- `impsWithMetadata.add`
unfoldable pub add_impression : Impression → ImpsWithMetadata → ImpsWithMetadata
unfolding lookup store
add_impression i s = elim (lookup i.feature_name s.nindex) [
  | some idx ↦ record s {
    imps = update_at idx (push_impression i.key_impression) s.imps;
    count = suc s.count;
  }
  | none ↦
      let grown = s.imps ++ record { test_name = i.feature_name; key_impressions = [] } ∷ [] in
      record s {
        imps = update_at (length s.imps) (push_impression i.key_impression) grown;
        nindex = store i.feature_name (length s.imps) s.nindex;
        count = suc s.count;
      }
]

abbrev pub no_batches : ImpBatches
no_batches = record { groups = []; index = [] }

-- A new bulk for the metadata, at the end of the groups.
abbrev pub open_group : Metadata → ImpBatches → ImpBatches
open_group metadata b = record {
  groups = b.groups ++ new_imps_with_metadata metadata ∷ [];
  index = store metadata (length b.groups) b.index;
}

-- Whether `i.groups[idx].count > defaultBulkSize`.
unfoldable pub is_over : ImpBatches → ℕ → Bool
is_over b idx = elim (get_elem? b.groups idx) [
  | none ↦ false
  | some g ↦ ltb default_bulk_size g.count
]

-- `impBatches.add`
unfoldable pub add : ImpBatches → QueueObject → ImpBatches
unfolding lookup store new_imps_with_metadata add_impression is_over
add b q =
    let opened = open_group q.metadata b in
    let fresh = record opened {
      groups = update_at (length b.groups) (add_impression q.impression) opened.groups;
    } in
    elim (lookup q.metadata b.index) [
      | none ↦ fresh
      | some idx ↦
          if is_over b idx
          then fresh
          else record b { groups = update_at idx (add_impression q.impression) b.groups }
    ]

module _ {M : Type 0} (process_single : M → Impression → M × Impression × Bool) where
  -- One raw item of `Process`: an item that does not parse, or that the manager drops, is left out.
  unfoldable pub process_item : (Str → Option QueueObject) → M × ImpBatches → Str → M × ImpBatches
  unfolding add
  process_item unmarshal (m, b) raw = elim (unmarshal raw) [
    | none ↦ (m, b)
    | some q ↦
        let (m', i, to_log) = process_single m q.impression in
        (m', if to_log then add b (record q { impression = i }) else b)
  ]

  unfoldable pub process_all :
      (Str → Option QueueObject) → M × ImpBatches → List Str → M × ImpBatches
  unfolding process_item
  process_all unmarshal st [] = st
  process_all unmarshal st (raw ∷ raws) = process_all unmarshal (process_item unmarshal st raw) raws

  -- `Process`: what is sent to the sink, in order.
  unfoldable pub process : (Str → Option QueueObject) → M → List Str → M × List ImpsWithMetadata
  unfolding process_all
  process unmarshal m raws =
      let (m', b) = process_all unmarshal (m, no_batches) raws in (m', b.groups)

-- `sendImpressionsToListener`: the payloads, each with its metadata.
unfoldable pub listener_payloads : List ImpsWithMetadata → List (List TestImpressions × Metadata)
listener_payloads [] = []
listener_payloads (g ∷ groups) = (g.imps, g.metadata) ∷ listener_payloads groups

-- `BuildRequest`, of bulks and of anything else (none); the URL is refused or not by net/http.
unfoldable pub build_request :
    (List TestImpressions → Str)
    → (Str → Bool)
    → Str
    → Str
    → Option ImpsWithMetadata
    → Option Request
build_request marshal accepts url apikey none = none
build_request marshal accepts url apikey (some g) =
    if accepts url
    then some (record {
      url = url;
      body = marshal g.imps;
      headers =
          (str "Authorization", str "Bearer " ++ apikey)
          ∷ (str "Content-Type", str "application/json")
          ∷ (str "SplitSDKVersion", g.metadata.sdk_version)
          ∷ (str "SplitSDKMachineIp", g.metadata.machine_ip)
          ∷ (str "SplitSDKMachineName", g.metadata.machine_name)
          ∷ (str "SplitSDKImpressionsMode", str "optimized")
          ∷ [];
    })
    else none
