-- ===== src/Producer/Events.antt =====
-- splitio/producer/task/events.go: the events worker of the pipeline, which puts events into bulks by
-- the metadata of their SDK. The memory pools hand out slices of length zero and maps that were
-- cleared, which are new ones here. JSON and the event's own type are outside of the repository:
-- parameters. `Fetch` is that of the impressions.
pub mod Grouping
use split_synchronizer.Prelude.GoMap.{GoMap, lookup, store}
use split_synchronizer.Prelude.Indexed.{update_at}
use split_synchronizer.Prelude.Str.{Str, str}
use split_synchronizer.Prelude.{
  ℕ, suc, Bool, true, false, Option, none, some, List, [], ◌∷◌, ◌++◌, if◌then◌else◌, length,
  get_elem?, ltb,
}
use split_synchronizer.Producer.Impressions.{Request, default_bulk_size}
use split_synchronizer.Producer.Metadata.{Metadata, metadata_eq}

pub record QueueEvent (E : Type 0) : Type 0 where
  pub metadata : Metadata
  pub event : E

pub record EventsWithMetadata (E : Type 0) : Type 0 where
  pub metadata : Metadata
  pub events : List E
  pub count : ℕ

pub record EventBatches (E : Type 0) : Type 0 where
  pub groups : List (EventsWithMetadata E)
  pub index : GoMap Metadata ℕ

module _ {E : Type 0} where
  unfoldable pub new_events_with_metadata : Metadata → EventsWithMetadata E
  new_events_with_metadata metadata = record { metadata = metadata; events = []; count = 0 }

  -- `eventsWithMetadata.add`, whose event is never nil: it is the address of a field.
  abbrev pub add_event : E → EventsWithMetadata E → EventsWithMetadata E
  add_event event s = record s { events = s.events ++ event ∷ []; count = suc s.count }

  abbrev pub no_events : EventBatches E
  no_events = record { groups = []; index = [] }

  abbrev pub open_group : Metadata → EventBatches E → EventBatches E
  open_group metadata b = record {
    groups = b.groups ++ new_events_with_metadata metadata ∷ [];
    index = store metadata (length b.groups) b.index;
  }

  -- Whether `i.groups[idx].count > defaultBulkSize`: the size of impressions, not of events.
  unfoldable pub is_over : EventBatches E → ℕ → Bool
  is_over b idx = elim (get_elem? b.groups idx) [
    | none ↦ false
    | some g ↦ ltb default_bulk_size g.count
  ]

  -- `eventBatches.add`
  unfoldable pub add : EventBatches E → QueueEvent E → EventBatches E
  unfolding lookup store new_events_with_metadata is_over
  add b q =
      let opened = open_group q.metadata b in
      let fresh = record opened {
        groups = update_at (length b.groups) (add_event q.event) opened.groups;
      } in
      elim (lookup q.metadata b.index) [
        | none ↦ fresh
        | some idx ↦
            if is_over b idx
            then fresh
            else record b { groups = update_at idx (add_event q.event) b.groups }
      ]

  -- The loop of `Process`: an item that does not parse is left out.
  unfoldable pub process_all :
      (Str → Option (QueueEvent E)) → EventBatches E → List Str → EventBatches E
  unfolding add
  process_all unmarshal b [] = b
  process_all unmarshal b (raw ∷ raws) =
      process_all unmarshal (elim (unmarshal raw) [ none ↦ b | some q ↦ add b q ]) raws

  -- `Process`: what is sent to the sink, in order.
  unfoldable pub process : (Str → Option (QueueEvent E)) → List Str → List (EventsWithMetadata E)
  unfolding process_all
  process unmarshal raws = (process_all unmarshal no_events raws).groups

  -- `BuildRequest`, of bulks and of anything else (none).
  unfoldable pub build_request :
      (List E → Str) → (Str → Bool) → Str → Str → Option (EventsWithMetadata E) → Option Request
  build_request marshal accepts url apikey none = none
  build_request marshal accepts url apikey (some g) =
      if accepts url
      then some (record {
        url = url;
        body = marshal g.events;
        headers =
            (str "Authorization", str "Bearer " ++ apikey)
            ∷ (str "Content-Type", str "application/json")
            ∷ (str "SplitSDKVersion", g.metadata.sdk_version)
            ∷ (str "SplitSDKMachineIp", g.metadata.machine_ip)
            ∷ (str "SplitSDKMachineName", g.metadata.machine_name)
            ∷ [];
      })
      else none
