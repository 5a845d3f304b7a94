-- ===== src/Producer/Events/Grouping.antt =====
-- splitio/producer/task/events.go: what the bulks of events hold for each metadata, and their size.
use mathlib.Core.List.{append_assoc, append-nil}
use split_synchronizer.Prelude.GoMap.{lookup}
use split_synchronizer.Prelude.Indexed.{
  update_at, gather, LastAt, Stands, IsIndexed, IsIndexed-snoc, IsIndexed-update_at, gather-append,
  gather-update_at, LastAt-new, All-update_at_elem, get_elem?-snoc,
}
use split_synchronizer.Prelude.Keys.{beq_refl}
use split_synchronizer.Prelude.Str.{Str}
use split_synchronizer.Prelude.{
  ℕ, suc, ◌≤◌, false, Option, none, some, List, [], ◌∷◌, ◌++◌, if◌then◌else◌, length, length-append,
  get_elem?, All, All-append, ◌==◌, ◌≡◌, refl, sym, ap, subst, ◌∙◌, arith, Bool-cases, Option-cases,
  inl, inr,
}
use split_synchronizer.Producer.Events.{
  QueueEvent, EventsWithMetadata, EventBatches, new_events_with_metadata, add_event, no_events,
  open_group, is_over, add, process_all, process,
}
use split_synchronizer.Producer.Impressions.{default_bulk_size}
use split_synchronizer.Producer.Metadata.{Metadata, metadata_eq}

module _ {E : Type 0} where
  abbrev pub group_metadata : EventsWithMetadata E → Metadata
  group_metadata g = g.metadata

  abbrev pub events_of : EventsWithMetadata E → List E
  events_of g = g.events

  -- The events of one metadata in all bulks, in order.
  abbrev pub posted : Metadata → List (EventsWithMetadata E) → List E
  posted m groups = gather group_metadata events_of m groups

  -- A bulk counts its events, and has one more than the default size at most.
  pub record IsSized (g : EventsWithMetadata E) : Type 0 where
    pub counted : g.count ≡ length g.events
    pub bounded : g.count ≤ suc default_bulk_size

  pub record IsBatched (b : EventBatches E) : Type 0 where
    pub indexed : IsIndexed group_metadata b.index b.groups
    pub sized : All IsSized b.groups

  abbrev put_into : ℕ → E → EventBatches E → EventBatches E
  put_into idx e b = record b { groups = update_at idx (add_event e) b.groups }

  -- `add` puts the event into the last bulk with its metadata, which is new or in the groups.
  data Added (b : EventBatches E) (q : QueueEvent E) : EventBatches E → Type 0 where
    to_new : Added b q (put_into (length b.groups) q.event (open_group q.metadata b))
    to_old :
        (idx : ℕ)
        → lookup q.metadata b.index ≡ some idx
        → is_over b idx ≡ false
        → Added b q (put_into idx q.event b)

  add-Added : (b : EventBatches E) (q : QueueEvent E) → Added b q (add b q)
  unfolding add
  add-Added b q = elim (Option-cases (lookup q.metadata b.index)) [
    | inl e ↦ rw (e, add) Added.to_new
    | inr (idx, e) ↦ elim (Bool-cases (is_over b idx)) [
      | inl t ↦ rw (e, t, add) Added.to_new
      | inr f ↦ rw (e, f, add) (Added.to_old idx e f)
    ]
  ]

  add_event-IsSized :
      (e : E) (g : EventsWithMetadata E)
      → g.count ≤ default_bulk_size
      → IsSized g
      → IsSized (add_event e g)
  add_event-IsSized e g room v = record {
    counted = omega (arith, v.counted, length-append g.events (e ∷ []));
    bounded = omega (arith, room);
  }

  not_over :
      (b : EventBatches E) (idx : ℕ) (g : EventsWithMetadata E)
      → is_over b idx ≡ false
      → get_elem? b.groups idx ≡ some g
      → g.count ≤ default_bulk_size
  unfolding is_over
  not_over b idx g n e = ground (arith, n, e)

  fresh_room :
      (m : Metadata) (b : EventBatches E) (g : EventsWithMetadata E)
      → get_elem? (open_group m b).groups (length b.groups) ≡ some g
      → g.count ≤ default_bulk_size
  unfolding new_events_with_metadata
  fresh_room m b g at =
      let e = sym (get_elem?-snoc (new_events_with_metadata m) b.groups) ∙ at in ground (arith, e)

  put_into-IsBatched :
      (idx : ℕ) (e : E) (b : EventBatches E)
      → ((g : EventsWithMetadata E) → get_elem? b.groups idx ≡ some g → g.count ≤ default_bulk_size)
      → IsBatched b
      → IsBatched (put_into idx e b)
  put_into-IsBatched idx e b room v = record {
    indexed =
        IsIndexed-update_at group_metadata (add_event e) (λ g. refl) b.index idx b.groups v.indexed;
    sized =
        All-update_at_elem IsSized (add_event e) idx b.groups
          (λ g at p. add_event-IsSized e g (room g at) p) v.sized;
  }

  open_group-IsBatched :
      (m : Metadata) (b : EventBatches E) → IsBatched b → IsBatched (open_group m b)
  unfolding new_events_with_metadata
  open_group-IsBatched m b v =
      let fresh : IsSized (new_events_with_metadata m) = record {
        counted = refl;
        bounded = omega arith;
      } in
      record {
        indexed =
            IsIndexed-snoc group_metadata b.index (new_events_with_metadata m) b.groups v.indexed;
        sized = All-append IsSized b.groups (new_events_with_metadata m ∷ []) v.sized (fresh, tt);
      }

  add-IsBatched : (b : EventBatches E) (q : QueueEvent E) → IsBatched b → IsBatched (add b q)
  add-IsBatched b q v = go (add b q) (add-Added b q)
    where
      go : (c : EventBatches E) → Added b q c → IsBatched c
      go c Added.to_new =
          put_into-IsBatched (length b.groups) q.event (open_group q.metadata b)
            (fresh_room q.metadata b) (open_group-IsBatched q.metadata b v)
      go c (Added.to_old idx e n) = put_into-IsBatched idx q.event b (λ g. not_over b idx g n) v

  -- What one event adds to those of a metadata.
  abbrev pub posted_by : Metadata → QueueEvent E → List E
  posted_by m q = if q.metadata == m then q.event ∷ [] else []

  posted-put_into :
      (m : Metadata) (idx : ℕ) (q : QueueEvent E) (b : EventBatches E)
      → IsBatched b
      → LastAt group_metadata q.metadata idx b.groups
      → posted m (put_into idx q.event b).groups ≡ posted m b.groups ++ posted_by m q
  posted-put_into m idx q b v l =
      gather-update_at group_metadata events_of (add_event q.event) (q.event ∷ []) IsSized
        q.metadata m (λ g. refl) (λ g p. refl) idx b.groups v.sized l

  posted-open_group :
      (m n : Metadata) (b : EventBatches E) → posted m (open_group n b).groups ≡ posted m b.groups
  unfolding new_events_with_metadata
  posted-open_group m n b =
      gather-append group_metadata events_of m b.groups (new_events_with_metadata n ∷ [])
      ∙ elim (Bool-cases (n == m)) [
        | inl t ↦ rw t (append-nil (posted m b.groups))
        | inr u ↦ rw u (append-nil (posted m b.groups))
      ]

  posted-add :
      (m : Metadata) (b : EventBatches E) (q : QueueEvent E)
      → IsBatched b
      → posted m (add b q).groups ≡ posted m b.groups ++ posted_by m q
  unfolding new_events_with_metadata
  posted-add m b q v = go (add b q) (add-Added b q)
    where
      go :
          (c : EventBatches E)
          → Added b q c
          → posted m c.groups ≡ posted m b.groups ++ posted_by m q
      go c Added.to_new =
          posted-put_into m (length b.groups) q (open_group q.metadata b)
            (open_group-IsBatched q.metadata b v)
            (LastAt-new group_metadata q.metadata (new_events_with_metadata q.metadata) b.groups
              (beq_refl q.metadata))
          ∙ ap (λ k. k ++ posted_by m q) (posted-open_group m q.metadata b)
      go c (Added.to_old idx e n) =
          posted-put_into m idx q b v
            (subst (λ o. Stands group_metadata q.metadata o b.groups) e (v.indexed q.metadata))

  -- The events of the items that parse, for one metadata.
  unfoldable pub fetched_events : (Str → Option (QueueEvent E)) → Metadata → List Str → List E
  fetched_events unmarshal m [] = []
  fetched_events unmarshal m (raw ∷ raws) =
      let rest = fetched_events unmarshal m raws in
      elim (unmarshal raw) [ none ↦ rest | some q ↦ posted_by m q ++ rest ]

  -- All bulks count their events, with at most one more than the default size, and for each metadata
  -- they hold the events that were fetched, in order.
  unfoldable pub Grouped :
      (Str → Option (QueueEvent E)) → List Str → List (EventsWithMetadata E) → Type 0
  Grouped unmarshal raws groups =
      All IsSized groups × ((m : Metadata) → posted m groups ≡ fetched_events unmarshal m raws)

  process_all-posted :
      (unmarshal : Str → Option (QueueEvent E)) (b : EventBatches E) (raws : List Str)
      → IsBatched b
      → All IsSized (process_all unmarshal b raws).groups
        × ((m : Metadata)
            → posted m (process_all unmarshal b raws).groups
              ≡ posted m b.groups ++ fetched_events unmarshal m raws)
  unfolding process_all fetched_events
  process_all-posted unmarshal b [] v = (v.sized, λ m. sym (append-nil (posted m b.groups)))
  process_all-posted unmarshal b (raw ∷ raws) v = elim (Option-cases (unmarshal raw)) [
    | inl e ↦ rw (process_all, fetched_events, e) (process_all-posted unmarshal b raws v)
    | inr (q, e) ↦
        let ih = process_all-posted unmarshal (add b q) raws (add-IsBatched b q v) in
        rw (process_all, fetched_events, e)
          (
            ih.0,
            λ m.
                ih.1 m
                ∙ ap (λ k. k ++ fetched_events unmarshal m raws) (posted-add m b q v)
                ∙ append_assoc (posted m b.groups) (posted_by m q)
                    (fetched_events unmarshal m raws),
          )
  ]

  -- The bulks that `Process` sends to the sink count their events and have at most one more than the
  -- default size of 5000; for each metadata they hold the events of the items that parse, each once,
  -- in the order in which they were fetched.
  pub process-Grouped :
      (unmarshal : Str → Option (QueueEvent E)) (raws : List Str)
      → Grouped unmarshal raws (process unmarshal raws)
  unfolding process Grouped lookup
  process-Grouped unmarshal raws =
      process_all-posted unmarshal no_events raws (record { indexed = λ k. tt; sized = tt })
