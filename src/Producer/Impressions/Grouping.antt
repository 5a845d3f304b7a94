-- ===== src/Producer/Impressions/Grouping.antt =====
-- Nothing is lost, repeated or reordered on the way into the bulks.
use mathlib.Core.List.{append_assoc, append-nil}
use split_synchronizer.Prelude.GoMap.{lookup, store}
use split_synchronizer.Prelude.Indexed.{
  update_at, gather, LastAt, Stands, IsIndexed, IsIndexed-snoc, IsIndexed-update_at, gather-append,
  gather-update_at, LastAt-new, All-update_at,
}
use split_synchronizer.Prelude.Keys.{beq_refl}
use split_synchronizer.Prelude.Str.{Str, str_eq}
use split_synchronizer.Prelude.{
  ℕ, Bool, false, Option, none, some, List, [], ◌∷◌, ◌++◌, if◌then◌else◌, length, All, ◌==◌, ◌≡◌,
  refl, sym, ap, subst, ◌∙◌, Bool-cases, Option-cases, inl, inr, All-append,
}
use split_synchronizer.Producer.Impressions.{
  KeyImpression, Impression, QueueObject, TestImpressions, ImpsWithMetadata, ImpBatches,
  process_item, process_all, process, new_imps_with_metadata, push_impression, add_impression,
  no_batches, open_group, is_over, add,
}
use split_synchronizer.Producer.Metadata.{Metadata, metadata_eq}

abbrev pub test_name : TestImpressions → Str
test_name t = t.test_name

abbrev pub keys_of : TestImpressions → List KeyImpression
keys_of t = t.key_impressions

abbrev pub group_metadata : ImpsWithMetadata → Metadata
group_metadata g = g.metadata

-- The impressions of one feature in a bulk, in order.
abbrev pub of_feature : Str → ImpsWithMetadata → List KeyImpression
of_feature f g = gather test_name keys_of f g.imps

-- The impressions of one feature and one metadata in all bulks, in order.
abbrev pub posted : Metadata → Str → List ImpsWithMetadata → List KeyImpression
posted m f groups = gather group_metadata (of_feature f) m groups

abbrev pub IsBulk : ImpsWithMetadata → Type 0
IsBulk g = IsIndexed test_name g.nindex g.imps

-- The indices point to the bulk that is filled, and the bulks' to their features.
pub record IsBatched (b : ImpBatches) : Type 0 where
  pub indexed : IsIndexed group_metadata b.index b.groups
  pub bulks : All IsBulk b.groups

pub add_impression-IsBulk :
    (i : Impression) (g : ImpsWithMetadata) → IsBulk g → IsBulk (add_impression i g)
unfolding add_impression
add_impression-IsBulk i g v = elim (Option-cases (lookup i.feature_name g.nindex)) [
  | inl e ↦
      rw (e, add_impression)
        (IsIndexed-update_at test_name (push_impression i.key_impression) (λ t. refl)
          (store i.feature_name (length g.imps) g.nindex) (length g.imps)
          (g.imps ++ record { test_name = i.feature_name; key_impressions = [] } ∷ [])
          (IsIndexed-snoc test_name g.nindex
            (record { test_name = i.feature_name; key_impressions = [] }) g.imps v))
  | inr (idx, e) ↦
      rw (e, add_impression)
        (IsIndexed-update_at test_name (push_impression i.key_impression) (λ t. refl) g.nindex idx
          g.imps v)
]

abbrev Anything : TestImpressions → Type 0
Anything t = Unit

All-Anything : (xs : List TestImpressions) → All Anything xs
All-Anything [] = tt
All-Anything (x ∷ xs) = (tt, All-Anything xs)

-- An impression that is pushed into the last entry of its feature is the feature's last.
of_feature-push_impression :
    (f : Str) (i : Impression) (idx : ℕ) (xs : List TestImpressions)
    → LastAt test_name i.feature_name idx xs
    → gather test_name keys_of f (update_at idx (push_impression i.key_impression) xs)
      ≡ gather test_name keys_of f xs ++ (if i.feature_name == f then i.key_impression ∷ [] else [])
of_feature-push_impression f i idx xs l =
    gather-update_at test_name keys_of (push_impression i.key_impression) (i.key_impression ∷ [])
      Anything i.feature_name f (λ t. refl) (λ t u. refl) idx xs (All-Anything xs) l

-- An entry with no impressions adds none.
gather-empty :
    (f n : Str) (xs : List TestImpressions)
    → gather test_name keys_of f (xs ++ record { test_name = n; key_impressions = [] } ∷ [])
      ≡ gather test_name keys_of f xs
gather-empty f n xs =
    gather-append test_name keys_of f xs (record { test_name = n; key_impressions = [] } ∷ [])
    ∙ elim (Bool-cases (n == f)) [
      | inl t ↦ rw t (append-nil (gather test_name keys_of f xs))
      | inr u ↦ rw u (append-nil (gather test_name keys_of f xs))
    ]

of_feature-add_impression :
    (f : Str) (i : Impression) (g : ImpsWithMetadata)
    → IsBulk g
    → of_feature f (add_impression i g)
      ≡ of_feature f g ++ (if i.feature_name == f then i.key_impression ∷ [] else [])
unfolding add_impression
of_feature-add_impression f i g v = elim (Option-cases (lookup i.feature_name g.nindex)) [
  | inl e ↦
      let empty : TestImpressions = record { test_name = i.feature_name; key_impressions = [] } in
      let pushed =
        of_feature-push_impression f i (length g.imps) (g.imps ++ empty ∷ [])
          (LastAt-new test_name i.feature_name empty g.imps (beq_refl i.feature_name)) in
      rw (e, add_impression)
        (pushed
          ∙ ap (λ k. k ++ (if i.feature_name == f then i.key_impression ∷ [] else []))
              (gather-empty f i.feature_name g.imps))
  | inr (idx, e) ↦
      rw (e, add_impression)
        (of_feature-push_impression f i idx g.imps
          (subst (λ o. Stands test_name i.feature_name o g.imps) e (v i.feature_name)))
]

group_metadata-add_impression :
    (i : Impression) (g : ImpsWithMetadata) → group_metadata (add_impression i g) ≡ group_metadata g
unfolding add_impression
group_metadata-add_impression i g = elim (Option-cases (lookup i.feature_name g.nindex)) [
  | inl e ↦ rw (e, add_impression) refl
  | inr (idx, e) ↦ rw (e, add_impression) refl
]

-- An impression that is put into one of the bulks.
abbrev pub put_into : ℕ → Impression → ImpBatches → ImpBatches
put_into idx i b = record b { groups = update_at idx (add_impression i) b.groups }

-- `add` puts the impression into the last bulk with its metadata, which is new or in the groups.
pub data Added (b : ImpBatches) (q : QueueObject) : ImpBatches → Type 0 where
  to_new : Added b q (put_into (length b.groups) q.impression (open_group q.metadata b))
  to_old :
      (idx : ℕ)
      → lookup q.metadata b.index ≡ some idx
      → is_over b idx ≡ false
      → Added b q (put_into idx q.impression b)

pub add-Added : (b : ImpBatches) (q : QueueObject) → Added b q (add b q)
unfolding add
add-Added b q = elim (Option-cases (lookup q.metadata b.index)) [
  | inl e ↦ rw (e, add) Added.to_new
  | inr (idx, e) ↦ elim (Bool-cases (is_over b idx)) [
    | inl t ↦ rw (e, t, add) Added.to_new
    | inr f ↦ rw (e, f, add) (Added.to_old idx e f)
  ]
]

new_imps-IsBulk : (m : Metadata) → IsBulk (new_imps_with_metadata m)
unfolding new_imps_with_metadata lookup
new_imps-IsBulk m k = tt

pub open_group-IsBatched :
    (m : Metadata) (b : ImpBatches) → IsBatched b → IsBatched (open_group m b)
unfolding new_imps_with_metadata
open_group-IsBatched m b v = record {
  indexed = IsIndexed-snoc group_metadata b.index (new_imps_with_metadata m) b.groups v.indexed;
  bulks =
      All-append IsBulk b.groups (new_imps_with_metadata m ∷ []) v.bulks (new_imps-IsBulk m, tt);
}

put_into-IsBatched :
    (idx : ℕ) (i : Impression) (b : ImpBatches) → IsBatched b → IsBatched (put_into idx i b)
put_into-IsBatched idx i b v = record {
  indexed =
      IsIndexed-update_at group_metadata (add_impression i) (group_metadata-add_impression i)
        b.index idx b.groups v.indexed;
  bulks = All-update_at IsBulk (add_impression i) idx b.groups (add_impression-IsBulk i) v.bulks;
}

pub no_batches-IsBatched : IsBatched no_batches
unfolding lookup
no_batches-IsBatched = record { indexed = λ k. tt; bulks = tt }

-- What one impression adds to those of a metadata and a feature.
abbrev pub posted_by : Metadata → Str → QueueObject → List KeyImpression
posted_by m f q =
    if q.metadata == m
    then if q.impression.feature_name == f then q.impression.key_impression ∷ [] else []
    else []

posted-put_into :
    (m : Metadata) (f : Str) (idx : ℕ) (q : QueueObject) (b : ImpBatches)
    → IsBatched b
    → LastAt group_metadata q.metadata idx b.groups
    → posted m f (put_into idx q.impression b).groups ≡ posted m f b.groups ++ posted_by m f q
posted-put_into m f idx q b v l =
    gather-update_at group_metadata (of_feature f) (add_impression q.impression)
      (if q.impression.feature_name == f then q.impression.key_impression ∷ [] else []) IsBulk
      q.metadata m (group_metadata-add_impression q.impression)
      (of_feature-add_impression f q.impression) idx b.groups v.bulks l

-- A bulk with no impressions adds none.
posted-open_group :
    (m n : Metadata) (f : Str) (b : ImpBatches)
    → posted m f (open_group n b).groups ≡ posted m f b.groups
unfolding new_imps_with_metadata
posted-open_group m n f b =
    gather-append group_metadata (of_feature f) m b.groups (new_imps_with_metadata n ∷ [])
    ∙ elim (Bool-cases (n == m)) [
      | inl t ↦ rw t (append-nil (posted m f b.groups))
      | inr u ↦ rw u (append-nil (posted m f b.groups))
    ]

pub Added-IsBatched :
    (b : ImpBatches) (q : QueueObject) (c : ImpBatches) → Added b q c → IsBatched b → IsBatched c
Added-IsBatched b q c Added.to_new v =
    put_into-IsBatched (length b.groups) q.impression (open_group q.metadata b)
      (open_group-IsBatched q.metadata b v)
Added-IsBatched b q c (Added.to_old idx e n) v = put_into-IsBatched idx q.impression b v

posted-Added :
    (m : Metadata) (f : Str) (b : ImpBatches) (q : QueueObject) (c : ImpBatches)
    → Added b q c
    → IsBatched b
    → posted m f c.groups ≡ posted m f b.groups ++ posted_by m f q
unfolding new_imps_with_metadata
posted-Added m f b q c Added.to_new v =
    posted-put_into m f (length b.groups) q (open_group q.metadata b)
      (open_group-IsBatched q.metadata b v)
      (LastAt-new group_metadata q.metadata (new_imps_with_metadata q.metadata) b.groups
        (beq_refl q.metadata))
    ∙ ap (λ k. k ++ posted_by m f q) (posted-open_group m q.metadata f b)
posted-Added m f b q c (Added.to_old idx e n) v =
    posted-put_into m f idx q b v
      (subst (λ o. Stands group_metadata q.metadata o b.groups) e (v.indexed q.metadata))

-- The impressions that the manager lets through, in the order in which they were fetched.
module _ {M : Type 0} (process_single : M → Impression → M × Impression × Bool) where
  unfoldable pub accepted : (Str → Option QueueObject) → M → List Str → List QueueObject
  accepted unmarshal m [] = []
  accepted unmarshal m (raw ∷ raws) = elim (unmarshal raw) [
    | none ↦ accepted unmarshal m raws
    | some q ↦
        let (m', i, to_log) = process_single m q.impression in
        let rest = accepted unmarshal m' raws in
        if to_log then record q { impression = i } ∷ rest else rest
  ]

  unfoldable pub posted_all : Metadata → Str → List QueueObject → List KeyImpression
  posted_all m f [] = []
  posted_all m f (q ∷ qs) = posted_by m f q ++ posted_all m f qs

  process_all-posted :
      (unmarshal : Str → Option QueueObject) (s : M) (b : ImpBatches) (raws : List Str)
      (m : Metadata) (f : Str)
      → IsBatched b
      → posted m f (process_all process_single unmarshal (s, b) raws).1.groups
        ≡ posted m f b.groups ++ posted_all m f (accepted unmarshal s raws)
  unfolding process_all process_item accepted posted_all
  process_all-posted unmarshal s b [] m f v = sym (append-nil (posted m f b.groups))
  process_all-posted unmarshal s b (raw ∷ raws) m f v = elim (Option-cases (unmarshal raw)) [
    | inl e ↦
        rw (process_all, process_item, accepted, e) (process_all-posted unmarshal s b raws m f v)
    | inr (q, e) ↦
        let r = process_single s q.impression in
        let q' : QueueObject = record q { impression = r.1 } in
        elim (Bool-cases r.2) [
          | inl t ↦
              rw (process_all, process_item, accepted, e)
                (rw t (
                  process_all-posted unmarshal r.0 (add b q') raws m f
                    (Added-IsBatched b q' (add b q') (add-Added b q') v)
                  ∙ ap (λ k. k ++ posted_all m f (accepted unmarshal r.0 raws))
                      (posted-Added m f b q' (add b q') (add-Added b q') v)
                  ∙ append_assoc (posted m f b.groups) (posted_by m f q')
                      (posted_all m f (accepted unmarshal r.0 raws))))
          | inr n ↦
              rw (process_all, process_item, accepted, e)
                (rw n (process_all-posted unmarshal r.0 b raws m f v))
        ]
  ]

  -- For each metadata and each feature, the bulks that `Process` sends to the sink hold the
  -- impressions that parse and that the manager lets through, each once, in the order in which they
  -- were fetched.
  pub process-posted :
      (unmarshal : Str → Option QueueObject) (s : M) (raws : List Str) (m : Metadata) (f : Str)
      → posted m f (process process_single unmarshal s raws).1
        ≡ posted_all m f (accepted unmarshal s raws)
  unfolding process
  process-posted unmarshal s raws m f =
      process_all-posted unmarshal s no_batches raws m f no_batches-IsBatched
