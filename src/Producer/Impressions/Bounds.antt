-- ===== src/Producer/Impressions/Bounds.antt =====
-- splitio/producer/task/impressions.go: how many impressions a bulk holds.
use split_synchronizer.Prelude.GoMap.{lookup}
use split_synchronizer.Prelude.Indexed.{
  update_at, LastAt, Stands, LastAt-new, All-update_at_elem, get_elem?-snoc,
}
use split_synchronizer.Prelude.Keys.{beq_refl}
use split_synchronizer.Prelude.Str.{Str, str_eq}
use split_synchronizer.Prelude.{
  ℕ, zero, suc, length-append, ◌+◌, ◌≤◌, Bool, false, Option, some, List, [], ◌∷◌, ◌++◌, length,
  get_elem?, All, All-append, ◌≡◌, refl, sym, ap, subst, ◌∙◌, arith, Bool-cases, Option-cases, inl,
  inr,
}
use split_synchronizer.Producer.Impressions.Grouping.{
  IsBulk, Added, add-Added, add_impression-IsBulk, test_name,
}
use split_synchronizer.Producer.Impressions.{
  Impression, QueueObject, TestImpressions, ImpsWithMetadata, ImpBatches, default_bulk_size,
  process_item, process_all, process, new_imps_with_metadata, push_impression, add_impression,
  no_batches, open_group, is_over, add,
}
use split_synchronizer.Producer.Metadata.{Metadata}

-- The impressions of all features.
abbrev pub total : List TestImpressions → ℕ
total [] = 0
total (t ∷ ts) = length t.key_impressions + total ts

-- A bulk counts its impressions, and has one more than the default size at most.
pub record IsSized (g : ImpsWithMetadata) : Type 0 where
  pub bulk : IsBulk g
  pub counted : g.count ≡ total g.imps
  pub bounded : g.count ≤ suc default_bulk_size

total-push :
    (i : Impression) (k : Str) (idx : ℕ) (xs : List TestImpressions)
    → LastAt test_name k idx xs
    → total (update_at idx (push_impression i.key_impression) xs) ≡ suc (total xs)
total-push i k idx [] l = absurd l
total-push i k zero (x ∷ xs) l =
    omega (arith, length-append x.key_impressions (i.key_impression ∷ []))
total-push i k (suc idx) (x ∷ xs) l = omega (arith, total-push i k idx xs l)

total-snoc :
    (n : Str) (xs : List TestImpressions)
    → total (xs ++ record { test_name = n; key_impressions = [] } ∷ []) ≡ total xs
total-snoc n [] = refl
total-snoc n (x ∷ xs) = ap (λ k. length x.key_impressions + k) (total-snoc n xs)

add_impression-counted :
    (i : Impression) (g : ImpsWithMetadata)
    → IsBulk g
    → g.count ≡ total g.imps
    → (add_impression i g).count ≡ total (add_impression i g).imps
unfolding add_impression
add_impression-counted i g v c = elim (Option-cases (lookup i.feature_name g.nindex)) [
  | inl e ↦
      let empty : TestImpressions = record { test_name = i.feature_name; key_impressions = [] } in
      let pushed =
        total-push i i.feature_name (length g.imps) (g.imps ++ empty ∷ [])
          (LastAt-new test_name i.feature_name empty g.imps (beq_refl i.feature_name)) in
      rw (e, add_impression)
        (ap (λ k. suc k) (c ∙ sym (total-snoc i.feature_name g.imps)) ∙ sym pushed)
  | inr (idx, e) ↦
      rw (e, add_impression)
        (ap (λ k. suc k) c
          ∙ sym (
              total-push i i.feature_name idx g.imps
                (subst (λ o. Stands test_name i.feature_name o g.imps) e (v i.feature_name))))
]

count-add_impression :
    (i : Impression) (g : ImpsWithMetadata) → (add_impression i g).count ≡ suc g.count
unfolding add_impression
count-add_impression i g = elim (Option-cases (lookup i.feature_name g.nindex)) [
  | inl e ↦ rw (e, add_impression) refl
  | inr (idx, e) ↦ rw (e, add_impression) refl
]

-- An impression put into a bulk that is not over the default size leaves it in bounds.
add_impression-IsSized :
    (i : Impression) (g : ImpsWithMetadata)
    → g.count ≤ default_bulk_size
    → IsSized g
    → IsSized (add_impression i g)
add_impression-IsSized i g room v = record {
  bulk = add_impression-IsBulk i g v.bulk;
  counted = add_impression-counted i g v.bulk v.counted;
  bounded = omega (arith, room, count-add_impression i g);
}

not_over :
    (b : ImpBatches) (idx : ℕ) (g : ImpsWithMetadata)
    → is_over b idx ≡ false
    → get_elem? b.groups idx ≡ some g
    → g.count ≤ default_bulk_size
unfolding is_over
not_over b idx g n e = ground (arith, n, e)

new_imps-IsSized : (m : Metadata) → IsSized (new_imps_with_metadata m)
unfolding new_imps_with_metadata lookup
new_imps-IsSized m = record { bulk = λ k. tt; counted = refl; bounded = omega arith }

fresh_room :
    (m : Metadata) (b : ImpBatches) (g : ImpsWithMetadata)
    → get_elem? (open_group m b).groups (length b.groups) ≡ some g
    → g.count ≤ default_bulk_size
unfolding new_imps_with_metadata
fresh_room m b g at =
    let e = sym (get_elem?-snoc (new_imps_with_metadata m) b.groups) ∙ at in ground (arith, e)

Added-IsSized :
    (b : ImpBatches) (q : QueueObject) (c : ImpBatches)
    → Added b q c
    → All IsSized b.groups
    → All IsSized c.groups
unfolding new_imps_with_metadata
Added-IsSized b q c (Added.to_old idx e n) v =
    All-update_at_elem IsSized (add_impression q.impression) idx b.groups
      (λ g at p. add_impression-IsSized q.impression g (not_over b idx g n at) p) v
Added-IsSized b q c Added.to_new v =
    All-update_at_elem IsSized (add_impression q.impression) (length b.groups)
      (b.groups ++ new_imps_with_metadata q.metadata ∷ [])
      (λ g at p. add_impression-IsSized q.impression g (fresh_room q.metadata b g at) p)
      (All-append IsSized b.groups (new_imps_with_metadata q.metadata ∷ []) v
        (new_imps-IsSized q.metadata, tt))

module _ {M : Type 0} (process_single : M → Impression → M × Impression × Bool) where
  process_all-IsSized :
      (unmarshal : Str → Option QueueObject) (s : M) (b : ImpBatches) (raws : List Str)
      → All IsSized b.groups
      → All IsSized (process_all process_single unmarshal (s, b) raws).1.groups
  unfolding process_all process_item
  process_all-IsSized unmarshal s b [] v = v
  process_all-IsSized unmarshal s b (raw ∷ raws) v = elim (Option-cases (unmarshal raw)) [
    | inl e ↦ rw (process_all, process_item, e) (process_all-IsSized unmarshal s b raws v)
    | inr (q, e) ↦
        let r = process_single s q.impression in
        let q' : QueueObject = record q { impression = r.1 } in
        elim (Bool-cases r.2) [
          | inl t ↦
              rw (process_all, process_item, e)
                (rw t (
                  process_all-IsSized unmarshal r.0 (add b q') raws
                    (Added-IsSized b q' (add b q') (add-Added b q') v)))
          | inr n ↦
              rw (process_all, process_item, e) (rw n (process_all-IsSized unmarshal r.0 b raws v))
        ]
  ]

  -- Every bulk that `Process` sends to the sink counts its impressions, and has at most one more than
  -- the default size of 5000.
  pub process-IsSized :
      (unmarshal : Str → Option QueueObject) (s : M) (raws : List Str)
      → All IsSized (process process_single unmarshal s raws).1
  unfolding process
  process-IsSized unmarshal s raws = process_all-IsSized unmarshal s no_batches raws tt
