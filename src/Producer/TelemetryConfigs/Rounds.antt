-- ===== src/Producer/TelemetryConfigs/Rounds.antt =====
-- splitio/producer/storage/telemetry.go: PopConfigs ends, and takes everything once.
use mathlib.Core.List.{append_assoc, append-nil}
use split_synchronizer.Prelude.GoMap.{GoMap, store}
use split_synchronizer.Prelude.Str.{Str}
use split_synchronizer.Prelude.{
  ℕ, zero, suc, ◌<◌, true, false, ◌&&◌, Option, some, List, [], ◌∷◌, ◌++◌, if◌then◌else◌, length,
  take, drop, length-drop, take-append-drop, ltb, nat_beq, ◌≡◌, refl, sym, ap, ◌∙◌, ◌⊎◌, arith,
  Bool-cases, inl, inr,
}
use split_synchronizer.Producer.Metadata.{Metadata, metadata_eq}
use split_synchronizer.Producer.TelemetryConsumer.{Layout}
use split_synchronizer.Producer.TelemetryConfigs.{
  RedisClient, QueueConfig, Round, or_empty, hash_objects, list_objects, fetch_configs_greedy,
  dedupe_and_add, pop_rounds,
}

-- A Redis whose calls succeed: `HGETALL` and `DEL` of the hash, and `LRANGE`, whose end is included,
-- and `LTRIM` of the list.
pub record Works {R : Type 0} (client : RedisClient R) (hash : R → GoMap Str Str)
    (items : R → List Str) : Type 0 where
  pub gets : (r : R) → client.hget_all r ≡ some (hash r)
  pub deletes :
      (r : R)
      → (hash (client.del r).0 ≡ [])
        × (items (client.del r).0 ≡ items r)
        × ((client.del r).1 ≡ true)
  pub ranges : (r : R) (n : ℕ) → client.lrange r n ≡ some (take (suc n) (items r))
  pub trims :
      (r : R) (n : ℕ)
      → (hash (client.ltrim r n).0 ≡ hash r)
        × (items (client.ltrim r n).0 ≡ drop n (items r))
        × ((client.ltrim r n).1 ≡ true)

dedupe-append :
    {Config : Type 0} (result : GoMap Metadata Config) (xs ys : List (QueueConfig Config))
    → dedupe_and_add result (xs ++ ys) ≡ dedupe_and_add (dedupe_and_add result xs) ys
unfolding dedupe_and_add
dedupe-append result [] ys = refl
dedupe-append result (x ∷ xs) ys = dedupe-append (store x.metadata x.config result) xs ys

module _ {R Config : Type 0} (client : RedisClient R) (layout : Layout)
    (unmarshal_config : Str → Option Config) (unmarshal_object : Str → Option (QueueConfig Config))
    (hash : R → GoMap Str Str) (items : R → List Str) (works : Works client hash items) where
  abbrev fetch : ℕ → R → Round R Config
  fetch limit r = fetch_configs_greedy client layout unmarshal_config unmarshal_object limit r

  abbrev hash_of : GoMap Str Str → List (QueueConfig Config)
  hash_of kv = hash_objects client layout unmarshal_config unmarshal_object kv

  abbrev of_hash : R → List (QueueConfig Config)
  of_hash r = hash_objects client layout unmarshal_config unmarshal_object (hash r)

  abbrev of_list : List Str → List (QueueConfig Config)
  of_list xs = list_objects client layout unmarshal_config unmarshal_object xs

  list_objects-append : (xs ys : List Str) → of_list (xs ++ ys) ≡ of_list xs ++ of_list ys
  unfolding list_objects
  list_objects-append [] ys = refl
  list_objects-append (x ∷ xs) ys = ground (arith, list_objects-append xs ys)

  -- One round takes the hash and at most one element more than the limit.
  record Fetched (limit : ℕ) (r : R) (f : Round R Config) : Type 0 where
    failed : f.failed ≡ false
    objects : f.objects ≡ of_hash r ++ of_list (take (suc limit) (items r))
    done : f.done ≡ ltb (length (take (suc limit) (items r))) limit
    hash_left : hash f.redis ≡ []
    items_left : items f.redis ≡ drop (length (take (suc limit) (items r))) (items r)

  listed :
      (limit : ℕ) (r : R)
      → or_empty (client.lrange (client.del r).0 limit) ≡ take (suc limit) (items r)
  listed limit r =
      ap or_empty (works.ranges (client.del r).0 limit) ∙ ap (take (suc limit)) (works.deletes r).1

  abbrev left : ℕ → R → R
  left limit r =
      (client.ltrim (client.del r).0 (length (or_empty (client.lrange (client.del r).0 limit)))).0

  hash-left : (limit : ℕ) (r : R) → hash (left limit r) ≡ []
  hash-left limit r =
      (works.trims (client.del r).0 (length (or_empty (client.lrange (client.del r).0 limit)))).0
      ∙ (works.deletes r).0

  items-left :
      (limit : ℕ) (r : R)
      → items (left limit r) ≡ drop (length (take (suc limit) (items r))) (items r)
  items-left limit r =
      (works.trims (client.del r).0 (length (or_empty (client.lrange (client.del r).0 limit)))).1
      ∙ ap (λ n. drop (length n) (items (client.del r).0)) (listed limit r)
      ∙ ap (drop (length (take (suc limit) (items r)))) (works.deletes r).1

  nothing :
      (kv : GoMap Str Str) (xs : List Str)
      → (nat_beq (length kv) 0 && nat_beq (length xs) 0) ≡ true
      → hash_of kv ++ of_list xs ≡ []
  unfolding hash_objects list_objects
  nothing [] [] e = refl
  nothing [] (x ∷ xs) e = absurd (ground (arith, e))
  nothing (x ∷ kv) xs e = absurd (ground (arith, e))

  fetch-Fetched : (limit : ℕ) (r : R) → 0 < limit → Fetched limit r (fetch limit r)
  unfolding fetch_configs_greedy hash_objects list_objects
  fetch-Fetched limit r p =
      let d = works.deletes r in
      let t =
        works.trims (client.del r).0 (length (or_empty (client.lrange (client.del r).0 limit))) in
      let g = works.gets r in
      let l = works.ranges (client.del r).0 limit in
      let same : hash_of (or_empty (client.hget_all r))
            ++ of_list (or_empty (client.lrange (client.del r).0 limit))
          ≡ of_hash r ++ of_list (take (suc limit) (items r)) =
        ap (λ z. hash_of z ++ of_list (or_empty (client.lrange (client.del r).0 limit)))
          (ap or_empty g)
        ∙ ap (λ z. of_hash r ++ of_list z) (listed limit r) in
      record {
        failed = ground (arith, g, d.2, l, t.2);
        objects = ground (
          arith,
          g,
          d.2,
          l,
          t.2,
          same,
          nothing (or_empty (client.hget_all r)) (or_empty (client.lrange (client.del r).0 limit)),
        );
        done = ground (arith, g, d.2, l, t.2, p, ap (λ z. length z) (listed limit r));
        hash_left = ground (arith, g, d.2, l, t.2, hash-left limit r);
        items_left = ground (arith, g, d.2, l, t.2, items-left limit r);
      }

  drop-length-take : (n : ℕ) (xs : List Str) → drop (length (take n xs)) xs ≡ drop n xs
  drop-length-take zero xs = refl
  drop-length-take (suc n) [] = refl
  drop-length-take (suc n) (x ∷ xs) = drop-length-take n xs

  length-take_or_less :
      (n : ℕ) (xs : List Str)
      → (length (take n xs) ≡ n) ⊎ ((length (take n xs) < n) × (drop n xs ≡ []))
  length-take_or_less zero xs = inl refl
  length-take_or_less (suc n) [] = inr (omega arith, refl)
  length-take_or_less (suc n) (x ∷ xs) = elim (length-take_or_less n xs) [
    | inl e ↦ inl (ap suc e)
    | inr (l, e) ↦ inr (omega (arith, l), e)
  ]

  abbrev rounds : ℕ → ℕ → GoMap Metadata Config → R → Option (R × GoMap Metadata Config)
  rounds fuel limit result r =
      pop_rounds client layout unmarshal_config unmarshal_object fuel limit result r

  last_round :
      (limit : ℕ) (xs : List Str)
      → ltb (length (take (suc limit) xs)) limit ≡ true
      → (take (suc limit) xs ≡ xs) × (drop (suc limit) xs ≡ [])
  last_round limit xs t = elim (length-take_or_less (suc limit) xs) [
    | inl e ↦ absurd (ground (arith, t, e))
    | inr (l, e) ↦ (
      sym (append-nil (take (suc limit) xs))
          ∙ ap (λ z. take (suc limit) xs ++ z) (sym e)
          ∙ take-append-drop (suc limit) xs,
      e,
    )
  ]

  fewer :
      (limit : ℕ) (xs ys : List Str) (fuel : ℕ)
      → ys ≡ drop (length (take (suc limit) xs)) xs
      → ltb (length (take (suc limit) xs)) limit ≡ false
      → 0 < limit
      → length xs < suc fuel
      → length ys < fuel
  fewer limit [] ys fuel e u p l = absurd (ground (arith, u, p))
  fewer limit (x ∷ xs) ys fuel e u p l =
      omega
        (arith, ap (λ z. length z) e, length-drop (length (take (suc limit) (x ∷ xs))) (x ∷ xs), l)

  both_rounds :
      (limit : ℕ) (result : GoMap Metadata Config) (r : R) (g : Round R Config)
      → Fetched limit r g
      → dedupe_and_add
          (dedupe_and_add result g.objects)
          (of_hash g.redis ++ of_list (items g.redis))
        ≡ dedupe_and_add result (of_hash r ++ of_list (items r))
  unfolding hash_objects
  both_rounds limit result r g f =
      let now = of_list (take (suc limit) (items r)) in
      let later = of_list (drop (suc limit) (items r)) in
      ap
        (λ z.
          dedupe_and_add (dedupe_and_add result g.objects) (hash_of z ++ of_list (items g.redis)))
        f.hash_left
      ∙ ap (λ z. dedupe_and_add (dedupe_and_add result g.objects) (of_list z))
          (f.items_left ∙ drop-length-take (suc limit) (items r))
      ∙ ap (λ z. dedupe_and_add (dedupe_and_add result z) later) f.objects
      ∙ sym (dedupe-append result (of_hash r ++ now) later)
      ∙ ap (dedupe_and_add result) (append_assoc (of_hash r) now later)
      ∙ ap (λ z. dedupe_and_add result (of_hash r ++ z))
          (sym (list_objects-append (take (suc limit) (items r)) (drop (suc limit) (items r))))
      ∙ ap (λ z. dedupe_and_add result (of_hash r ++ of_list z))
          (take-append-drop (suc limit) (items r))

  -- The result as a whole: all objects of the hash and then all of the list, put into the map.
  pub pop_rounds-all :
      (fuel limit : ℕ) (result : GoMap Metadata Config) (r : R)
      → 0 < limit
      → length (items r) < fuel
      → (r' : R) × (pop_rounds client layout unmarshal_config unmarshal_object fuel limit result r
          ≡ some (r', dedupe_and_add result (of_hash r ++ of_list (items r))))
        × (items r' ≡ [])
  unfolding pop_rounds
  pop_rounds-all zero limit result r p l = absurd (omega (arith, l))
  pop_rounds-all (suc fuel) limit result r p l =
      let f = fetch-Fetched limit r p in
      let g = fetch limit r in
      let next = dedupe_and_add result g.objects in
      let rest = rounds fuel limit next g.redis in
      let went_on : rounds (suc fuel) limit result r
          ≡ (if g.done then some (g.redis, next) else rest) =
        ap
          (λ b.
            if b then some (g.redis, result) else (if g.done then some (g.redis, next) else rest))
          f.failed in
      elim (Bool-cases (ltb (length (take (suc limit) (items r))) limit)) [
        | inl t ↦
            let none_left = last_round limit (items r) t in
            (
              g.redis,
              went_on
                  ∙ ap (λ b. if b then some (g.redis, next) else rest) (f.done ∙ t)
                  ∙ ap (λ o. some (g.redis, dedupe_and_add result o))
                      (f.objects ∙ ap (λ z. of_hash r ++ of_list z) none_left.0),
              f.items_left ∙ drop-length-take (suc limit) (items r) ∙ none_left.1,
            )
        | inr u ↦
            let ih =
              pop_rounds-all fuel limit next g.redis p
                (fewer limit (items r) (items g.redis) fuel f.items_left u p l) in
            (
              ih.0,
              went_on
                  ∙ ap (λ b. if b then some (g.redis, next) else rest) (f.done ∙ u)
                  ∙ ih.1
                  ∙ ap (λ o. some (ih.0, o)) (both_rounds limit result r g f),
              ih.2,
            )
      ]
