-- ===== src/Producer/TelemetryConfigs/Latest.antt =====
-- splitio/producer/storage/telemetry.go: which configuration PopConfigs answers for each SDK.
use split_synchronizer.Prelude.GoMap.{GoMap, lookup, store, lookup-store}
use split_synchronizer.Prelude.Str.{Str}
use split_synchronizer.Prelude.{
  ℕ, ◌<◌, Option, none, some, List, [], ◌∷◌, ◌++◌, if◌then◌else◌, length, ◌==◌, ◌≡◌, refl, arith,
}
use split_synchronizer.Producer.Metadata.{Metadata, metadata_eq}
use split_synchronizer.Producer.TelemetryConsumer.{
  Layout, parsed, invalid, parse_panicked, parse_metadata,
}
use split_synchronizer.Producer.TelemetryConfigs.Rounds.{Works, pop_rounds-all}
use split_synchronizer.Producer.TelemetryConfigs.{
  RedisClient, QueueConfig, hash_objects, list_objects, dedupe_and_add, pop_rounds,
}

abbrev pub or_else : {A : Type 0} → Option A → Option A → Option A
or_else none o = o
or_else (some a) o = some a

module _ {Config : Type 0} (m : Metadata) where
  abbrev pub config_of : QueueConfig Config → Option Config
  config_of o = if o.metadata == m then some o.config else none

  -- The last configuration of the metadata among some objects.
  abbrev pub last_config : List (QueueConfig Config) → Option Config
  last_config [] = none
  last_config (o ∷ rest) = or_else (last_config rest) (config_of o)

  last_config-append :
      (xs ys : List (QueueConfig Config))
      → last_config (xs ++ ys) ≡ or_else (last_config ys) (last_config xs)
  last_config-append [] ys = ground arith
  last_config-append (x ∷ xs) ys = ground (arith, last_config-append xs ys)

  lookup-dedupe_and_add :
      (result : GoMap Metadata Config) (objects : List (QueueConfig Config))
      → lookup m (dedupe_and_add result objects) ≡ or_else (last_config objects) (lookup m result)
  unfolding dedupe_and_add
  lookup-dedupe_and_add result [] = refl
  lookup-dedupe_and_add result (o ∷ rest) = ground (
    arith,
    lookup-dedupe_and_add (store o.metadata o.config result) rest,
    lookup-store o.metadata m o.config result,
  )

  -- The last configuration of the metadata among the elements of the list, as they stand in Redis.
  abbrev pub last_listed : (Str → Option (QueueConfig Config)) → List Str → Option Config
  last_listed unmarshal [] = none
  last_listed unmarshal (raw ∷ rest) =
      or_else (last_listed unmarshal rest)
        (elim (unmarshal raw) [ none ↦ none | some o ↦ config_of o ])

  -- The same among the fields of the hash, whose names are parsed.
  abbrev pub last_hashed : Layout → (Str → Option Config) → GoMap Str Str → Option Config
  last_hashed layout unmarshal [] = none
  last_hashed layout unmarshal ((field, raw) ∷ rest) =
      or_else (last_hashed layout unmarshal rest) (elim (parse_metadata layout field) [
        | invalid ↦ none
        | parse_panicked ↦ none
        | parsed p ↦ if p == m then unmarshal raw else none
      ])

module _ {R Config : Type 0} (client : RedisClient R) (layout : Layout)
    (unmarshal_config : Str → Option Config)
    (unmarshal_object : Str → Option (QueueConfig Config)) where
  last_config-list_objects :
      (m : Metadata) (items : List Str)
      → last_config m (list_objects client layout unmarshal_config unmarshal_object items)
        ≡ last_listed m unmarshal_object items
  unfolding list_objects
  last_config-list_objects m [] = refl
  last_config-list_objects m (raw ∷ rest) = ground (arith, last_config-list_objects m rest)

  last_config-hash_objects :
      (m : Metadata) (fields : GoMap Str Str)
      → last_config m (hash_objects client layout unmarshal_config unmarshal_object fields)
        ≡ last_hashed m layout unmarshal_config fields
  unfolding hash_objects
  last_config-hash_objects m [] = refl
  last_config-hash_objects m ((field, raw) ∷ rest) = ground (arith, last_config-hash_objects m rest)

  -- Where the calls of Redis succeed, and with fuel for one round more than the list has elements,
  -- PopConfigs ends without an error and leaves the list empty. Its map has for each metadata the last
  -- configuration that the list holds, else the last one that the hash holds, else the one from before;
  -- an element that does not parse counts as absent.
  pub pop_rounds-latest :
      (hash : R → GoMap Str Str) (items : R → List Str) (works : Works client hash items)
      (fuel limit : ℕ) (result : GoMap Metadata Config) (r : R)
      → 0 < limit
      → length (items r) < fuel
      → (r' : R) × (after : GoMap Metadata Config) × (pop_rounds client layout unmarshal_config
            unmarshal_object fuel limit result r
          ≡ some (r', after))
        × (items r' ≡ [])
        × ((m : Metadata)
            → lookup m after
              ≡ or_else
                  (last_listed m unmarshal_object (items r))
                  (or_else (last_hashed m layout unmarshal_config (hash r)) (lookup m result)))
  pop_rounds-latest hash items works fuel limit result r p l =
      let hashed = hash_objects client layout unmarshal_config unmarshal_object (hash r) in
      let listed = list_objects client layout unmarshal_config unmarshal_object (items r) in
      let (r', e, empty) =
        pop_rounds-all client layout unmarshal_config unmarshal_object hash items works fuel limit
          result r p l in
      (
        r',
        dedupe_and_add result (hashed ++ listed),
        e,
        empty,
        λ m. ground (
          arith,
          lookup-dedupe_and_add m result (hashed ++ listed),
          last_config-append m hashed listed,
          last_config-list_objects m (items r),
          last_config-hash_objects m (hash r),
        ),
      )
