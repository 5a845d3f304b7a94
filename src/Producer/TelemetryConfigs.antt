-- ===== src/Producer/TelemetryConfigs.antt =====
-- splitio/producer/storage/telemetry.go: PopConfigs, which takes the configurations that SDKs left in a
-- hash and in a list of Redis, in bulks, until both are empty. Redis is an interface of the four calls
-- on a state `R`, the Booleans saying whether a call succeeded; the type `Config` and JSON are
-- parameters. The loop runs on fuel, for which a theorem shows what is enough.
pub mod Rounds
pub mod Latest
use split_synchronizer.Prelude.GoMap.{GoMap, store}
use split_synchronizer.Prelude.Str.{Str}
use split_synchronizer.Prelude.{
  ℕ, zero, suc, Bool, true, false, ◌&&◌, Option, none, some, List, [], ◌∷◌, ◌++◌, if◌then◌else◌,
  length, ltb, nat_beq,
}
use split_synchronizer.Producer.Metadata.{Metadata, metadata_eq}
use split_synchronizer.Producer.TelemetryConsumer.{
  Layout, Parsed, parsed, invalid, parse_panicked, parse_metadata,
}

pub record RedisClient (R : Type 0) : Type 0 where
  pub hget_all : R → Option (GoMap Str Str)
  pub del : R → R × Bool
  pub lrange : R → ℕ → Option (List Str)
  pub ltrim : R → ℕ → R × Bool

-- `dtos.TelemetryQueueObject`
pub record QueueConfig (Config : Type 0) : Type 0 where
  pub metadata : Metadata
  pub config : Config

-- What one round answers: the objects, whether it was the last, and whether there was an error.
pub record Round (R Config : Type 0) : Type 0 where
  pub redis : R
  pub objects : List (QueueConfig Config)
  pub done : Bool
  pub failed : Bool

abbrev pub config_fetch_bulk_size : ℕ
config_fetch_bulk_size = 1000

abbrev pub or_empty : {A : Type 0} → Option (List A) → List A
or_empty none = []
or_empty (some xs) = xs

abbrev pub is_some : {A : Type 0} → Option A → Bool
is_some none = false
is_some (some a) = true

-- `dedupeAndAdd`
unfoldable pub dedupe_and_add :
    {Config : Type 0} → GoMap Metadata Config → List (QueueConfig Config) → GoMap Metadata Config
unfolding store
dedupe_and_add result [] = result
dedupe_and_add result (o ∷ rest) = dedupe_and_add (store o.metadata o.config result) rest

module _ {R Config : Type 0} (client : RedisClient R) (layout : Layout)
    (unmarshal_config : Str → Option Config)
    (unmarshal_object : Str → Option (QueueConfig Config)) where
  -- The items of the hash; one that does not parse is left out.
  unfoldable pub hash_objects : GoMap Str Str → List (QueueConfig Config)
  unfolding parse_metadata
  hash_objects [] = []
  hash_objects ((meta, raw) ∷ rest) = elim (parse_metadata layout meta) [
    | invalid ↦ hash_objects rest
    | parse_panicked ↦ hash_objects rest
    | parsed m ↦ elim (unmarshal_config raw) [
      | none ↦ hash_objects rest
      | some c ↦ record { metadata = m; config = c } ∷ hash_objects rest
    ]
  ]

  unfoldable pub list_objects : List Str → List (QueueConfig Config)
  list_objects [] = []
  list_objects (raw ∷ rest) = elim (unmarshal_object raw) [
    | none ↦ list_objects rest
    | some o ↦ o ∷ list_objects rest
  ]

  -- `fetchConfigsGreedy`
  unfoldable pub fetch_configs_greedy : ℕ → R → Round R Config
  unfolding hash_objects list_objects
  fetch_configs_greedy limit r =
      let from_hash = client.hget_all r in
      let (r1, deleted) = client.del r in
      let from_list = client.lrange r1 limit in
      let (r2, trimmed) = client.ltrim r1 (length (or_empty from_list)) in
      let succeeded = is_some from_hash && deleted && is_some from_list && trimmed in
      if nat_beq (length (or_empty from_hash)) 0 && nat_beq (length (or_empty from_list)) 0
      then record {
        redis = r2;
        objects = [];
        done = true;
        failed = if succeeded then false else true;
      }
      else (let objects = hash_objects (or_empty from_hash) ++ list_objects (or_empty from_list) in
          if succeeded
          then record {
            redis = r2;
            objects = objects;
            done = ltb (length (or_empty from_list)) limit;
            failed = false;
          }
          else record { redis = r2; objects = objects; done = false; failed = true })

  -- The loop of `PopConfigs`: none when the fuel runs out. An error ends it, without the objects of
  -- its round.
  unfoldable pub pop_rounds : ℕ → ℕ → GoMap Metadata Config → R → Option (R × GoMap Metadata Config)
  unfolding fetch_configs_greedy dedupe_and_add
  pop_rounds zero limit result r = none
  pop_rounds (suc fuel) limit result r =
      let round = fetch_configs_greedy limit r in
      let next = dedupe_and_add result round.objects in
      let rest = pop_rounds fuel limit next round.redis in
      if round.failed
      then some (round.redis, result)
      else if round.done
      then some (round.redis, next)
      else rest

  abbrev pub pop_configs : ℕ → R → Option (R × GoMap Metadata Config)
  pop_configs fuel r = pop_rounds fuel config_fetch_bulk_size [] r
