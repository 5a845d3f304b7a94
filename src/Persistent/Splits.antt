-- ===== src/Persistent/Splits.antt =====
-- splitio/proxy/storage/persistent/splits.go: the feature flags on disk, one gob value for each name,
-- with the flag as JSON inside. Both encodings are parameters.
use split_synchronizer.Optimized.Historic.{SplitDto}
use split_synchronizer.Persistent.Bolt.{
  Result, ok, err, Collection, new_collection, fetch_all, save_as,
}
use split_synchronizer.Prelude.Str.{Str}
use split_synchronizer.Prelude.{Bool, Option, none, some, List, [], ◌∷◌, ◌++◌, ℤ}

pub record ChangesItem : Type 0 where
  pub change_number : ℤ
  pub name : Str
  pub status : Str
  pub json : Str

-- `encoding/gob` at the type of the items, and `encoding/json` at that of the feature flags.
pub record Codec (C : Type 0) : Type 0 where
  pub encode : ChangesItem → Str
  pub decode : Str → Option ChangesItem
  pub marshal : SplitDto C → Option Str
  pub unmarshal : Str → Option (SplitDto C)

pub record SplitChanges : Type 0 where
  pub collection : Collection
  pub change_number : ℤ

abbrev pub new_split_changes : SplitChanges
new_split_changes = record { collection = new_collection; change_number = ℤ.pos 0 }

module _ {C : Type 0} (codec : Codec C) where
  -- The items of a batch; a flag that has no JSON form is left out.
  pub changes_items : List (SplitDto C) → List ChangesItem
  changes_items [] = []
  changes_items (s ∷ splits) =
      let items = changes_items splits in
      elim (codec.marshal s) [
        | none ↦ items
        | some json ↦
            record {
              change_number = s.change_number;
              name = s.name;
              status = s.status;
              json = json;
            }
            ∷ items
      ]

  -- The loop over the items; an error of `SaveAs` is passed over.
  pub save_items : (Str → Str → Bool) → Collection → List ChangesItem → Collection
  unfolding save_as
  save_items accepts c [] = c
  save_items accepts c (item ∷ items) =
      save_items accepts (save_as accepts c item.name (codec.encode item)).0 items

  unfoldable pub update :
      (Str → Str → Bool) → SplitChanges → List (SplitDto C) → List (SplitDto C) → ℤ → SplitChanges
  unfolding changes_items save_items
  update accepts c to_add to_remove cn = record {
    collection = save_items accepts c.collection (changes_items (to_add ++ to_remove));
    change_number = cn;
  }

  -- The flags of the values that can be decoded.
  decode_all : List Str → List (SplitDto C)
  decode_all [] = []
  decode_all (value ∷ rest) =
      let splits = decode_all rest in
      elim (codec.decode value) [
        | none ↦ splits
        | some item ↦ elim (codec.unmarshal item.json) [
          | none ↦ splits
          | some split ↦ split ∷ splits
        ]
      ]

  unfoldable pub fetch_splits : SplitChanges → Result (List (SplitDto C))
  unfolding fetch_all decode_all
  fetch_splits c = elim (fetch_all c.collection) [
    | err e ↦ err e
    | ok values ↦ ok (decode_all values)
  ]
