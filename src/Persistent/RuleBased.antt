-- ===== src/Persistent/RuleBased.antt =====
-- splitio/proxy/storage/persistent/rulebasedsegments.go: the rule-based segments on disk, one gob value for each name,
-- with the segment as JSON inside. Both encodings are parameters.
use split_synchronizer.Optimized.RbHistoric.{RuleBasedSegmentDto}
use split_synchronizer.Persistent.Bolt.{
  Result, ok, err, Collection, new_collection, fetch_all, save_as,
}
use split_synchronizer.Persistent.Splits.{ChangesItem}
use split_synchronizer.Prelude.Str.{Str}
use split_synchronizer.Prelude.{Bool, Option, none, some, List, [], ◌∷◌, ◌++◌, ℤ}

-- `encoding/gob` at the type of the items, and `encoding/json` at that of the rule-based segments.
pub record RbCodec (C : Type 0) : Type 0 where
  pub encode : ChangesItem → Str
  pub decode : Str → Option ChangesItem
  pub marshal : RuleBasedSegmentDto C → Option Str
  pub unmarshal : Str → Option (RuleBasedSegmentDto C)

pub record RbChanges : Type 0 where
  pub collection : Collection
  pub change_number : ℤ

abbrev pub new_rb_changes : RbChanges
new_rb_changes = record { collection = new_collection; change_number = ℤ.pos 0 }

module _ {C : Type 0} (codec : RbCodec C) where
  -- The items of a batch; a segment that has no JSON form is left out.
  pub changes_items : List (RuleBasedSegmentDto C) → List ChangesItem
  changes_items [] = []
  changes_items (s ∷ all) =
      let items = changes_items all in
      elim (codec.marshal s) [
        | none ↦ items
        | some json ↦
            record {
              change_number = s.change_number;
              name = s.name;
              status = s.status;
              json = json;
            }
            ∷ items
      ]

  -- The loop over the items; an error of `SaveAs` is passed over.
  pub save_items : (Str → Str → Bool) → Collection → List ChangesItem → Collection
  unfolding save_as
  save_items accepts c [] = c
  save_items accepts c (item ∷ items) =
      save_items accepts (save_as accepts c item.name (codec.encode item)).0 items

  unfoldable pub update :
      (Str → Str → Bool)
      → RbChanges
      → List (RuleBasedSegmentDto C)
      → List (RuleBasedSegmentDto C)
      → ℤ
      → RbChanges
  unfolding changes_items save_items
  update accepts c to_add to_remove cn = record {
    collection = save_items accepts c.collection (changes_items (to_add ++ to_remove));
    change_number = cn;
  }

  -- The segments of the values that can be decoded.
  decode_all : List Str → List (RuleBasedSegmentDto C)
  decode_all [] = []
  decode_all (value ∷ rest) =
      let segments = decode_all rest in
      elim (codec.decode value) [
        | none ↦ segments
        | some item ↦ elim (codec.unmarshal item.json) [
          | none ↦ segments
          | some segment ↦ segment ∷ segments
        ]
      ]

  unfoldable pub fetch_segments : RbChanges → Result (List (RuleBasedSegmentDto C))
  unfolding fetch_all decode_all
  fetch_segments c = elim (fetch_all c.collection) [
    | err e ↦ err e
    | ok values ↦ ok (decode_all values)
  ]
