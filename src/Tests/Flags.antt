-- ===== src/Tests/Flags.antt =====
-- Two feature flags in a history of two updates, and requests for what changed.
use split_synchronizer.Optimized.Historic.Incoming.{count, Once}
use split_synchronizer.Optimized.Historic.FlagSets.{
  set_name, next_association, find_by-update_flagsets,
}
use split_synchronizer.Optimized.Historic.History.{
  IsHistory, view_name, view_after, update-IsHistory, find_by-update,
}
use split_synchronizer.Optimized.Historic.Matching.{
  intersects-true, intersects-true_single, intersects_skips,
}
use split_synchronizer.Optimized.Historic.Query.{is_wanted, get_updated_since-select}
use split_synchronizer.Optimized.Historic.{
  FlagSetView, FeatureView, SplitDto, active_status, intersects, update, update_flagsets,
  get_updated_since,
}
use split_synchronizer.Prelude.Named.{find_by}
use split_synchronizer.Prelude.Str.{Str, str, str_compare}
use split_synchronizer.Prelude.{
  ℕ, true, false, List, [], ◌∷◌, ◌++◌, ◌≡◌, refl, arith, ℤ, pos, ltb, select, inl, inr,
}

abbrev pub flag : Str → Str → ℤ → List Str → SplitDto ℕ
flag name status cn sets = record {
  name = name;
  status = status;
  change_number = cn;
  traffic_type_name = str "user";
  sets = sets;
  traffic_allocation = 100;
  traffic_allocation_seed = pos 1;
  seed = pos 2;
  killed = false;
  default_treatment = str "off";
  algo = 2;
  conditions = 7 ∷ [];
}

abbrev pub f1 : SplitDto ℕ
f1 = flag (str "f1") active_status (pos 3) (str "s1" ∷ [])

abbrev pub f2 : SplitDto ℕ
f2 = flag (str "f2") active_status (pos 5) (str "s2" ∷ [])

abbrev f1_archived : SplitDto ℕ
f1_archived = flag (str "f1") (str "ARCHIVED") (pos 8) []

Once-nil : Once []
unfolding count
Once-nil n = ground arith

Once-one : (s : Str) → Once (s ∷ [])
unfolding count
Once-one s n = ground arith

empty-IsHistory : IsHistory []
empty-IsHistory = record { sorted = tt; distinct = tt; sets = tt }

abbrev pub h : List FeatureView
h = update [] (f1 ∷ f2 ∷ []) []

pub h-IsHistory : IsHistory h
h-IsHistory =
    update-IsHistory [] (f1 ∷ f2 ∷ []) [] empty-IsHistory
      (Once-one (str "s1"), (Once-one (str "s2"), tt)) tt

update-IsHistory_example : IsHistory (update h [] (f1_archived ∷ []))
update-IsHistory_example = update-IsHistory h [] (f1_archived ∷ []) h-IsHistory tt (Once-nil, tt)

find_by-update_example :
    find_by view_name (str "f1") (update h (f2 ∷ []) (f1_archived ∷ []))
    ≡ view_after (str "f1") (find_by view_name (str "f1") h) (f2 ∷ f1_archived ∷ [])
find_by-update_example = find_by-update (str "f1") h (f2 ∷ []) (f1_archived ∷ []) h-IsHistory

get_updated_since-select_example :
    get_updated_since h (pos 3) (str "s2" ∷ str "s1" ∷ [])
    ≡ select (is_wanted (pos 3) (str "s2" ∷ str "s1" ∷ [])) h
get_updated_since-select_example =
    get_updated_since-select h (pos 3) (str "s2" ∷ str "s1" ∷ []) h-IsHistory

abbrev joined : FlagSetView
joined = record { name = str "s1"; active = true; last_updated = pos 3 }

abbrev left_at_4 : FlagSetView
left_at_4 = record { name = str "s3"; active = false; last_updated = pos 4 }

find_by-update_flagsets_example :
    find_by set_name (str "s1") (update_flagsets (joined ∷ left_at_4 ∷ []) (str "s3" ∷ []) (pos 9))
    ≡ next_association
        (pos 9)
        (str "s1")
        (ltb 0 (count (str "s1") (str "s3" ∷ [])))
        (find_by set_name (str "s1") (joined ∷ left_at_4 ∷ []))
unfolding find_by str_compare
find_by-update_flagsets_example =
    find_by-update_flagsets (joined ∷ left_at_4 ∷ []) (str "s3" ∷ []) (pos 9) (str "s1")
      (refl, (refl, tt)) (Once-one (str "s3"))

intersects-true_example :
    intersects (pos 2) (joined ∷ left_at_4 ∷ []) (str "s3" ∷ str "s4" ∷ []) ≡ true
unfolding str_compare
intersects-true_example =
    intersects-true (pos 2) (str "s3") (joined ∷ left_at_4 ∷ []) (str "s3" ∷ str "s4" ∷ [])
      ((refl, tt), (tt, tt)) ((refl, tt), (tt, tt)) (inl refl) (inr (inl (refl, refl)))

single_found : intersects (pos 2) (joined ∷ left_at_4 ∷ []) (str "s3" ∷ []) ≡ true
unfolding str_compare
single_found =
    intersects-true_single (pos 2) (str "s3") (joined ∷ left_at_4 ∷ []) ((refl, tt), (tt, tt))
      (inr (inl (refl, refl)))

-- The flag is in the last requested set, and is missed.
intersects_skips_example :
    intersects (pos 2) (left_at_4 ∷ []) (str "s1" ∷ (str "s2" ∷ []) ++ str "s3" ∷ [])
    ≡ intersects (pos 2) [] (str "s3" ∷ [])
unfolding str_compare
intersects_skips_example =
    intersects_skips (pos 2) left_at_4 [] (str "s1") (str "s2" ∷ []) (str "s3") (refl, (refl, tt))
