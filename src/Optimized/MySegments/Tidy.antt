-- ===== src/Optimized/MySegments/Tidy.antt =====
-- What every update keeps of the cache, and when it reports an error.
use split_synchronizer.Optimized.MySegments.{
  Item, text, other, MySegments, add_segment_to_user, without, remove_segment_for_user, add_all,
  remove_all, invalid, update,
}
use split_synchronizer.Optimized.MySegments.Membership.{contains-without}
use split_synchronizer.Prelude.GoMap.{
  lookup, store, delete, lookup-store, lookup-delete, Distinct, store-Distinct, delete-Distinct,
}
use split_synchronizer.Prelude.Keys.{contains, contains-append, Nodups}
use split_synchronizer.Prelude.Str.{Str, str_eq, str_beq_iff}
use split_synchronizer.Prelude.{
  Bool, true, false, ◌&&◌, none, some, List, [], ◌∷◌, ◌++◌, ◌==◌, ◌≡◌, ◌≢◌, refl, arith, Bool-cases,
  Option-cases, inl, inr, ◌↔◌,
}

-- Each key stands once, with at least one segment and each segment once.
pub record IsTidy (m : MySegments) : Type 0 where
  pub distinct : Distinct m
  pub listed :
      (key : Str) (segments : List Str)
      → lookup key m ≡ some segments
      → (segments ≢ []) × Nodups segments

Nodups-snoc : (n : Str) (xs : List Str) → contains n xs ≡ false → Nodups xs → Nodups (xs ++ n ∷ [])
unfolding contains
Nodups-snoc n [] h d = (refl, tt)
Nodups-snoc n (x ∷ xs) h d = (
  ground (arith, contains-append x xs (n ∷ []), str_beq_iff n x, str_beq_iff x n),
  Nodups-snoc n xs (ground arith) d.1,
)

Nodups-without : (n : Str) (xs : List Str) → Nodups xs → Nodups (without n xs)
unfolding contains without
Nodups-without n [] d = tt
Nodups-without n (x ∷ xs) d = ground (arith, Nodups-without n xs d.1, contains-without x n xs)

IsTidy-store :
    (m : MySegments) (k : Str) (segments : List Str)
    → IsTidy m
    → segments ≢ []
    → Nodups segments
    → IsTidy (store k segments m)
IsTidy-store m k segments v ne nd = record {
  distinct = store-Distinct k segments m v.distinct;
  listed = λ key l e. elim (Bool-cases (k == key)) [
    | inl t ↦
        let same : segments ≡ l = ground (arith, lookup-store k key segments m) in
        rw (← same) (ne, nd)
    | inr f ↦ v.listed key l (ground (arith, lookup-store k key segments m))
  ];
}

IsTidy-delete : (m : MySegments) (k : Str) → IsTidy m → IsTidy (delete k m)
IsTidy-delete m k v = record {
  distinct = delete-Distinct k m v.distinct;
  listed = λ key l e. v.listed key l (ground (arith, lookup-delete k key m));
}

IsTidy-add_segment_to_user :
    (m : MySegments) (k name : Str) → IsTidy m → IsTidy (add_segment_to_user m k name)
unfolding add_segment_to_user
IsTidy-add_segment_to_user m k name v = elim (Option-cases (lookup k m)) [
  | inl e ↦
      rw (e, add_segment_to_user)
        (IsTidy-store m k (name ∷ []) v (λ h. cc) (unfold contains in (refl, tt)))
  | inr (l, e) ↦ elim (Bool-cases (contains name l)) [
    | inl t ↦ rw (e, t, add_segment_to_user) v
    | inr f ↦
        rw (e, f, add_segment_to_user)
          (IsTidy-store m k (l ++ name ∷ []) v (snoc_ne l)
            (Nodups-snoc name l f (v.listed k l e).1))
  ]
]
  where
    snoc_ne : (l : List Str) → l ++ name ∷ [] ≢ []
    snoc_ne [] h = cc
    snoc_ne (x ∷ l) h = cc

IsTidy-remove_segment_for_user :
    (m : MySegments) (k name : Str) → IsTidy m → IsTidy (remove_segment_for_user m k name)
unfolding remove_segment_for_user
IsTidy-remove_segment_for_user m k name v = elim (Option-cases (lookup k m)) [
  | inl e ↦ rw (e, remove_segment_for_user) v
  | inr (l, e) ↦
      rw (e, remove_segment_for_user)
        (left (without name l) (Nodups-without name l (v.listed k l e).1))
]
  where
    left :
        (rest : List Str)
        → Nodups rest
        → IsTidy (elim rest [ [] ↦ delete k m | s ∷ others ↦ store k (s ∷ others) m ])
    left [] d = IsTidy-delete m k v
    left (s ∷ others) d = IsTidy-store m k (s ∷ others) v (λ h. cc) d

IsTidy-add_all :
    (m : MySegments) (name : Str) (items : List Item) → IsTidy m → IsTidy (add_all m name items)
unfolding add_all
IsTidy-add_all m name [] v = v
IsTidy-add_all m name (text k ∷ items) v =
    IsTidy-add_all (add_segment_to_user m k name) name items (IsTidy-add_segment_to_user m k name v)
IsTidy-add_all m name (other x ∷ items) v = IsTidy-add_all m name items v

IsTidy-remove_all :
    (m : MySegments) (name : Str) (items : List Item) → IsTidy m → IsTidy (remove_all m name items)
unfolding remove_all
IsTidy-remove_all m name [] v = v
IsTidy-remove_all m name (text k ∷ items) v =
    IsTidy-remove_all (remove_segment_for_user m k name) name items
      (IsTidy-remove_segment_for_user m k name v)
IsTidy-remove_all m name (other x ∷ items) v = IsTidy-remove_all m name items v

-- An update of a tidy cache leaves it tidy: each key stands once, with at least one segment, and each of its
-- segments once.
pub update-IsTidy :
    (m : MySegments) (name : Str) (to_add to_remove : List Item)
    → IsTidy m
    → IsTidy (update m name to_add to_remove).0
unfolding update
update-IsTidy m name to_add to_remove v =
    IsTidy-remove_all _ name to_remove (IsTidy-add_all m name to_add v)

abbrev pub all_text : List Item → Bool
all_text [] = true
all_text (text k ∷ items) = all_text items
all_text (other v ∷ items) = false

invalid-all_text : (items : List Item) → (invalid items ≡ []) ↔ (all_text items ≡ true)
unfolding invalid
invalid-all_text [] = (λ h. refl, λ h. refl)
invalid-all_text (text k ∷ items) = invalid-all_text items
invalid-all_text (other v ∷ items) = (λ h. cc, λ h. cc)

-- `Update` reports an error exactly when an element of one of the two sets is no string.
pub update_error :
    (m : MySegments) (name : Str) (to_add to_remove : List Item)
    → ((update m name to_add to_remove).1 ≡ none) ↔ ((all_text to_add && all_text to_remove) ≡ true)
unfolding update
update_error m name to_add to_remove =
    ground (arith, invalid-all_text to_add, invalid-all_text to_remove)
