-- ===== src/Tests/Caches.antt =====
-- A cache as a list of keys with a surrogate each, and what synchronizations evict from it.
use split_synchronizer.Prelude.Str.{Str, str, str_compare, str_eq}
use split_synchronizer.Prelude.{
  Bool, true, false, not, ◌&&◌, ◌||◌, Option, some, List, [], ◌∷◌, ◌++◌, ◌==◌, select, ℤ, pos, ◌≡◌,
  refl, arith,
}
use split_synchronizer.Proxy.Caching.Fresh.{Cleared, synchronize_segment-Cleared}
use split_synchronizer.Proxy.Caching.Synced.{SyncedAll, synchronize_segments-SyncedAll}
use split_synchronizer.Prelude.GoMap.{GoMap}
use split_synchronizer.Prelude.Keys.{contains}
use split_synchronizer.Proxy.Caching.Keys.{my_segments_path, key_factory-shared}
use split_synchronizer.Proxy.Caching.{
  CacheFlusher, Request, SegmentResult, key_factory, synchronize_segments, evict_my_segments,
  synchronize_segment,
}

abbrev any : {A : Type 0} → (A → Bool) → List A → Bool
any p [] = false
any p (x ∷ xs) = p x || any p xs

any-select :
    {A : Type 0} (p q : A → Bool) (xs : List A) → any p (select q xs) ≡ true → any p xs ≡ true
any-select p q [] h = h
any-select p q (x ∷ xs) h = ground (arith, h, any-select p q xs)

any-select_never :
    {A : Type 0} (p q : A → Bool) (xs : List A)
    → ((x : A) → q x ≡ true → p x ≡ false)
    → any p (select q xs) ≡ false
any-select_never p q [] h = refl
any-select_never p q (x ∷ xs) h = ground (arith, h x, any-select_never p q xs h)

any-select_less :
    {A : Type 0} (p q : A → Bool) (xs : List A) → any p xs ≡ false → any p (select q xs) ≡ false
any-select_less p q [] h = h
any-select_less p q (x ∷ xs) h = ground (arith, h, any-select_less p q xs)

abbrev Entry : Type 0
Entry = Str × Str

abbrev has_key : Str → Entry → Bool
has_key key e = e.0 == key

abbrev has_both : Str → Str → Entry → Bool
has_both surrogate key e = e.1 == surrogate && e.0 == key

abbrev keyless : Str → Entry → Bool
keyless key e = not (e.0 == key)

abbrev untagged : Str → Entry → Bool
untagged surrogate e = not (e.1 == surrogate)

no_key : (key : Str) (c : List Entry) → any (has_key key) (select (keyless key) c) ≡ false
no_key key c = any-select_never (has_key key) (keyless key) c (λ e n. ground (arith, n))

no_tag : (s key : Str) (c : List Entry) → any (has_both s key) (select (untagged s) c) ≡ false
no_tag s key c = any-select_never (has_both s key) (untagged s) c (λ e n. ground (arith, n))

tag_gone :
    (s key : Str) (c : List Entry)
    → any (has_both s key) (select (untagged s) c) ≡ true
    → any (has_key key) (select (untagged s) c) ≡ false
tag_gone s key c t = absurd (ground (arith, t, no_tag s key c))

abbrev list_cache : CacheFlusher (List Entry)
list_cache = record {
  evict = λ key c. select (keyless key) c;
  evict_by_surrogate = λ s c. select (untagged s) c;
  holds = λ key c. any (has_key key) c;
  tagged = λ s key c. any (has_both s key) c;
  evicted = no_key;
  evicted_by_surrogate = tag_gone;
  evict_adds_none = λ other key c. any-select_less (has_key key) (keyless other) c;
  surrogate_adds_none = λ s key c. any-select_less (has_key key) (untagged s) c;
  evict_tags_none = λ other s key c. any-select (has_both s key) (keyless other) c;
  surrogate_tags_none = λ other s key c. any-select (has_both s key) (untagged other) c;
}

abbrev cached : List Entry
cached = (str "/api/mySegments/k1", []) ∷ (str "/api/splitChanges", str "sp") ∷ []

abbrev answer : SegmentResult
answer = record { new_change_number = pos 8; updated_keys = str "k1" ∷ [] }

abbrev cn_of : ℤ → Str → ℤ
cn_of w name = w

abbrev synchronized : ℤ → ℤ × Option SegmentResult
synchronized w = (pos 8, some answer)

ran :
    synchronize_segment list_cache cn_of synchronized (str "seg") (pos 3, cached)
    ≡ some ((pos 8, (str "/api/splitChanges", str "sp") ∷ []), answer)
unfolding synchronize_segment evict_my_segments str_compare
ran = refl

synchronize_segment-Cleared_example :
    Cleared list_cache {W = ℤ}
      (pos 3)
      (str "seg")
      ((pos 8, (str "/api/splitChanges", str "sp") ∷ []), answer)
synchronize_segment-Cleared_example =
    synchronize_segment-Cleared list_cache cn_of synchronized (str "seg") (pos 3) cached
      ((pos 8, (str "/api/splitChanges", str "sp") ∷ []), answer) ran

-- One segment is in use, at change number 3.
abbrev number_of : ℤ → Str → ℤ
number_of w name = w

abbrev names_of : ℤ → List Str
names_of w = str "seg" ∷ []

abbrev all_synced : ℤ → ℤ × GoMap Str SegmentResult
all_synced w = (pos 8, (str "seg", answer) ∷ [])

synchronize_segments-SyncedAll_example :
    let ((w', c'), results) =
      synchronize_segments list_cache number_of names_of all_synced (pos 3, cached) in
    ((w', results) ≡ all_synced (pos 3))
    × SyncedAll list_cache (λ name. contains name (names_of (pos 3))) (number_of (pos 3)) results c'
synchronize_segments-SyncedAll_example =
    synchronize_segments-SyncedAll list_cache number_of names_of all_synced (pos 3) cached

abbrev moved_to : ℤ → ℤ × Bool
moved_to w = (pos 8, true)

abbrev number : ℤ → ℤ
number w = w

abbrev with_query : Request
with_query = record { accept_encoding = []; path = str "/api/mySegments/a"; raw_query = str "b" }

key_factory-shared_example :
    key_factory with_query
    ≡ key_factory
        (record with_query { path = my_segments_path (str "a" ++ str "b"); raw_query = [] })
key_factory-shared_example = key_factory-shared (str "a") with_query refl
