-- ===== src/Tests/Params.antt =====
-- Stand-ins for the libraries that the program calls, each with the laws asked of it.
use split_synchronizer.Optimized.Historic.{SplitDto}
use split_synchronizer.Optimized.RbHistoric.{RuleBasedSegmentDto}
use split_synchronizer.Persistent.Segments.{SegmentKey, SegmentChangesItem, Gob}
use split_synchronizer.Persistent.Splits.{Codec}
use split_synchronizer.Prelude.GoMap.{GoMap, lookup, store, lookup-store, store-Distinct, Distinct}
use split_synchronizer.Prelude.Keys.{contains}
use split_synchronizer.Prelude.Named.{find_by}
use split_synchronizer.Prelude.Str.{Str, str_eq, str_beq_iff}
use split_synchronizer.Prelude.{
  ℕ, zero, suc, Bool, true, false, Option, none, some, List, [], ◌∷◌, ◌++◌, if◌then◌else◌, length,
  take, drop, ◌≡◌, refl, arith, ap, ◌∙◌, ℤ, pos, negsuc, minus_one,
}
use split_synchronizer.Storage.RuleBased.{RbSnapshot}
use split_synchronizer.Storage.Splits.{Snapshot}
use split_synchronizer.Telemetry.Latencies.{LatencyCounter}

-- An encoding of the stored segments: texts with their length first, keys with their number first.
abbrev put_text : Str → Str → Str
put_text s rest = length s ∷ (s ++ rest)

abbrev put_int : ℤ → Str → Str
put_int (pos n) rest = 0 ∷ n ∷ rest
put_int (negsuc n) rest = 1 ∷ n ∷ rest

abbrev put_bool : Bool → Str → Str
put_bool false rest = 0 ∷ rest
put_bool true rest = 1 ∷ rest

abbrev put_keys : GoMap Str SegmentKey → Str
put_keys [] = []
put_keys ((n, k) ∷ keys) =
    put_text n (put_text k.name (put_int k.change_number (put_bool k.removed (put_keys keys))))

abbrev text_of : Str → Str
text_of [] = []
text_of (n ∷ rest) = take n rest

abbrev after_text : Str → Str
after_text [] = []
after_text (n ∷ rest) = drop n rest

abbrev int_of : Str → ℤ
int_of (zero ∷ n ∷ rest) = pos n
int_of (suc _ ∷ n ∷ rest) = negsuc n
int_of _ = pos 0

abbrev bool_of : Str → Bool
bool_of (suc _ ∷ rest) = true
bool_of _ = false

abbrev get_keys : ℕ → Str → GoMap Str SegmentKey
get_keys zero bytes = []
get_keys (suc n) bytes =
    let named = after_text bytes in
    let numbered = after_text named in
    (
      text_of bytes,
      record {
        name = text_of named;
        change_number = int_of numbered;
        removed = bool_of (drop 2 numbered);
      },
    )
    ∷ get_keys n (drop 3 numbered)

abbrev put_map : Option (GoMap Str SegmentKey) → Str
put_map none = 0 ∷ []
put_map (some m) = suc (length m) ∷ put_keys m

abbrev encode_item : SegmentChangesItem → Str
encode_item item = put_text item.name (put_map item.keys)

abbrev item_of : Str → Str → SegmentChangesItem × Bool
item_of name [] = (record { name = name; keys = none }, false)
item_of name (zero ∷ rest) = (record { name = name; keys = none }, true)
item_of name (suc n ∷ rest) = (record { name = name; keys = some (get_keys n rest) }, true)

abbrev decode_item : Str → SegmentChangesItem × Bool
decode_item [] = (record { name = []; keys = none }, false)
decode_item (n ∷ rest) = item_of (take n rest) (drop n rest)

take_text : (s rest : Str) → take (length s) (s ++ rest) ≡ s
take_text [] rest = refl
take_text (c ∷ s) rest = ap (λ t. c ∷ t) (take_text s rest)

drop_text : (s rest : Str) → drop (length s) (s ++ rest) ≡ rest
drop_text [] rest = refl
drop_text (c ∷ s) rest = drop_text s rest

int_back :
    (z : ℤ) (b : Bool) (rest : Str)
    → (int_of (put_int z (put_bool b rest)) ≡ z)
      × (bool_of (drop 2 (put_int z (put_bool b rest))) ≡ b)
      × (drop 3 (put_int z (put_bool b rest)) ≡ rest)
int_back (pos n) false rest = (refl, refl, refl)
int_back (pos n) true rest = (refl, refl, refl)
int_back (negsuc n) false rest = (refl, refl, refl)
int_back (negsuc n) true rest = (refl, refl, refl)

keys_back : (keys : GoMap Str SegmentKey) → get_keys (length keys) (put_keys keys) ≡ keys
keys_back [] = refl
keys_back ((n, k) ∷ keys) =
    let rest = put_keys keys in
    let tail = put_int k.change_number (put_bool k.removed rest) in
    let (cn, flag, left) = int_back k.change_number k.removed rest in
    rw
      (
        take_text n (put_text k.name tail),
        drop_text n (put_text k.name tail),
        take_text k.name tail,
        drop_text k.name tail,
        cn,
        flag,
        left,
        keys_back keys,
      )
      refl

map_back :
    (name : Str) (keys : Option (GoMap Str SegmentKey))
    → item_of name (put_map keys) ≡ (record { name = name; keys = keys }, true)
map_back name none = refl
map_back name (some m) = ap (λ k. (record { name = name; keys = some k }, true)) (keys_back m)

pub item_back : (item : SegmentChangesItem) → decode_item (encode_item item) ≡ (item, true)
item_back item =
    let rest = put_map item.keys in
    ap (λ t. item_of t (drop (length item.name) (item.name ++ rest))) (take_text item.name rest)
    ∙ ap (item_of item.name) (drop_text item.name rest)
    ∙ map_back item.name item.keys

abbrev pub gob : Gob
gob = record { encode = encode_item; decode = decode_item; decode-encode = item_back }

-- Bolt takes every value with a key.
abbrev pub takes : Str → Str → Bool
takes [] value = false
takes (c ∷ key) value = true

-- Flags without conditions, of which the disk keeps the names.
abbrev pub codec : Codec ℕ
codec = record {
  encode = λ item. item.json;
  decode =
      λ bytes. some (record { change_number = minus_one; name = bytes; status = []; json = bytes });
  marshal = λ d. some d.name;
  unmarshal = λ bytes. none;
}

-- The snapshot as the list of its flags.
abbrev dto_name : SplitDto ℕ → Str
dto_name d = d.name

abbrev split_of : List (SplitDto ℕ) → Str → Option (SplitDto ℕ)
split_of s n = find_by dto_name n s

pub split_of-name :
    (s : List (SplitDto ℕ)) (n : Str) (d : SplitDto ℕ) → split_of s n ≡ some d → d.name ≡ n
unfolding find_by
split_of-name [] n d e = cc
split_of-name (x ∷ s) n d e = ground (arith, split_of-name s n d, str_beq_iff x.name n)

-- The map that `FetchMany` returns, from what is stored under each name.
module _ {A : Type 0} (get : Str → Option A) where
  unfoldable pub fetch_each : List Str → GoMap Str (Option A)
  unfolding store
  fetch_each [] = []
  fetch_each (n ∷ names) = store n (get n) (fetch_each names)

  pub fetch_each-get :
      (names : List Str) (n : Str)
      → lookup n (fetch_each names) ≡ (if contains n names then some (get n) else none)
  unfolding fetch_each contains lookup
  fetch_each-get [] n = refl
  fetch_each-get (m ∷ names) n = ground (
    arith,
    fetch_each-get names n,
    lookup-store m n (get m) (fetch_each names),
    str_beq_iff m n,
    str_beq_iff n m,
  )

  pub fetch_each-Distinct : (names : List Str) → Distinct (fetch_each names)
  unfolding fetch_each
  fetch_each-Distinct [] = tt
  fetch_each-Distinct (n ∷ names) =
      store-Distinct n (get n) (fetch_each names) (fetch_each-Distinct names)

abbrev pub snapshot : Snapshot ℕ (List (SplitDto ℕ))
snapshot = record {
  empty = [];
  change_number = λ s. some minus_one;
  all = λ s. s;
  split = split_of;
  fetch_many = λ s. fetch_each (split_of s);
  split_names = λ s. [];
  update = λ s to_add to_remove cn. to_add ++ s;
  kill_locally = λ s name treatment cn. s;
  remove = λ s name. s;
  set_change_number = λ s cn. s;
  split-name = split_of-name;
  fetch_many-split = λ s. fetch_each-get (split_of s);
  fetch_many-Distinct = λ s. fetch_each-Distinct (split_of s);
}

abbrev rb_name : RuleBasedSegmentDto ℕ → Str
rb_name d = d.name

abbrev segment_of : List (RuleBasedSegmentDto ℕ) → Str → Option (RuleBasedSegmentDto ℕ)
segment_of s n = find_by rb_name n s

pub segment_of-name :
    (s : List (RuleBasedSegmentDto ℕ)) (n : Str) (d : RuleBasedSegmentDto ℕ)
    → segment_of s n ≡ some d
    → d.name ≡ n
unfolding find_by
segment_of-name [] n d e = cc
segment_of-name (x ∷ s) n d e = ground (arith, segment_of-name s n d, str_beq_iff x.name n)

abbrev pub rb_snapshot : RbSnapshot ℕ (List (RuleBasedSegmentDto ℕ))
rb_snapshot = record {
  empty = [];
  change_number = λ s. some minus_one;
  all = λ s. s;
  by_name = segment_of;
  fetch_many = λ s. fetch_each (segment_of s);
  update = λ s to_add to_remove cn. to_add ++ s;
  replace_all = λ s rbs cn. rbs;
  set_change_number = λ s cn. s;
  by_name-name = segment_of-name;
  fetch_many-by_name = λ s. fetch_each-get (segment_of s);
  fetch_many-Distinct = λ s. fetch_each-Distinct (segment_of s);
}

-- Latencies counted in one bucket.
abbrev pub latency_counter : LatencyCounter ℕ
latency_counter = record {
  fresh = 0;
  incr = λ b n. suc n;
  read_all = λ n. n ∷ [];
  bucket = λ ms. 0;
}
