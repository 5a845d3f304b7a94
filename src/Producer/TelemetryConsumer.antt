-- ===== src/Producer/TelemetryConsumer.antt =====
-- splitio/producer/storage/telemetry.go: what SDKs leave of their telemetry in Redis, taken from there
-- and grouped by the metadata of the SDK. A hash in Redis comes as a list of fields with texts, in the
-- order in which Go runs through it, which may be any. Outside of the repository, and so parameters:
-- the layout of a field, the names of the methods (`classify` is the switch over the constants), the
-- number of buckets, Redis and JSON.
pub mod Methods
pub mod Latencies
use split_synchronizer.Prelude.GoMap.{GoMap, lookup, store}
use split_synchronizer.Prelude.Str.{Str, str}
use split_synchronizer.Prelude.{
  ℕ, zero, suc, ◌+◌, ◌-◌, ◌*◌, ◌^◌, Bool, true, false, ◌&&◌, Option, none, some, List, [], ◌∷◌,
  ◌++◌, if◌then◌else◌, length, get_elem?, set, replicate, ltb, leb, nat_beq, nat_eq, ◌==◌, ℤ, pos,
  negsuc, ltb_ℤ, drop,
}
use split_synchronizer.Producer.Metadata.{Metadata, metadata_eq}
use split_synchronizer.Producer.TelemetryConsumer.Methods.{
  Method, PerMethod, every_method, of_method, put_method,
}

-- A separator, and where the parts of a field stand.
pub record Layout : Type 0 where
  pub separator : Str
  pub sdk_version : ℕ
  pub machine_name : ℕ
  pub machine_ip : ℕ
  pub method : ℕ
  pub bucket : ℕ

-- A value, an error, or a panic: an index out of range.
pub data Parsed (A : Type 0) : Type 0 where
  parsed : A → Parsed A
  invalid : Parsed A
  parse_panicked : Parsed A

unfoldable pub is_prefix : Str → Str → Bool
is_prefix [] s = true
is_prefix (p ∷ ps) [] = false
is_prefix (p ∷ ps) (x ∷ xs) = p == x && is_prefix ps xs

-- `strings.Split` by a separator that is not empty: the part so far, and how much of a separator is
-- still to be skipped.
unfoldable pub split_from : Str → Str → ℕ → Str → List Str
unfolding is_prefix
split_from sep part skip [] = part ∷ []
split_from sep part (suc skip) (x ∷ xs) = split_from sep part skip xs
split_from sep part zero (x ∷ xs) = elim (is_prefix sep (x ∷ xs)) [
  | true ↦ part ∷ split_from sep [] (length sep - 1) xs
  | false ↦ split_from sep (part ++ x ∷ []) zero xs
]

abbrev pub split : Str → Str → List Str
split sep s = split_from sep [] zero s

-- `strconv.ParseInt(s, 10, 64)`
unfoldable pub digits : ℕ → Str → Option ℕ
digits acc [] = some acc
digits acc (x ∷ xs) =
    let rest = digits (acc * 10 + (x - 48)) xs in if leb 48 x && leb x 57 then rest else none

unfoldable pub natural : Str → Option ℕ
unfolding digits
natural [] = none
natural (x ∷ xs) = digits 0 (x ∷ xs)

unfoldable pub parse_int : Str → Option ℤ
unfolding natural
parse_int [] = none
parse_int (x ∷ xs) =
    if nat_beq x 45
    then elim (natural xs) [
      | none ↦ none
      | some zero ↦ some (pos 0)
      | some (suc n) ↦ if ltb n (2 ^ 63) then some (negsuc n) else none
    ]
    else elim (natural (if nat_beq x 43 then xs else x ∷ xs)) [
      | none ↦ none
      | some n ↦ if ltb n (2 ^ 63) then some (pos n) else none
    ]

-- The metadata among the parts.
unfoldable pub metadata_of : Layout → List Str → Option Metadata
metadata_of l parts = elim (get_elem? parts l.sdk_version) [
  | none ↦ none
  | some version ↦ elim (get_elem? parts l.machine_name) [
    | none ↦ none
    | some name ↦ elim (get_elem? parts l.machine_ip) [
      | none ↦ none
      | some ip ↦ some (record { sdk_version = version; machine_name = name; machine_ip = ip })
    ]
  ]
]

-- `parseMetadata`
unfoldable pub parse_metadata : Layout → Str → Parsed Metadata
unfolding split_from metadata_of
parse_metadata l field =
    let parts = split l.separator field in
    if nat_beq (length parts) 3
    then elim (metadata_of l parts) [ none ↦ parse_panicked | some m ↦ parsed m ]
    else invalid

module _ (parse_method : Str → Option Str) where
  -- `parseLatencyField`
  unfoldable pub parse_latency_field : Layout → Str → Parsed (Metadata × Str × ℤ)
  unfolding split_from metadata_of parse_int
  parse_latency_field l field =
      let parts = split l.separator field in
      if nat_beq (length parts) 5
      then elim (get_elem? parts l.method) [
        | none ↦ parse_panicked
        | some raw ↦ elim (parse_method raw) [
          | none ↦ invalid
          | some method ↦ elim (get_elem? parts l.bucket) [
            | none ↦ parse_panicked
            | some text ↦ elim (parse_int text) [
              | none ↦ invalid
              | some bucket ↦ elim (metadata_of l parts) [
                | none ↦ parse_panicked
                | some m ↦ parsed (m, method, bucket)
              ]
            ]
          ]
        ]
      ]
      else invalid

  -- `parseExceptionField`, which answers the method as it stands in the field.
  unfoldable pub parse_exception_field : Layout → Str → Parsed (Metadata × Str)
  unfolding split_from metadata_of
  parse_exception_field l field =
      let parts = split l.separator field in
      if nat_beq (length parts) 4
      then elim (get_elem? parts l.method) [
        | none ↦ parse_panicked
        | some raw ↦ elim (parse_method raw) [
          | none ↦ invalid
          | some method ↦ elim (metadata_of l parts) [
            | none ↦ parse_panicked
            | some m ↦ parsed (m, raw)
          ]
        ]
      ]
      else invalid

abbrev pub MultiMethodLatencies : Type 0
MultiMethodLatencies = GoMap Metadata (PerMethod (List ℤ))

abbrev pub MultiMethodExceptions : Type 0
MultiMethodExceptions = GoMap Metadata (PerMethod ℤ)

-- A write: done, or refused with an error, both with the map as it is then; or a panic.
pub data Written (R : Type 0) : Type 0 where
  written : R → Written R
  refused : R → Written R
  write_panicked : Written R

-- What is taken from Redis: nil after an error of the fetch, else a map, with the hash deleted.
pub data Popped (R : Type 0) : Type 0 where
  fetch_failed : Popped R
  popped : R → Popped R
  pop_panicked : Popped R

module _ (classify : Str → Option Method) (bucket_count : ℕ) where
  unfoldable pub entry_of : Metadata → MultiMethodLatencies → PerMethod (List ℤ)
  unfolding lookup
  entry_of m result = elim (lookup m result) [
    | none ↦ every_method (replicate bucket_count (pos 0))
    | some entry ↦ entry
  ]

  -- `setLatency`
  unfoldable pub set_latency :
      MultiMethodLatencies → Metadata → Str → ℤ → ℤ → Written MultiMethodLatencies
  unfolding entry_of store
  set_latency result m method (negsuc bucket) count = elim (classify method) [
    | none ↦ refused (store m (entry_of m result) result)
    | some k ↦ write_panicked
  ]
  set_latency result m method (pos bucket) count =
      if leb bucket_count bucket then refused result else elim (classify method) [
        | none ↦ refused (store m (entry_of m result) result)
        | some k ↦
            let entry = entry_of m result in
            written (store m (put_method k (set (of_method k entry) bucket count) entry) result)
      ]

  -- `setException`
  unfoldable pub set_exception :
      MultiMethodExceptions → Metadata → Str → ℤ → Written MultiMethodExceptions
  unfolding lookup store
  set_exception result m method count = elim (classify method) [
    | none ↦ refused result
    | some k ↦
        let curr : PerMethod ℤ = elim (lookup m result) [
          | none ↦ every_method (pos 0)
          | some curr ↦ curr
        ] in
        written (store m (put_method k count curr) result)
  ]

-- The map that a write leaves; none after a panic.
abbrev pub after_write : {R : Type 0} → Written R → Option R
after_write (written r) = some r
after_write (refused r) = some r
after_write write_panicked = none

module _ (parse_method : Str → Option Str) (classify : Str → Option Method) (bucket_count : ℕ)
    (layout : Layout) where
  -- One field of `PopLatencies`.
  unfoldable pub add_latency : MultiMethodLatencies → Str → Str → Option MultiMethodLatencies
  unfolding parse_latency_field parse_int set_latency
  add_latency result field count = elim (parse_latency_field parse_method layout field) [
    | parse_panicked ↦ none
    | invalid ↦ some result
    | parsed f ↦ elim (parse_int count) [
      | none ↦ some result
      | some n ↦ after_write (set_latency classify bucket_count result f.0 f.1 f.2 n)
    ]
  ]

  unfoldable pub add_latencies : MultiMethodLatencies → GoMap Str Str → Option MultiMethodLatencies
  unfolding add_latency
  add_latencies result [] = some result
  add_latencies result ((field, count) ∷ kv) = elim (add_latency result field count) [
    | none ↦ none
    | some next ↦ add_latencies next kv
  ]

  -- `PopLatencies`, of what the fetch gives or its error.
  unfoldable pub pop_latencies : Option (GoMap Str Str) → Popped MultiMethodLatencies
  unfolding add_latencies
  pop_latencies none = fetch_failed
  pop_latencies (some kv) = elim (add_latencies [] kv) [
    | none ↦ pop_panicked
    | some result ↦ popped result
  ]

  -- One field of `PopExceptions`.
  unfoldable pub add_exception : MultiMethodExceptions → Str → Str → Option MultiMethodExceptions
  unfolding parse_exception_field parse_int set_exception
  add_exception result field count = elim (parse_exception_field parse_method layout field) [
    | parse_panicked ↦ none
    | invalid ↦ some result
    | parsed f ↦ elim (parse_int count) [
      | none ↦ some result
      | some n ↦ after_write (set_exception classify bucket_count result f.0 f.1 n)
    ]
  ]

  unfoldable pub add_exceptions :
      MultiMethodExceptions → GoMap Str Str → Option MultiMethodExceptions
  unfolding add_exception
  add_exceptions result [] = some result
  add_exceptions result ((field, count) ∷ kv) = elim (add_exception result field count) [
    | none ↦ none
    | some next ↦ add_exceptions next kv
  ]

  -- `PopExceptions`
  unfoldable pub pop_exceptions : Option (GoMap Str Str) → Popped MultiMethodExceptions
  unfolding add_exceptions
  pop_exceptions none = fetch_failed
  pop_exceptions (some kv) = elim (add_exceptions [] kv) [
    | none ↦ pop_panicked
    | some result ↦ popped result
  ]
