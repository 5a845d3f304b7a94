-- ===== src/Producer/TelemetryConsumer/Latencies.antt =====
-- splitio/producer/storage/telemetry.go: which counts the latencies hold.
use split_synchronizer.Prelude.GoMap.{GoMap, lookup, store, lookup-store}
use split_synchronizer.Prelude.Str.{Str}
use split_synchronizer.Prelude.{
  ℕ, zero, suc, ◌<◌, Bool, true, false, ◌&&◌, Option, none, some, List, [], ◌∷◌, if◌then◌else◌,
  length, length-set, length-replicate, get_elem?, set, replicate, leb, nat_beq, nat_eq, int_eq,
  ◌==◌, ℤ, pos, negsuc, ◌≡◌, refl, sym, ap, subst, ◌∙◌, arith, Bool-cases, Option-cases, inl, inr,
}
use split_synchronizer.Producer.Metadata.{Metadata, metadata_eq}
use split_synchronizer.Producer.TelemetryConsumer.Methods.{
  Method, PerMethod, same_method, same_method_eq, of_method, put_method, of_method-put_method,
  of_method-every_method,
}
use split_synchronizer.Producer.TelemetryConsumer.{
  Layout, Parsed, parsed, invalid, parse_panicked, MultiMethodLatencies, popped, pop_panicked,
  parse_int, parse_latency_field, entry_of, set_latency, after_write, add_latency, add_latencies,
  pop_latencies,
}

module _ (parse_method : Str → Option Str) (classify : Str → Option Method) (bucket_count : ℕ)
    (layout : Layout) where
  abbrev number_at : List ℤ → ℕ → ℤ
  number_at xs i = elim (get_elem? xs i) [ none ↦ pos 0 | some n ↦ n ]

  abbrev pub count_in : Option (PerMethod (List ℤ)) → Method → ℕ → ℤ
  count_in none k b = pos 0
  count_in (some entry) k b = number_at (of_method k entry) b

  -- The count of a metadata, a method and a bucket; zero where there is none.
  abbrev pub count_at : Metadata → Method → ℕ → MultiMethodLatencies → ℤ
  count_at m k b result = count_in (lookup m result) k b

  -- The entries have a number for each bucket.
  pub IsSized : MultiMethodLatencies → Type 0
  IsSized result =
      (m : Metadata) (entry : PerMethod (List ℤ)) (k : Method)
      → lookup m result ≡ some entry
      → length (of_method k entry) ≡ bucket_count

  number_at-set :
      (xs : List ℤ) (i j : ℕ) (n : ℤ)
      → i < length xs
      → number_at (set xs i n) j ≡ (if nat_beq i j then n else number_at xs j)
  number_at-set [] i j n h = absurd (omega (arith, h))
  number_at-set (x ∷ xs) zero zero n h = refl
  number_at-set (x ∷ xs) zero (suc j) n h = ground arith
  number_at-set (x ∷ xs) (suc i) zero n h = ground arith
  number_at-set (x ∷ xs) (suc i) (suc j) n h =
      ground (arith, number_at-set xs i j n (omega (arith, h)))

  number_at-replicate : (n i : ℕ) → number_at (replicate n (pos 0)) i ≡ pos 0
  number_at-replicate zero i = refl
  number_at-replicate (suc n) zero = refl
  number_at-replicate (suc n) (suc i) = number_at-replicate n i

  abbrev is_method : Method → Option Method → Bool
  is_method k none = false
  is_method k (some k0) = same_method k0 k

  -- Whether a parsed field is about the metadata, the method and the bucket.
  abbrev pub hit : Metadata → Method → ℕ → Metadata × Str × ℤ → Bool
  hit m k b f = f.0 == m && is_method k (classify f.1) && f.2 == pos b

  -- The number that a field gives for them.
  unfoldable pub given_by : Metadata → Method → ℕ → Str → Str → Option ℤ
  unfolding parse_int parse_latency_field
  given_by m k b field count = elim (parse_latency_field parse_method layout field) [
    | parse_panicked ↦ none
    | invalid ↦ none
    | parsed f ↦ if hit m k b f then parse_int count else none
  ]

  abbrev pub taken : Option ℤ → ℤ → ℤ
  taken none before = before
  taken (some n) before = n

  -- The number that the latest of the fields gives, if one does.
  unfoldable pub latest : Metadata → Method → ℕ → ℤ → GoMap Str Str → ℤ
  unfolding given_by
  latest m k b before [] = before
  latest m k b before ((field, count) ∷ kv) =
      latest m k b (taken (given_by m k b field count) before) kv

  module _ (m0 : Metadata) (result : MultiMethodLatencies) where
    lookup-other : (m : Metadata) → (m0 == m) ≡ true → lookup m0 result ≡ lookup m result
    lookup-other m e = ap (λ z. lookup z result) ((metadata_eq.same_iff m0 m).0 e)

    entry-count :
        (m : Metadata) (k : Method) (b : ℕ)
        → (m0 == m) ≡ true
        → number_at (of_method k (entry_of classify bucket_count m0 result)) b
          ≡ count_at m k b result
    unfolding entry_of
    entry-count m k b e = elim (Option-cases (lookup m0 result)) [
      | inl n ↦
          rw (entry_of, n)
            (ap (λ xs. number_at xs b) (of_method-every_method k (replicate bucket_count (pos 0)))
              ∙ number_at-replicate bucket_count b)
          ∙ ap (λ o. count_in o k b) (sym n ∙ lookup-other m e)
      | inr (entry, s) ↦ rw (entry_of, s) refl ∙ ap (λ o. count_in o k b) (sym s ∙ lookup-other m e)
    ]

    length-entry :
        IsSized result
        → (k : Method)
        → length (of_method k (entry_of classify bucket_count m0 result)) ≡ bucket_count
    unfolding entry_of IsSized
    length-entry h k = elim (Option-cases (lookup m0 result)) [
      | inl n ↦
          rw (entry_of, n)
            (ap (λ xs. length xs) (of_method-every_method k (replicate bucket_count (pos 0)))
              ∙ length-replicate bucket_count (pos 0))
      | inr (entry, s) ↦ rw (entry_of, s) (h m0 entry k s)
    ]

    store-count :
        (entry : PerMethod (List ℤ)) (m : Metadata) (k : Method) (b : ℕ)
        → count_at m k b (store m0 entry result)
          ≡ (if m0 == m then number_at (of_method k entry) b else count_at m k b result)
    store-count entry m k b =
        ap (λ o. count_in o k b) (lookup-store m0 m entry result)
        ∙ elim (Bool-cases (m0 == m)) [ inl t ↦ rw t refl | inr f ↦ rw f refl ]

    store-IsSized :
        (entry : PerMethod (List ℤ))
        → ((k : Method) → length (of_method k entry) ≡ bucket_count)
        → IsSized result
        → IsSized (store m0 entry result)
    unfolding IsSized
    store-IsSized entry l h m e k s = elim (Bool-cases (m0 == m)) [
      | inl t ↦
          let same : entry ≡ e = ground (arith, s, lookup-store m0 m entry result, t) in
          ap (λ z. length (of_method k z)) (sym same) ∙ l k
      | inr f ↦ h m e k (ground (arith, s, lookup-store m0 m entry result, f))
    ]

    -- An entry that is only made changes no count.
    made-count :
        (m : Metadata) (k : Method) (b : ℕ)
        → count_at m k b (store m0 (entry_of classify bucket_count m0 result) result)
          ≡ count_at m k b result
    made-count m k b =
        store-count (entry_of classify bucket_count m0 result) m k b
        ∙ elim (Bool-cases (m0 == m)) [ inl t ↦ rw t (entry-count m k b t) | inr f ↦ rw f refl ]

    put-count :
        (k0 : Method) (x : ℕ) (n : ℤ) (m : Metadata) (k : Method) (b : ℕ)
        → IsSized result
        → x < bucket_count
        → (let entry = entry_of classify bucket_count m0 result in
            count_at m k b (store m0 (put_method k0 (set (of_method k0 entry) x n) entry) result))
          ≡ (if m0 == m && same_method k0 k && nat_beq x b then n else count_at m k b result)
    put-count k0 x n m k b h l =
        let entry = entry_of classify bucket_count m0 result in
        let put = put_method k0 (set (of_method k0 entry) x n) entry in
        store-count put m k b ∙ elim (Bool-cases (m0 == m)) [
          | inr f ↦ rw f refl
          | inl t ↦
              rw (t, of_method-put_method k0 k (set (of_method k0 entry) x n) entry)
                (elim (Bool-cases (same_method k0 k)) [
                  | inr f ↦ rw f (entry-count m k b t)
                  | inl s ↦ rw s (
                      number_at-set (of_method k0 entry) x b n (omega (arith, l, length-entry h k0))
                      ∙ ap (λ z. if nat_beq x b then n else z)
                          (ap (λ z. number_at (of_method z entry) b) (same_method_eq k0 k s)
                            ∙ entry-count m k b t))
                ])
        ]

    put-IsSized :
        (k0 : Method) (x : ℕ) (n : ℤ)
        → IsSized result
        → (let entry = entry_of classify bucket_count m0 result in
            IsSized (store m0 (put_method k0 (set (of_method k0 entry) x n) entry) result))
    put-IsSized k0 x n h =
        let entry = entry_of classify bucket_count m0 result in
        let xs = set (of_method k0 entry) x n in
        store-IsSized (put_method k0 xs entry)
          (λ k. elim (Bool-cases (same_method k0 k)) [
            | inl t ↦
                rw (of_method-put_method k0 k xs entry, t)
                  (length-set (of_method k0 entry) x n ∙ length-entry h k0)
            | inr f ↦ rw (of_method-put_method k0 k xs entry, f) (length-entry h k)
          ])
          h

    -- What one write does to a count.
    abbrev Wrote : Str → ℤ → ℤ → MultiMethodLatencies → Type 0
    Wrote method bucket n next =
        IsSized next
        × ((m : Metadata) (k : Method) (b : ℕ)
            → b < bucket_count
            → count_at m k b next
              ≡ (if hit m k b (m0, method, bucket) then n else count_at m k b result))

    no_hit :
        (method : Str) (bucket : ℤ) (m : Metadata) (k : Method) (b : ℕ)
        → classify method ≡ none
        → hit m k b (m0, method, bucket) ≡ false
    no_hit method bucket m k b e = ground (arith, e)

    made-Wrote :
        (method : Str) (bucket n : ℤ)
        → classify method ≡ none
        → IsSized result
        → Wrote method bucket n (store m0 (entry_of classify bucket_count m0 result) result)
    made-Wrote method bucket n c h = (
      store-IsSized (entry_of classify bucket_count m0 result) (length-entry h) h,
      λ m k b l.
          made-count m k b
          ∙ sym (ap (λ z. if z then n else count_at m k b result) (no_hit method bucket m k b c)),
    )

    failed :
        (method : Str) (bucket n : ℤ) (next : MultiMethodLatencies)
        → classify method ≡ none
        → IsSized result
        → after_write (set_latency classify bucket_count result m0 method bucket n) ≡ some next
        → after_write (set_latency classify bucket_count result m0 method bucket n)
          ≡ some (store m0 (entry_of classify bucket_count m0 result) result)
        → Wrote method bucket n next
    failed method bucket n next c h e made =
        let same : store m0 (entry_of classify bucket_count m0 result) result ≡ next = cc in
        subst (Wrote method bucket n) same (made-Wrote method bucket n c h)

    out_of_range :
        (method : Str) (x : ℕ) (m : Metadata) (k : Method) (b : ℕ)
        → leb bucket_count x ≡ true
        → b < bucket_count
        → hit m k b (m0, method, pos x) ≡ false
    out_of_range method x m k b t l =
        let other : (pos x == pos b) ≡ false = ground (arith, t, l) in ground (arith, other)

    known :
        (method : Str) (x : ℕ) (m : Metadata) (k : Method) (b : ℕ) (k0 : Method)
        → classify method ≡ some k0
        → (m0 == m && same_method k0 k && nat_beq x b) ≡ hit m k b (m0, method, pos x)
    known method x m k b k0 c = ground (arith, c)

    set_latency-Wrote :
        (method : Str) (bucket n : ℤ) (next : MultiMethodLatencies)
        → IsSized result
        → after_write (set_latency classify bucket_count result m0 method bucket n) ≡ some next
        → Wrote method bucket n next
    unfolding set_latency
    set_latency-Wrote method (negsuc x) n next h e = elim (Option-cases (classify method)) [
      | inl c ↦ failed method (negsuc x) n next c h e (rw (set_latency, c) refl)
      | inr (k0, c) ↦
          let panics : after_write (set_latency classify bucket_count result m0 method (negsuc x) n)
              ≡ none =
            rw (set_latency, c) refl in
          absurd cc
    ]
    set_latency-Wrote method (pos x) n next h e = elim (Bool-cases (leb bucket_count x)) [
      | inl t ↦
          let kept : after_write (set_latency classify bucket_count result m0 method (pos x) n)
              ≡ some result =
            rw (set_latency, t) refl in
          let same : result ≡ next = cc in
          subst (Wrote method (pos x) n) same (
            h,
            λ m k b l. sym (
                ap (λ z. if z then n else count_at m k b result) (out_of_range method x m k b t l)),
          )
      | inr f ↦ elim (Option-cases (classify method)) [
        | inl c ↦ failed method (pos x) n next c h e (rw (set_latency, f, c) refl)
        | inr (k0, c) ↦
            let entry = entry_of classify bucket_count m0 result in
            let put : MultiMethodLatencies =
              store m0 (put_method k0 (set (of_method k0 entry) x n) entry) result in
            let done : after_write (set_latency classify bucket_count result m0 method (pos x) n)
                ≡ some put =
              rw (set_latency, f, c) refl in
            let same : put ≡ next = cc in
            subst (Wrote method (pos x) n) same (
              put-IsSized k0 x n h,
              λ m k b l.
                  put-count k0 x n m k b h (ground (arith, f))
                  ∙ ap (λ z. if z then n else count_at m k b result) (known method x m k b k0 c),
            )
      ]
    ]

  -- What one field does to a count.
  abbrev Added : Str → Str → MultiMethodLatencies → MultiMethodLatencies → Type 0
  Added field count result next =
      IsSized next
      × ((m : Metadata) (k : Method) (b : ℕ)
          → b < bucket_count
          → count_at m k b next ≡ taken (given_by m k b field count) (count_at m k b result))

  unchanged :
      (field count : Str) (result next : MultiMethodLatencies)
      → IsSized result
      → ((m : Metadata) (k : Method) (b : ℕ) → given_by m k b field count ≡ none)
      → result ≡ next
      → Added field count result next
  unchanged field count result next h g e =
      subst (Added field count result) e
        (h, λ m k b l. sym (ap (λ o. taken o (count_at m k b result)) (g m k b)))

  chosen :
      (a : Bool) (n : ℤ) (b : Bool)
      → a ≡ b
      → ◌≡◌ {A = Option ℤ} (if a then some n else none) (if b then some n else none)
  chosen a n b e = ap (λ z. if z then some n else none) e

  add_latency-Added :
      (field count : Str) (result next : MultiMethodLatencies)
      → IsSized result
      → add_latency parse_method classify bucket_count layout result field count ≡ some next
      → Added field count result next
  unfolding add_latency given_by
  add_latency-Added field count result next h e =
      go (parse_latency_field parse_method layout field) refl
    where
      go :
          (p : Parsed (Metadata × Str × ℤ))
          → parse_latency_field parse_method layout field ≡ p
          → Added field count result next
      go parse_panicked q =
          let panics : add_latency parse_method classify bucket_count layout result field count
              ≡ none =
            rw (add_latency, q) refl in
          absurd cc
      go invalid q =
          let kept : add_latency parse_method classify bucket_count layout result field count
              ≡ some result =
            rw (add_latency, q) refl in
          unchanged field count result next h (λ m k b. rw (given_by, q) refl) cc
      go (parsed f) q = elim (Option-cases (parse_int count)) [
        | inl z ↦
            let kept : add_latency parse_method classify bucket_count layout result field count
                ≡ some result =
              rw (add_latency, q, z) refl in
            unchanged field count result next h
              (λ m k b.
                rw (given_by, q, z)
                  (elim (Bool-cases (hit m k b f)) [ inl t ↦ rw t refl | inr u ↦ rw u refl ]))
              cc
        | inr (n, z) ↦
            let wrote : add_latency parse_method classify bucket_count layout result field count
                ≡ after_write (set_latency classify bucket_count result f.0 f.1 f.2 n) =
              rw (add_latency, q, z) refl in
            let w = set_latency-Wrote f.0 result f.1 f.2 n next h (sym wrote ∙ e) in
            (
              w.0,
              λ m k b l.
                  w.1 m k b l
                  ∙ (let given : given_by m k b field count
                          ≡ (if hit m k b f then some n else none) =
                        rw (given_by, q, z) refl in
                      elim (Bool-cases (hit m k b f)) [
                        | inl t ↦ rw t (
                            sym (
                              ap (λ o. taken o (count_at m k b result))
                                (given ∙ chosen (hit m k b f) n true t)))
                        | inr u ↦ rw u (
                            sym (
                              ap (λ o. taken o (count_at m k b result))
                                (given ∙ chosen (hit m k b f) n false u)))
                      ]),
            )
      ]

  add_latencies-latest :
      (kv : GoMap Str Str) (result next : MultiMethodLatencies)
      → IsSized result
      → add_latencies parse_method classify bucket_count layout result kv ≡ some next
      → (m : Metadata) (k : Method) (b : ℕ) → b < bucket_count
      → count_at m k b next ≡ latest m k b (count_at m k b result) kv
  unfolding add_latencies latest
  add_latencies-latest [] result next h e m k b l =
      let same : result ≡ next = cc in ap (count_at m k b) (sym same)
  add_latencies-latest ((field, count) ∷ kv) result next h e m k b l =
      elim (Option-cases
        (add_latency parse_method classify bucket_count layout result field count)) [
          | inl n ↦
              let panics : add_latencies parse_method classify bucket_count layout result
                    ((field, count) ∷ kv)
                  ≡ none =
                rw (add_latencies, n) refl in
              absurd cc
          | inr (middle, a) ↦
              let on : add_latencies parse_method classify bucket_count layout result
                    ((field, count) ∷ kv)
                  ≡ add_latencies parse_method classify bucket_count layout middle kv =
                rw (add_latencies, a) refl in
              let added = add_latency-Added field count result middle h a in
              add_latencies-latest kv middle next added.0 (sym on ∙ e) m k b l
              ∙ ap (λ z. latest m k b z kv) (added.1 m k b l)
        ]

  -- Where `PopLatencies` gives a map, each count in it, for a bucket in range, is that of the latest
  -- field that gives one for the metadata, the method and the bucket, and zero if none does.
  pub pop_latencies-latest :
      (kv : GoMap Str Str) (result : MultiMethodLatencies)
      → pop_latencies parse_method classify bucket_count layout (some kv) ≡ popped result
      → (m : Metadata) (k : Method) (b : ℕ) → b < bucket_count
      → count_at m k b result ≡ latest m k b (pos 0) kv
  unfolding pop_latencies IsSized lookup
  pop_latencies-latest kv result e m k b l =
      elim (Option-cases (add_latencies parse_method classify bucket_count layout [] kv)) [
        | inl n ↦
            let panics : pop_latencies parse_method classify bucket_count layout (some kv)
                ≡ pop_panicked =
              rw (pop_latencies, n) refl in
            absurd cc
        | inr (next, a) ↦
            let given : pop_latencies parse_method classify bucket_count layout (some kv)
                ≡ popped next =
              rw (pop_latencies, a) refl in
            let same : next ≡ result = cc in
            ap (count_at m k b) (sym same)
            ∙ add_latencies-latest kv [] next (λ m' entry k' s. absurd cc) a m k b l
      ]
