-- ===== src/Producer/TelemetryWorker/Join.antt =====
-- splitio/producer/worker/telemetry.go: which statistics are recorded for which SDK.
use split_synchronizer.Prelude.GoMap.{GoMap, lookup, store, lookup-store, Distinct}
use split_synchronizer.Prelude.{
  Option, none, some, [], ◌∷◌, if◌then◌else◌, ◌==◌, ◌≡◌, refl, sym, ap, ◌∙◌, Bool-cases,
  Option-cases, inl, inr,
}
use split_synchronizer.Producer.Metadata.{Metadata, metadata_eq}
use split_synchronizer.Producer.TelemetryWorker.{
  Stats, with_latencies, with_exceptions, build_stats,
}

lookup-nil : {V : Type 0} (m : Metadata) → ◌≡◌ {A = Option V} (lookup m []) none
unfolding lookup
lookup-nil m = refl

lookup-cons :
    {V : Type 0} (m n : Metadata) (v : V) (rest : GoMap Metadata V)
    → lookup m ((n, v) ∷ rest) ≡ (if n == m then some v else lookup m rest)
unfolding lookup
lookup-cons m n v rest = refl

module _ {L X : Type 0} where
  -- Both of a metadata, where there is one of them at least.
  abbrev pub joined : Option L → Option X → Option (Stats L X)
  joined none none = none
  joined none (some x) = some (record { method_latencies = none; method_exceptions = some x })
  joined (some l) x = some (record { method_latencies = some l; method_exceptions = x })

  abbrev found : Option L → Option (Stats L X) → Option X → Option (Stats L X)
  found none before x = before
  found (some l) before x = joined (some l) x

  with_latencies-lookup :
      (m : Metadata) (excs : GoMap Metadata X) (result : GoMap Metadata (Stats L X))
      (lats : GoMap Metadata L)
      → Distinct lats
      → lookup m (with_latencies excs result lats)
        ≡ found (lookup m lats) (lookup m result) (lookup m excs)
  unfolding with_latencies
  with_latencies-lookup m excs result [] d =
      ap (λ o. found o (lookup m result) (lookup m excs)) (sym (lookup-nil m))
  with_latencies-lookup m excs result ((n, l) ∷ lats) d =
      let stats : Stats L X = record {
        method_latencies = some l;
        method_exceptions = lookup n excs;
      } in
      with_latencies-lookup m excs (store n stats result) lats d.1 ∙ elim (Bool-cases (n == m)) [
        | inl t ↦
            let same : n ≡ m = (metadata_eq.same_iff n m).0 t in
            let gone : lookup m lats ≡ none = ap (λ z. lookup z lats) (sym same) ∙ d.0 in
            ap (λ o. found o (lookup m (store n stats result)) (lookup m excs)) gone
            ∙ lookup-store n m stats result
            ∙ ap (λ b. if b then some stats else lookup m result) t
            ∙ ap (λ z. joined (some l) (lookup z excs)) same
            ∙ ap (λ o. found o (lookup m result) (lookup m excs))
                (sym (lookup-cons m n l lats ∙ ap (λ b. if b then some l else lookup m lats) t))
        | inr f ↦
            ap (λ o. found (lookup m lats) o (lookup m excs))
              (lookup-store n m stats result
                ∙ ap (λ b. if b then some stats else lookup m result) f)
            ∙ ap (λ o. found o (lookup m result) (lookup m excs))
                (sym (lookup-cons m n l lats ∙ ap (λ b. if b then some l else lookup m lats) f))
      ]

  abbrev or_made : Option (Stats L X) → Option X → Option (Stats L X)
  or_made none none = none
  or_made none (some x) = joined none (some x)
  or_made (some s) x = some s

  -- One round of the loop over the exceptions.
  abbrev made : Metadata → X → GoMap Metadata (Stats L X) → GoMap Metadata (Stats L X)
  made n x result = elim (lookup n result) [
    | none ↦ store n (record { method_latencies = none; method_exceptions = some x }) result
    | some stats ↦ result
  ]

  lookup-made :
      (m n : Metadata) (x : X) (result : GoMap Metadata (Stats L X))
      → lookup m (made n x result)
        ≡ (if n == m then or_made (lookup m result) (some x) else lookup m result)
  lookup-made m n x result =
      let fresh : Stats L X = record { method_latencies = none; method_exceptions = some x } in
      let step : Option (Stats L X) → Option (Stats L X) = λ o.
        lookup m (elim o as (λ z. GoMap Metadata (Stats L X)) [
          | none ↦ store n fresh result
          | some s ↦ result
        ]) in
      elim (Bool-cases (n == m)) [
        | inl t ↦
            let same : lookup n result ≡ lookup m result =
              ap (λ z. lookup z result) ((metadata_eq.same_iff n m).0 t) in
            elim (Option-cases (lookup n result)) [
              | inl e ↦
                  ap step e
                  ∙ lookup-store n m fresh result
                  ∙ ap (λ b. if b then some fresh else lookup m result) t
                  ∙ ap (λ o. or_made o (some x)) (sym e ∙ same)
                  ∙ sym (
                      ap (λ b. if b then or_made (lookup m result) (some x) else lookup m result) t)
              | inr (s, e) ↦
                  ap step e
                  ∙ sym same
                  ∙ e
                  ∙ ap (λ o. or_made o (some x)) (sym e ∙ same)
                  ∙ sym (
                      ap (λ b. if b then or_made (lookup m result) (some x) else lookup m result) t)
            ]
        | inr f ↦ elim (Option-cases (lookup n result)) [
          | inl e ↦
              ap step e
              ∙ lookup-store n m fresh result
              ∙ ap (λ b. if b then some fresh else lookup m result) f
              ∙ sym (ap (λ b. if b then or_made (lookup m result) (some x) else lookup m result) f)
          | inr (s, e) ↦
              ap step e
              ∙ sym (ap (λ b. if b then or_made (lookup m result) (some x) else lookup m result) f)
        ]
      ]

  or_made-none : (o : Option (Stats L X)) → or_made o none ≡ o
  or_made-none none = refl
  or_made-none (some s) = refl

  with_exceptions-lookup :
      (m : Metadata) (result : GoMap Metadata (Stats L X)) (excs : GoMap Metadata X)
      → Distinct excs
      → lookup m (with_exceptions result excs) ≡ or_made (lookup m result) (lookup m excs)
  unfolding with_exceptions
  with_exceptions-lookup m result [] d =
      sym (or_made-none (lookup m result)) ∙ ap (or_made (lookup m result)) (sym (lookup-nil m))
  with_exceptions-lookup m result ((n, x) ∷ excs) d =
      with_exceptions-lookup m (made n x result) excs d.1
      ∙ ap (λ o. or_made o (lookup m excs)) (lookup-made m n x result)
      ∙ elim (Bool-cases (n == m)) [
        | inl t ↦
            let gone : lookup m excs ≡ none =
              ap (λ z. lookup z excs) (sym ((metadata_eq.same_iff n m).0 t)) ∙ d.0 in
            ap
              (λ b.
                or_made (if b then or_made (lookup m result) (some x) else lookup m result)
                  (lookup m excs))
              t
            ∙ ap (or_made (or_made (lookup m result) (some x))) gone
            ∙ or_made-none (or_made (lookup m result) (some x))
            ∙ ap (or_made (lookup m result))
                (sym (lookup-cons m n x excs ∙ ap (λ b. if b then some x else lookup m excs) t))
        | inr f ↦
            ap
              (λ b.
                or_made (if b then or_made (lookup m result) (some x) else lookup m result)
                  (lookup m excs))
              f
            ∙ ap (or_made (lookup m result))
                (sym (lookup-cons m n x excs ∙ ap (λ b. if b then some x else lookup m excs) f))
      ]

  join_found : (l : Option L) (x : Option X) → or_made (found l none x) x ≡ joined l x
  join_found none none = refl
  join_found none (some x) = refl
  join_found (some l) none = refl
  join_found (some l) (some x) = refl

  -- The statistics that are recorded for a metadata are its latencies and its exceptions, where there
  -- is one of them at least; for another metadata nothing is recorded.
  pub build_stats-joined :
      (latencies : GoMap Metadata L) (exceptions : GoMap Metadata X) (m : Metadata)
      → Distinct latencies
      → Distinct exceptions
      → lookup m (build_stats latencies exceptions)
        ≡ joined (lookup m latencies) (lookup m exceptions)
  unfolding build_stats
  build_stats-joined lats excs m d e =
      with_exceptions-lookup m (with_latencies excs [] lats) excs e
      ∙ ap (λ o. or_made o (lookup m excs))
          (with_latencies-lookup m excs [] lats d
            ∙ ap (λ o. found (lookup m lats) o (lookup m excs)) (lookup-nil m))
      ∙ join_found (lookup m lats) (lookup m excs)
