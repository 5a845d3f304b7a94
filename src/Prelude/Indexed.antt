-- ===== src/Prelude/Indexed.antt =====
-- A slice with a map from keys to positions in it: the last element with a key stands at the position
-- that the map gives, and what the elements with a key hold, in order, grows at its end.
use mathlib.Core.List.{append_assoc, append-nil}
use split_synchronizer.Prelude.GoMap.{GoMap, lookup, store, lookup-store}
use split_synchronizer.Prelude.Keys.{Eq, ◌==◌}
use split_synchronizer.Prelude.Lists.{length, get_elem?, All}
use split_synchronizer.Prelude.Tests.{if◌then◌else◌, Bool-cases}
use mathlib.Core.Bool.{true, false}
use mathlib.Core.List.{List, [], ◌∷◌, ◌++◌}
use mathlib.Core.Option.{Option, none, some}
use mathlib.Core.Logic.{inl, inr}
use mathlib.Core.Path.{◌≡◌, refl, ap, subst, sym, ◌∙◌}
use Prim.Native.Nat.{ℕ, zero, suc}
use native.Mathlib.Omega.{arith}

-- `xs[i] = f(xs[i])`; out of range it changes nothing.
abbrev pub update_at {ℓ} : {A : Type ℓ} → ℕ → (A → A) → List A → List A
update_at i f [] = []
update_at zero f (x ∷ xs) = f x ∷ xs
update_at (suc i) f (x ∷ xs) = x ∷ update_at i f xs

module _ {K A : Type 0} ⦃e : Eq K⦄ (key : A → K) where
  -- What the elements with a key hold, in the order of the slice.
  abbrev pub gather : {B : Type 0} → (A → List B) → K → List A → List B
  gather content k [] = []
  gather content k (x ∷ xs) =
      let rest = gather content k xs in if key x == k then content x ++ rest else rest

  abbrev pub Absent : K → List A → Type 0
  Absent k = All (λ x. (key x == k) ≡ false)

  -- The last element with the key stands at this position.
  abbrev pub LastAt : K → ℕ → List A → Type 0
  LastAt k i [] = ⊥
  LastAt k zero (x ∷ xs) = ((key x == k) ≡ true) × Absent k xs
  LastAt k (suc i) (x ∷ xs) = LastAt k i xs

  abbrev pub Stands : K → Option ℕ → List A → Type 0
  Stands k none xs = Absent k xs
  Stands k (some i) xs = LastAt k i xs

  abbrev pub IsIndexed : GoMap K ℕ → List A → Type 0
  IsIndexed index xs = (k : K) → Stands k (lookup k index) xs

  Absent-snoc :
      (k : K) (x : A) (xs : List A) → (key x == k) ≡ false → Absent k xs → Absent k (xs ++ x ∷ [])
  Absent-snoc k x [] f a = (f, tt)
  Absent-snoc k x (y ∷ ys) f a = (a.0, Absent-snoc k x ys f a.1)

  LastAt-snoc :
      (k : K) (i : ℕ) (x : A) (xs : List A)
      → (key x == k) ≡ false
      → LastAt k i xs
      → LastAt k i (xs ++ x ∷ [])
  LastAt-snoc k i x [] f l = absurd l
  LastAt-snoc k zero x (y ∷ ys) f l = (l.0, Absent-snoc k x ys f l.1)
  LastAt-snoc k (suc i) x (y ∷ ys) f l = LastAt-snoc k i x ys f l

  pub LastAt-new :
      (k : K) (x : A) (xs : List A) → (key x == k) ≡ true → LastAt k (length xs) (xs ++ x ∷ [])
  LastAt-new k x [] t = (t, tt)
  LastAt-new k x (y ∷ ys) t = LastAt-new k x ys t

  Stands-snoc :
      (k : K) (o : Option ℕ) (x : A) (xs : List A)
      → (key x == k) ≡ false
      → Stands k o xs
      → Stands k o (xs ++ x ∷ [])
  Stands-snoc k none x xs f s = Absent-snoc k x xs f s
  Stands-snoc k (some i) x xs f s = LastAt-snoc k i x xs f s

  -- An element that is appended is the last with its key.
  pub IsIndexed-snoc :
      (index : GoMap K ℕ) (x : A) (xs : List A)
      → IsIndexed index xs
      → IsIndexed (store (key x) (length xs) index) (xs ++ x ∷ [])
  IsIndexed-snoc index x xs v k = elim (Bool-cases (key x == k)) [
    | inl t ↦ rw (lookup-store (key x) k (length xs) index, t) (LastAt-new k x xs t)
    | inr f ↦
        rw (lookup-store (key x) k (length xs) index, f)
          (Stands-snoc k (lookup k index) x xs f (v k))
  ]

  module _ (f : A → A) (same : (x : A) → key (f x) ≡ key x) where
    Absent-update_at : (k : K) (i : ℕ) (xs : List A) → Absent k xs → Absent k (update_at i f xs)
    Absent-update_at k i [] a = a
    Absent-update_at k zero (x ∷ xs) a = (rw (same x) a.0, a.1)
    Absent-update_at k (suc i) (x ∷ xs) a = (a.0, Absent-update_at k i xs a.1)

    LastAt-update_at :
        (k : K) (i j : ℕ) (xs : List A) → LastAt k j xs → LastAt k j (update_at i f xs)
    LastAt-update_at k i j [] l = l
    LastAt-update_at k zero zero (x ∷ xs) l = (rw (same x) l.0, l.1)
    LastAt-update_at k zero (suc j) (x ∷ xs) l = l
    LastAt-update_at k (suc i) zero (x ∷ xs) l = (l.0, Absent-update_at k i xs l.1)
    LastAt-update_at k (suc i) (suc j) (x ∷ xs) l = LastAt-update_at k i j xs l

    -- A write that leaves the keys alone leaves the index right.
    pub IsIndexed-update_at :
        (index : GoMap K ℕ) (i : ℕ) (xs : List A)
        → IsIndexed index xs
        → IsIndexed index (update_at i f xs)
    IsIndexed-update_at index i xs v k = stands (lookup k index) (v k)
      where
        stands : (o : Option ℕ) → Stands k o xs → Stands k o (update_at i f xs)
        stands none s = Absent-update_at k i xs s
        stands (some j) s = LastAt-update_at k i j xs s

  module _ {B : Type 0} (content : A → List B) where
    pub gather-Absent : (k : K) (xs : List A) → Absent k xs → gather content k xs ≡ []
    gather-Absent k [] a = refl
    gather-Absent k (x ∷ xs) a = rw a.0 (gather-Absent k xs a.1)

    pub gather-append :
        (k : K) (xs ys : List A)
        → gather content k (xs ++ ys) ≡ gather content k xs ++ gather content k ys
    gather-append k [] ys = refl
    gather-append k (x ∷ xs) ys = elim (Bool-cases (key x == k)) [
      | inl t ↦ rw t (
          ap (λ r. content x ++ r) (gather-append k xs ys)
          ∙ sym (append_assoc (content x) (gather content k xs) (gather content k ys)))
      | inr f ↦ rw f (gather-append k xs ys)
    ]

    -- A write to the last element with a key that adds at the end of its content adds at the end of
    -- what is gathered for the key, and nothing for another key.
    module _ (f : A → A) (ys : List B) (P : A → Type 0) (k j : K) where
      at_last :
          (x : A) (xs : List A)
          → key (f x) ≡ key x
          → content (f x) ≡ content x ++ ys
          → (key x == k) ≡ true
          → Absent k xs
          → gather content j (f x ∷ xs) ≡ gather content j (x ∷ xs) ++ (if k == j then ys else [])
      at_last x xs same more t a = elim (Bool-cases (k == j)) [
        | inl u ↦
            let e1 : key x ≡ k = (e.same_iff (key x) k).0 t in
            let e2 : k ≡ j = (e.same_iff k j).0 u in
            let v : (key x == j) ≡ true = (e.same_iff (key x) j).1 (e1 ∙ e2) in
            let none_left : gather content j xs ≡ [] =
              subst (λ z. gather content z xs ≡ []) e2 (gather-Absent k xs a) in
            rw (same, v, u, none_left, more)
              (append-nil (content x ++ ys) ∙ ap (λ c. c ++ ys) (sym (append-nil (content x))))
        | inr n ↦
            let v : (key x == j) ≡ false =
              ground (arith, e.same_iff (key x) k, e.same_iff k j, e.same_iff (key x) j) in
            rw (same, v, n) (sym (append-nil (gather content j xs)))
      ]

      pub gather-update_at :
          ((x : A) → key (f x) ≡ key x)
          → ((x : A) → P x → content (f x) ≡ content x ++ ys)
          → (i : ℕ) (xs : List A) → All P xs
          → LastAt k i xs
          → gather content j (update_at i f xs) ≡ gather content j xs ++ (if k == j then ys else [])
      gather-update_at same more i [] p l = absurd l
      gather-update_at same more zero (x ∷ xs) p l = at_last x xs (same x) (more x p.0) l.0 l.1
      gather-update_at same more (suc i) (x ∷ xs) p l = elim (Bool-cases (key x == j)) [
        | inl t ↦ rw t (
            ap (λ r. content x ++ r) (gather-update_at same more i xs p.1 l)
            ∙ sym (append_assoc (content x) (gather content j xs) (if k == j then ys else [])))
        | inr n ↦ rw n (gather-update_at same more i xs p.1 l)
      ]

pub All-update_at {ℓ κ} :
    {A : Type ℓ} (P : A → Type κ) (f : A → A) (i : ℕ) (xs : List A)
    → ((x : A) → P x → P (f x))
    → All P xs
    → All P (update_at i f xs)
All-update_at P f i [] h p = p
All-update_at P f zero (x ∷ xs) h p = (h x p.0, p.1)
All-update_at P f (suc i) (x ∷ xs) h p = (p.0, All-update_at P f i xs h p.1)

-- The same where the write may rely on what stands at its position.
pub All-update_at_elem {ℓ κ} :
    {A : Type ℓ} (P : A → Type κ) (f : A → A) (i : ℕ) (xs : List A)
    → ((x : A) → get_elem? xs i ≡ some x → P x → P (f x))
    → All P xs
    → All P (update_at i f xs)
All-update_at_elem P f i [] h p = p
All-update_at_elem P f zero (x ∷ xs) h p = (h x refl p.0, p.1)
All-update_at_elem P f (suc i) (x ∷ xs) h p = (p.0, All-update_at_elem P f i xs h p.1)

pub get_elem?-snoc {ℓ} :
    {A : Type ℓ} (x : A) (xs : List A) → get_elem? (xs ++ x ∷ []) (length xs) ≡ some x
get_elem?-snoc x [] = refl
get_elem?-snoc x (y ∷ ys) = get_elem?-snoc x ys
