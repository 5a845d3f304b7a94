-- ===== src/Proxy/Deferred/Order.antt =====
-- splitio/proxy/tasks/deferred.go: nothing that was accepted is lost or reordered, and no flush waits.
use mathlib.Core.List.{append_assoc}
use split_synchronizer.Prelude.Weights.{total, total-set}
use split_synchronizer.Prelude.{
  ℕ, zero, suc, ◌+◌, ◌≤◌, ◌<◌, Bool, true, false, some, List, [], ◌∷◌, ◌++◌, length, length-append,
  get_elem?, replicate, ltb, ◌≡◌, refl, sym, ap, subst, ◌∙◌, arith, Bool-cases, inl, inr,
}
use split_synchronizer.Proxy.Deferred.{
  Flush, out, at_test, at_receive, Deferred, accepted, err_queue_full, new_deferred, stage,
  begin_flush, test_queue, receive, Reached,
}

abbrev pub in_loop : Flush → ℕ
in_loop out = 0
in_loop at_test = 1
in_loop at_receive = 1

abbrev pub receiving : Flush → ℕ
receiving out = 0
receiving at_test = 0
receiving at_receive = 1

abbrev pub flag : Bool → ℕ
flag true = 1
flag false = 0

flag_bounded : (b : Bool) → flag b ≤ 1
flag_bounded true = omega arith
flag_bounded false = omega arith

abbrev testing : Flush → ℕ
testing out = 0
testing at_test = 1
testing at_receive = 0

spread : (fs : List Flush) → total receiving fs + total testing fs ≡ total in_loop fs
spread [] = refl
spread (out ∷ fs) = omega (arith, spread fs)
spread (at_test ∷ fs) = omega (arith, spread fs)
spread (at_receive ∷ fs) = omega (arith, spread fs)

total-out : (w : Flush → ℕ) → w out ≡ 0 → (n : ℕ) → total w (replicate n out) ≡ 0
total-out w e zero = refl
total-out w e (suc n) = omega (arith, e, total-out w e n)

module _ {A : Type 0} where
  -- What was accepted was handed to the pool or waits in the queue, in order; the queue is within its
  -- capacity; one flush is in its loop if the flag is set, and none otherwise; and if it is about to
  -- receive there is something to receive.
  pub record IsOrdered (queue_size : ℕ) (xs : List A) (s : Deferred A) : Type 0 where
    pub order : xs ≡ s.handed ++ s.queue
    pub size : s.capacity ≡ queue_size
    pub bound : length s.queue ≤ queue_size
    pub one_flush : total in_loop s.flushes ≡ flag s.drain_in_progress
    pub ready : total receiving s.flushes ≤ length s.queue

  stage-IsOrdered :
      (q : ℕ) (xs : List A) (s : Deferred A) (x : A)
      → (stage x s).1 ≡ accepted
      → IsOrdered q xs s
      → IsOrdered q (xs ++ x ∷ []) (stage x s).0
  unfolding stage
  stage-IsOrdered q xs s x e h = elim (Bool-cases (ltb (length s.queue) s.capacity)) [
    | inl t ↦
        let room : length s.queue < s.capacity = ground (arith, t) in
        rw t (record {
          order = ap (λ z. z ++ x ∷ []) h.order ∙ append_assoc s.handed s.queue (x ∷ []);
          size = h.size;
          bound = omega (arith, length-append s.queue (x ∷ []), room, h.size);
          one_flush = h.one_flush;
          ready = omega (arith, length-append s.queue (x ∷ []), h.ready);
        })
    | inr f ↦ absurd (ground (arith, e, f))
  ]

  refused-same : (s : Deferred A) (x : A) → (stage x s).1 ≡ err_queue_full → (stage x s).0 ≡ s
  unfolding stage
  refused-same s x e = ground (arith, e)

  begin_flush-IsOrdered :
      (q : ℕ) (xs : List A) (s : Deferred A) (i : ℕ)
      → get_elem? s.flushes i ≡ some out
      → IsOrdered q xs s
      → IsOrdered q xs (begin_flush i s)
  unfolding begin_flush
  begin_flush-IsOrdered q xs s i e h = elim (Bool-cases s.drain_in_progress) [
    | inl t ↦ simp t h
    | inr f ↦ rw f (record {
      order = h.order;
      size = h.size;
      bound = h.bound;
      one_flush =
          omega (arith, h.one_flush, ap flag f, total-set in_loop s.flushes i out at_test e);
      ready = omega (arith, h.ready, total-set receiving s.flushes i out at_test e);
    })
  ]

  test_queue-IsOrdered :
      (q : ℕ) (xs : List A) (s : Deferred A) (i : ℕ)
      → get_elem? s.flushes i ≡ some at_test
      → IsOrdered q xs s
      → IsOrdered q xs (test_queue i s)
  unfolding test_queue
  test_queue-IsOrdered q xs s i e h =
      let alone : total receiving s.flushes ≡ 0 = omega (
        arith,
        spread s.flushes,
        total-set testing s.flushes i at_test out e,
        h.one_flush,
        flag_bounded s.drain_in_progress,
      ) in
      elim (Bool-cases (ltb 0 (length s.queue))) [
        | inl t ↦
            let some_left : 0 < length s.queue = ground (arith, t) in
            rw t (record {
              order = h.order;
              size = h.size;
              bound = h.bound;
              one_flush =
                  omega (arith, h.one_flush, total-set in_loop s.flushes i at_test at_receive e);
              ready =
                  omega
                    (arith, alone, some_left, total-set receiving s.flushes i at_test at_receive e);
            })
        | inr f ↦ rw f (record {
          order = h.order;
          size = h.size;
          bound = h.bound;
          one_flush = omega (
            arith,
            h.one_flush,
            flag_bounded s.drain_in_progress,
            total-set in_loop s.flushes i at_test out e,
          );
          ready = omega (arith, alone, total-set receiving s.flushes i at_test out e);
        })
      ]

  receive-IsOrdered :
      (q : ℕ) (xs : List A) (s : Deferred A) (i : ℕ) (x : A) (rest : List A)
      → get_elem? s.flushes i ≡ some at_receive
      → s.queue ≡ x ∷ rest
      → IsOrdered q xs s
      → IsOrdered q xs (receive i x rest s)
  receive-IsOrdered q xs s i x rest e k h = record {
    order = h.order ∙ ap (λ z. s.handed ++ z) k ∙ sym (append_assoc s.handed (x ∷ []) rest);
    size = h.size;
    bound = omega (arith, h.bound, ap (λ z. length z) k);
    one_flush = omega (arith, h.one_flush, total-set in_loop s.flushes i at_receive at_test e);
    ready = omega (
      arith,
      spread s.flushes,
      h.one_flush,
      flag_bounded s.drain_in_progress,
      total-set receiving s.flushes i at_receive at_test e,
    );
  }

  start-IsOrdered : (q n : ℕ) → IsOrdered q [] (new_deferred {A = A} q n)
  start-IsOrdered q n = record {
    order = refl;
    size = refl;
    bound = omega arith;
    one_flush = total-out in_loop refl n;
    ready = omega (arith, total-out receiving refl n);
  }

  -- At any time, with any number of flushes in between: what `Stage` accepted was handed to the pool or
  -- waits in the queue, in the order of the calls; the queue is within its capacity; one flush at most
  -- is in its loop; and one that is about to receive finds the queue filled.
  pub Reached-IsOrdered :
      (queue_size goroutines : ℕ) (xs : List A) (s : Deferred A)
      → Reached queue_size goroutines xs s
      → IsOrdered queue_size xs s
  Reached-IsOrdered q n xs s Reached.made = start-IsOrdered q n
  Reached-IsOrdered q n xs s (Reached.staged ys t r x e) =
      stage-IsOrdered q ys t x e (Reached-IsOrdered q n ys t r)
  Reached-IsOrdered q n xs s (Reached.refused ys t r x e) =
      subst (IsOrdered q ys) (sym (refused-same t x e)) (Reached-IsOrdered q n ys t r)
  Reached-IsOrdered q n xs s (Reached.began ys t r i e) =
      begin_flush-IsOrdered q ys t i e (Reached-IsOrdered q n ys t r)
  Reached-IsOrdered q n xs s (Reached.tested ys t r i e) =
      test_queue-IsOrdered q ys t i e (Reached-IsOrdered q n ys t r)
  Reached-IsOrdered q n xs s (Reached.received ys t r i x rest e k) =
      receive-IsOrdered q ys t i x rest e k (Reached-IsOrdered q n ys t r)
