-- ===== src/Mutex/Polled/Moves.antt =====
-- mutex/prodcons2.c and mutex/prodcons3.c: the steps of the threads, and the balance.
use interprocess_comm.Prelude.{
  ℕ, suc, ◌+◌, ◌≤◌, ◌<◌, ◌≡◌, refl, ap, subst, arith, weigh-put, weigh-one, ◌==◌, leb, ltb,
  Bool-cases, inl, inr, ◌⊎◌, Bool, true, false,
}
use interprocess_comm.Mutex.{itself, store, store-IsFilled}
use interprocess_comm.Mutex.Polled.{
  Producer, wants_lock, locked, counting, returned, Consumer, not_started, wants_look, looking,
  comparing, System, next, moves, produce_locked, count_item, look_locked, compare_item, At, Joined,
  Step, lock, produce, count_one, start_consumer, lock_look, look, compare_with,
}
use interprocess_comm.Mutex.Polled.Balance.{
  locks, uncounted, returns, looks, Sees, IsSound, change, Sees-more, next-Sees, next-looks,
  Sees-item,
}

module _ (polls : Bool) (nitems n : ℕ) {s : System} (v : IsSound polls nitems n s) where
  -- A step of a producer that changes the mutex only, by what it has before and after it.
  relocks :
      {i : ℕ} {a : Producer} (b : Producer) (mutex : ℕ)
      → At n s i a
      → mutex + locks b ≡ s.mutex + locks a
      → uncounted b ≡ uncounted a
      → (returns b ≡ returns a) ⊎ (nitems ≤ s.items.nput)
      → IsSound polls nitems n (record (moves s i b) { mutex = mutex })
  relocks b mutex h p u x =
      let c = change b h in
      record {
        filled = v.filled;
        mutex = omega (arith, v.mutex);
        counted = omega (arith, v.counted);
        full = λ e. elim x [ inl same ↦ v.full (omega arith) | inr full ↦ full ];
        sees = v.sees;
        printed = v.printed;
      }

  stores :
      (i : ℕ)
      → At n s i locked
      → s.items.nput < nitems
      → IsSound polls nitems n
          (record (moves s i counting) { items = store s.items; mutex = s.mutex + 1 })
  stores i h more =
      let c = change counting h in
      record {
        filled = store-IsFilled v.filled more;
        mutex = omega (arith, v.mutex);
        counted = omega (arith, v.counted);
        full = λ e. omega (arith, v.full (omega arith));
        sees =
            Sees-more polls nitems s.items.nput (s.items.nput + 1) s.consumer (omega arith) v.sees;
        printed = v.printed;
      }

  produce_locked-IsSound :
      (i : ℕ) → At n s i locked → IsSound polls nitems n (produce_locked nitems s i)
  unfolding produce_locked
  produce_locked-IsSound i h = elim (Bool-cases (leb nitems s.items.nput)) [
    | inl full ↦ rw full (relocks returned (s.mutex + 1) h (omega arith) refl (inr (ground arith)))
    | inr more ↦ rw more (stores i h (ground arith))
  ]

  count_item-IsSound : (i : ℕ) → At n s i counting → IsSound polls nitems n (count_item s i)
  count_item-IsSound i h =
      let c = change wants_lock h in
      record {
        filled = v.filled;
        mutex = omega (arith, v.mutex);
        counted = omega (arith, v.counted, weigh-put itself n s.count i (s.count i + 1) h.present);
        full = λ e. v.full (omega arith);
        sees = v.sees;
        printed = v.printed;
      }

  -- A step of the consumer.
  consumes :
      (c : Consumer) (mutex : ℕ)
      → mutex + looks c ≡ s.mutex + looks s.consumer
      → Sees polls nitems s.items.nput c
      → IsSound polls nitems n (record s { consumer = c; mutex = mutex })
  consumes c mutex p h = record {
    filled = v.filled;
    mutex = omega (arith, v.mutex);
    counted = v.counted;
    full = v.full;
    sees = h;
    printed = v.printed;
  }

  -- When all producers have been joined the array is full.
  pub Joined-full : 0 < n → Joined n s → nitems ≤ s.items.nput
  Joined-full some joined = v.full (
      omega
        (arith, weigh-one returns wants_lock refl n 0 s.producers some, ap returns (joined 0 some)))

  start_consumer-IsSound :
      0 < n
      → s.consumer ≡ not_started
      → Joined n s
      → IsSound polls nitems n (record s { consumer = next polls nitems 0 })
  start_consumer-IsSound some e joined =
      consumes (next polls nitems 0) s.mutex (omega (arith, next-looks polls nitems 0, ap looks e))
        (next-Sees polls nitems s.items.nput 0 λ p. Joined-full some joined)

  compare_item-IsSound :
      (i : ℕ) → s.consumer ≡ comparing i → IsSound polls nitems n (compare_item polls nitems s i)
  unfolding compare_item
  compare_item-IsSound i e =
      let (lt, all) =
        Sees-item polls nitems s.items.nput i (subst (Sees polls nitems s.items.nput) e v.sees) in
      let own = v.filled.buff i lt in
      let same : (s.items.buff i == i) ≡ true = ground arith in
      rw same (
        consumes (next polls nitems (i + 1)) s.mutex
          (omega (arith, next-looks polls nitems (i + 1), ap looks e))
          (next-Sees polls nitems s.items.nput (i + 1) all))

  -- The consumer with the mutex, of prodcons3.c only.
  lock_look-IsSound :
      (i k : ℕ)
      → s.consumer ≡ wants_look i
      → s.mutex ≡ suc k
      → IsSound polls nitems n (record s { consumer = looking i; mutex = k })
  lock_look-IsSound i k e h =
      consumes (looking i) k (omega (arith, ap looks e))
        (goes_on polls (subst (Sees polls nitems s.items.nput) e v.sees))
    where
      goes_on :
          (b : Bool)
          → Sees b nitems s.items.nput (wants_look i)
          → Sees b nitems s.items.nput (looking i)
      goes_on true h = tt
      goes_on false h = h

  look_locked-IsSound : (i : ℕ) → s.consumer ≡ looking i → IsSound polls nitems n (look_locked s i)
  unfolding look_locked
  look_locked-IsSound i e = elim (Bool-cases (ltb i s.items.nput)) [
    | inl there ↦ rw there (
        consumes (comparing i) (s.mutex + 1) (omega (arith, ap looks e))
          (finds polls (ground arith) seen))
    | inr missing ↦
        rw missing
          (consumes (wants_look i) (s.mutex + 1) (omega (arith, ap looks e)) (misses polls seen))
  ]
    where
      seen : Sees polls nitems s.items.nput (looking i)
      seen = subst (Sees polls nitems s.items.nput) e v.sees

      finds :
          (b : Bool)
          → i < s.items.nput
          → Sees b nitems s.items.nput (looking i)
          → Sees b nitems s.items.nput (comparing i)
      finds true lt h = lt
      finds false lt h = elim h [ ]

      misses :
          (b : Bool)
          → Sees b nitems s.items.nput (looking i)
          → Sees b nitems s.items.nput (wants_look i)
      misses true h = tt
      misses false h = h

pub Step-IsSound :
    (polls : Bool) (nitems n : ℕ) {s t : System}
    → 0 < n
    → IsSound polls nitems n s
    → Step polls nitems n s t
    → IsSound polls nitems n t
Step-IsSound polls nitems n {s = s} some v (lock i k a h) =
    relocks polls nitems n v locked k a (omega arith) refl (inl refl)
Step-IsSound polls nitems n some v (produce i a) = produce_locked-IsSound polls nitems n v i a
Step-IsSound polls nitems n some v (count_one i a) = count_item-IsSound polls nitems n v i a
Step-IsSound polls nitems n some v (start_consumer p e j) =
    start_consumer-IsSound polls nitems n v some e j
Step-IsSound polls nitems n some v (lock_look i k e h) = lock_look-IsSound polls nitems n v i k e h
Step-IsSound polls nitems n some v (look i e) = look_locked-IsSound polls nitems n v i e
Step-IsSound polls nitems n some v (compare_with i e) = compare_item-IsSound polls nitems n v i e
