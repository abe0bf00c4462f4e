-- ===== src/Mutex/Ready/Moves.antt =====
-- mutex/prodcons6.c: the steps of the threads, and the balance.
use interprocess_comm.Prelude.{
  ℕ, suc, ◌+◌, ◌-◌, ◌≤◌, ◌<◌, ◌≡◌, refl, ap, subst, arith, weigh-put, ◌==◌, leb, Bool-cases, inl,
  inr, true, false, ◌⊎◌,
}
use interprocess_comm.Mutex.{itself, store, store-IsFilled}
use interprocess_comm.Mutex.Ready.{
  Producer, wants_put, putting, wants_ready, readying, counting, returned, Consumer, wants_check,
  checking, waiting, fetched, finished, System, next, moves, put_locked, signal, ready_locked,
  count_item, check_locked, compare_item, At, Move, lock_put, put_item, lock_ready, make_ready,
  count_one, lock_check, check, compare_with, Step, moved, spurious, Reach, start, later,
}
use interprocess_comm.Mutex.Ready.Balance.{
  puts, readies, owes, uncounted, returns, checks, sleeps, got, InLoop, IsSound, change, got-next,
  next-InLoop, next-awake,
}

module _ {nitems n : ℕ} {s : System} (v : IsSound nitems n s) {i : ℕ} {a : Producer}
    (h : At n s i a) where
  -- A step of a producer that changes the mutexes only, by what it has before and after it.
  mutexes :
      (b : Producer) (put_mutex ready_mutex : ℕ)
      → put_mutex + puts b ≡ s.put_mutex + puts a
      → ready_mutex + readies b ≡ s.ready_mutex + readies a
      → owes b ≡ owes a
      → uncounted b ≡ uncounted a
      → (returns b ≡ returns a) ⊎ (nitems ≤ s.items.nput)
      → IsSound nitems n (record (moves s i b) { put_mutex = put_mutex; ready_mutex = ready_mutex })
  mutexes b pm rm p r o u x =
      let c = change b h in
      record {
        filled = v.filled;
        put_mutex = omega (arith, v.put_mutex);
        ready_mutex = omega (arith, v.ready_mutex);
        ready = omega (arith, v.ready);
        counted = omega (arith, v.counted);
        full = λ e. elim x [ inl same ↦ v.full (omega arith) | inr full ↦ full ];
        looping = v.looping;
        asleep = v.asleep;
        printed = v.printed;
      }

module _ {nitems n : ℕ} {s : System} (v : IsSound nitems n s) (i : ℕ) where
  stores-IsSound :
      At n s i putting
      → s.items.nput < nitems
      → IsSound nitems n
          (record (moves s i wants_ready) { items = store s.items; put_mutex = s.put_mutex + 1 })
  stores-IsSound h more =
      let c = change wants_ready h in
      record {
        filled = store-IsFilled v.filled more;
        put_mutex = omega (arith, v.put_mutex);
        ready_mutex = omega (arith, v.ready_mutex);
        ready = omega (arith, v.ready);
        counted = omega (arith, v.counted);
        full = λ e. omega (arith, v.full (omega arith));
        looping = v.looping;
        asleep = v.asleep;
        printed = v.printed;
      }

  put_locked-IsSound : At n s i putting → IsSound nitems n (put_locked nitems s i)
  unfolding put_locked
  put_locked-IsSound h = elim (Bool-cases (leb nitems s.items.nput)) [
    | inl full ↦ rw full (
        mutexes v h returned (s.put_mutex + 1) s.ready_mutex (omega arith) refl refl refl
          (inr (ground arith)))
    | inr more ↦ rw more (stores-IsSound h (ground arith))
  ]

  count_item-IsSound : At n s i counting → IsSound nitems n (count_item s i)
  count_item-IsSound h =
      let c = change wants_put h in
      record {
        filled = v.filled;
        put_mutex = omega (arith, v.put_mutex);
        ready_mutex = omega (arith, v.ready_mutex);
        ready = omega (arith, v.ready);
        counted = omega (arith, v.counted, weigh-put itself n s.count i (s.count i + 1) h.present);
        full = λ e. v.full (omega arith);
        looping = v.looping;
        asleep = v.asleep;
        printed = v.printed;
      }

-- A signal makes the consumer look again, and leaves the rest of it.
signal-facts :
    (nitems : ℕ) (c : Consumer)
    → InLoop nitems c
    → (got nitems (signal c) ≡ got nitems c)
      × (checks (signal c) ≡ checks c)
      × (sleeps (signal c) ≡ 0)
      × InLoop nitems (signal c)
unfolding signal
signal-facts nitems (wants_check i) h = (refl, refl, refl, h)
signal-facts nitems (checking i) h = (refl, refl, refl, h)
signal-facts nitems (waiting i) h = (refl, refl, refl, h)
signal-facts nitems (fetched i) h = (refl, refl, refl, h)
signal-facts nitems finished h = (refl, refl, refl, h)

module _ {nitems n : ℕ} {s : System} (v : IsSound nitems n s) (i : ℕ) (h : At n s i readying) where
  -- The item is counted, for a consumer that is awake.
  counts_ready :
      (c : Consumer)
      → got nitems c ≡ got nitems s.consumer
      → checks c ≡ checks s.consumer
      → sleeps c ≡ 0
      → InLoop nitems c
      → IsSound nitems n (record (moves s i counting) {
        consumer = c;
        nready = s.nready + 1;
        ready_mutex = s.ready_mutex + 1;
      })
  counts_ready d g k z l =
      let c = change counting h in
      record {
        filled = v.filled;
        put_mutex = omega (arith, v.put_mutex);
        ready_mutex = omega (arith, v.ready_mutex);
        ready = omega (arith, v.ready);
        counted = omega (arith, v.counted);
        full = λ e. v.full (omega arith);
        looping = l;
        asleep = λ e. absurd (omega arith);
        printed = v.printed;
      }

  ready_locked-IsSound : IsSound nitems n (ready_locked s i)
  unfolding ready_locked
  ready_locked-IsSound = elim (Bool-cases (s.nready == 0)) [
    | inl empty ↦ rw empty (
        let f = signal-facts nitems s.consumer v.looping in
        counts_ready (signal s.consumer) f.0 f.1 f.2 f.3)
    | inr some_ready ↦
        rw some_ready (counts_ready s.consumer refl refl (awake some_ready) v.looping)
  ]
    where
      awake : (s.nready == 0) ≡ false → sleeps s.consumer ≡ 0
      awake e = ground (arith, v.asleep)

-- A step of the consumer.
module _ (nitems n : ℕ) {s : System} (v : IsSound nitems n s) where
  consumes :
      (c : Consumer) (nready ready_mutex : ℕ)
      → ready_mutex + checks c ≡ s.ready_mutex + checks s.consumer
      → got nitems c + nready ≡ got nitems s.consumer + s.nready
      → InLoop nitems c
      → (0 < sleeps c → nready ≡ 0)
      → IsSound nitems n (record s { consumer = c; nready = nready; ready_mutex = ready_mutex })
  consumes c nready rm p q l z = record {
    filled = v.filled;
    put_mutex = v.put_mutex;
    ready_mutex = omega (arith, v.ready_mutex);
    ready = omega (arith, v.ready);
    counted = v.counted;
    full = v.full;
    looping = l;
    asleep = z;
    printed = v.printed;
  }

  lock_check-IsSound :
      (i k : ℕ)
      → s.consumer ≡ wants_check i
      → s.ready_mutex ≡ suc k
      → IsSound nitems n (record s { consumer = checking i; ready_mutex = k })
  lock_check-IsSound i k e h =
      consumes (checking i) s.nready k (omega (arith, ap checks e))
        (omega (arith, ap (got nitems) e)) (subst (InLoop nitems) e v.looping)
        (λ z. absurd (omega arith))

  check_locked-IsSound : (i : ℕ) → s.consumer ≡ checking i → IsSound nitems n (check_locked s i)
  unfolding check_locked
  check_locked-IsSound i e =
      let k = ap checks e in
      let g = ap (got nitems) e in
      let l = subst (InLoop nitems) e v.looping in
      elim (Bool-cases (s.nready == 0)) [
        | inl empty ↦ rw empty (
            consumes (waiting i) s.nready (s.ready_mutex + 1) (omega arith) (omega arith) l
              (λ z. ground arith))
        | inr some_ready ↦ rw some_ready (
            consumes (fetched i) (s.nready - 1) (s.ready_mutex + 1) (omega arith) (ground arith) l
              (λ z. absurd (omega arith)))
      ]

  spurious-IsSound :
      (i : ℕ) → s.consumer ≡ waiting i → IsSound nitems n (record s { consumer = wants_check i })
  spurious-IsSound i e =
      consumes (wants_check i) s.nready s.ready_mutex (omega (arith, ap checks e))
        (omega (arith, ap (got nitems) e)) (subst (InLoop nitems) e v.looping)
        (λ z. absurd (omega arith))

  compare_item-IsSound :
      (i : ℕ) → s.consumer ≡ fetched i → IsSound nitems n (compare_item nitems s i)
  unfolding compare_item
  compare_item-IsSound i e =
      let l : i < nitems = subst (InLoop nitems) e v.looping in
      let g = ap (got nitems) e in
      let own : s.items.buff i ≡ i = v.filled.buff i (omega (arith, v.ready)) in
      let same : (s.items.buff i == i) ≡ true = ground arith in
      let (k, z) = next-awake nitems (i + 1) in
      rw same (
        consumes (next nitems (i + 1)) s.nready s.ready_mutex (omega (arith, ap checks e))
          (omega (arith, got-next nitems (i + 1) (omega arith))) (next-InLoop nitems (i + 1))
          (λ a. absurd (omega arith)))

pub Move-IsSound :
    (nitems n : ℕ) {s t : System} → IsSound nitems n s → Move nitems n s t → IsSound nitems n t
Move-IsSound nitems n {s = s} v (lock_put i k a h) =
    mutexes v a putting k s.ready_mutex (omega arith) refl refl refl (inl refl)
Move-IsSound nitems n v (put_item i a) = put_locked-IsSound v i a
Move-IsSound nitems n {s = s} v (lock_ready i k a h) =
    mutexes v a readying s.put_mutex k refl (omega arith) refl refl (inl refl)
Move-IsSound nitems n v (make_ready i a) = ready_locked-IsSound v i a
Move-IsSound nitems n v (count_one i a) = count_item-IsSound v i a
Move-IsSound nitems n v (lock_check i k e h) = lock_check-IsSound nitems n v i k e h
Move-IsSound nitems n v (check i e) = check_locked-IsSound nitems n v i e
Move-IsSound nitems n v (compare_with i e) = compare_item-IsSound nitems n v i e

pub Step-IsSound :
    (nitems n : ℕ) {s t : System} → IsSound nitems n s → Step nitems n s t → IsSound nitems n t
Step-IsSound nitems n v (moved m) = Move-IsSound nitems n v m
Step-IsSound nitems n v (spurious i e) = spurious-IsSound nitems n v i e

pub Reach-IsSound :
    (nitems n : ℕ) {s t : System} → IsSound nitems n s → Reach nitems n s t → IsSound nitems n t
Reach-IsSound nitems n v start = v
Reach-IsSound nitems n v (later r st) = Step-IsSound nitems n (Reach-IsSound nitems n v r) st
