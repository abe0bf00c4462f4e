-- ===== src/Mutex/Ready/Progress.antt =====
-- mutex/prodcons6.c: what the consumer prints, and the states in which no thread can make a step.
use interprocess_comm.Prelude.{
  ℕ, ◌+◌, ◌≤◌, ◌<◌, ◌≡◌, refl, ap, [], arith, weigh, weigh-one, weigh-zero, zero_or_suc, inl, inr,
}
use interprocess_comm.Mutex.{
  itself, no_items-IsFilled, least, least-le, least-some, maxnitems, maxnthreads,
}
use interprocess_comm.Mutex.Ready.{
  Producer, wants_put, putting, wants_ready, readying, counting, returned, Consumer, wants_check,
  checking, waiting, fetched, finished, System, start_system, Move, lock_put, put_item, lock_ready,
  make_ready, count_one, lock_check, check, compare_with, Runs,
}
use interprocess_comm.Mutex.Ready.Balance.{
  puts, readies, owes, uncounted, returns, checks, sleeps, got, InLoop, IsSound, got-next,
  next-InLoop, next-awake,
}
use interprocess_comm.Mutex.Ready.Moves.{Reach-IsSound}

start-IsSound : (nitems n : ℕ) → IsSound nitems n (start_system nitems)
start-IsSound nitems n =
    let g = got-next nitems 0 (omega arith) in
    let (k, z) = next-awake nitems 0 in
    record {
      filled = no_items-IsFilled nitems;
      put_mutex = omega (arith, weigh-zero puts n (λ i. wants_put) λ i h. refl);
      ready_mutex = omega (arith, weigh-zero readies n (λ i. wants_put) λ i h. refl);
      ready = omega (arith, weigh-zero owes n (λ i. wants_put) λ i h. refl);
      counted = omega (
        arith,
        weigh-zero uncounted n (λ i. wants_put) (λ i h. refl),
        weigh-zero itself n (λ i. 0) λ i h. refl,
      );
      full = λ e. absurd (omega (arith, weigh-zero returns n (λ i. wants_put) λ i h. refl));
      looping = next-InLoop nitems 0;
      asleep = λ e. absurd (omega arith);
      printed = refl;
    }

sound :
    (items threads : ℕ) {s : System}
    → Runs items threads s
    → IsSound (least items maxnitems) (least threads maxnthreads) s
sound items threads r =
    let nitems = least items maxnitems in
    let n = least threads maxnthreads in Reach-IsSound nitems n (start-IsSound nitems n) r

-- However the threads are interleaved, and however often the consumer wakes up without a signal, it
-- finds each item equal to its index, and prints nothing; and no more than the number of items, at
-- most 1000000, are stored, so that no index leaves the array.
pub prints_nothing :
    (items threads : ℕ) {s : System}
    → Runs items threads s
    → (s.printed ≡ []) × (s.items.nput ≤ items) × (s.items.nput ≤ 1000000)
prints_nothing items threads r =
    let v = sound items threads r in
    (
      v.printed,
      omega (arith, v.filled.within, least-le items maxnitems),
      omega (arith, v.filled.within, least-le items maxnitems),
    )

-- What a producer that cannot move is, and what it waits for; and the same of the consumer.
abbrev Settled : System → Producer → Type 0
Settled s wants_put = s.put_mutex ≡ 0
Settled s wants_ready = s.ready_mutex ≡ 0
Settled s returned = Unit
Settled s _ = ⊥

abbrev Still : System → Consumer → Type 0
Still s (wants_check i) = s.ready_mutex ≡ 0
Still s (waiting i) = Unit
Still s finished = Unit
Still s _ = ⊥

module _ {nitems n : ℕ} {t : System} (stuck : (u : System) → Move nitems n t u → ⊥) where
  settled : (i : ℕ) → i < n → (o : Producer) → t.producers i ≡ o → Settled t o
  settled i lt wants_put e = elim (zero_or_suc t.put_mutex) [
    | inl z ↦ z
    | inr (p, q) ↦ absurd (stuck _ (lock_put i p (record { present = lt; state = e }) q))
  ]
  settled i lt putting e = stuck _ (put_item i (record { present = lt; state = e }))
  settled i lt wants_ready e = elim (zero_or_suc t.ready_mutex) [
    | inl z ↦ z
    | inr (p, q) ↦ absurd (stuck _ (lock_ready i p (record { present = lt; state = e }) q))
  ]
  settled i lt readying e = stuck _ (make_ready i (record { present = lt; state = e }))
  settled i lt counting e = stuck _ (count_one i (record { present = lt; state = e }))
  settled i lt returned e = tt

  still : (c : Consumer) → t.consumer ≡ c → Still t c
  still (wants_check i) e = elim (zero_or_suc t.ready_mutex) [
    | inl z ↦ z
    | inr (p, q) ↦ absurd (stuck _ (lock_check i p e q))
  ]
  still (checking i) e = stuck _ (check i e)
  still (waiting i) e = tt
  still (fetched i) e = stuck _ (compare_with i e)
  still finished e = tt

Settled-locks : (s : System) (o : Producer) → Settled s o → (puts o ≡ 0) × (readies o ≡ 0)
Settled-locks s wants_put z = (refl, refl)
Settled-locks s putting z = elim z [ ]
Settled-locks s wants_ready z = (refl, refl)
Settled-locks s readying z = elim z [ ]
Settled-locks s counting z = elim z [ ]
Settled-locks s returned z = (refl, refl)

Settled-returned :
    (s : System) (o : Producer) → s.put_mutex ≡ 1 → s.ready_mutex ≡ 1 → Settled s o → o ≡ returned
Settled-returned s wants_put p r z = absurd (omega arith)
Settled-returned s putting p r z = elim z [ ]
Settled-returned s wants_ready p r z = absurd (omega arith)
Settled-returned s readying p r z = elim z [ ]
Settled-returned s counting p r z = elim z [ ]
Settled-returned s returned p r z = refl

Still-checks : (s : System) (c : Consumer) → Still s c → checks c ≡ 0
Still-checks s (wants_check i) z = refl
Still-checks s (checking i) z = elim z [ ]
Still-checks s (waiting i) z = refl
Still-checks s (fetched i) z = elim z [ ]
Still-checks s finished z = refl

-- A consumer that waits although all items are ready has lost a signal.
Still-finished :
    {nitems : ℕ} (s : System) (c : Consumer)
    → s.ready_mutex ≡ 1
    → Still s c
    → InLoop nitems c
    → (0 < sleeps c → s.nready ≡ 0)
    → got nitems c + s.nready ≡ nitems
    → c ≡ finished
Still-finished s (wants_check i) r z l a g = absurd (omega arith)
Still-finished s (checking i) r z l a g = elim z [ ]
Still-finished s (waiting i) r z l a g = absurd (omega (arith, a (omega arith)))
Still-finished s (fetched i) r z l a g = elim z [ ]
Still-finished s finished r z l a g = refl

module _ (items threads : ℕ) {s : System} (r : Runs items threads s) (some_thread : 0 < threads)
    (stuck : (u : System) → Move (least items maxnitems) (least threads maxnthreads) s u → ⊥) where
  abbrev nitems : ℕ
  nitems = least items maxnitems

  abbrev n : ℕ
  n = least threads maxnthreads

  v : IsSound nitems n s
  v = sound items threads r

  unlocked : (i : ℕ) → i < n → (puts (s.producers i) ≡ 0) × (readies (s.producers i) ≡ 0)
  unlocked i h = Settled-locks s (s.producers i) (settled stuck i h (s.producers i) refl)

  put_free : s.put_mutex ≡ 1
  put_free = omega (arith, v.put_mutex, weigh-zero puts n s.producers λ i h. (unlocked i h).0)

  ready_free : s.ready_mutex ≡ 1
  ready_free = omega (
    arith,
    v.ready_mutex,
    weigh-zero readies n s.producers (λ i h. (unlocked i h).1),
    Still-checks s s.consumer (still stuck s.consumer refl),
  )

  all_returned : (i : ℕ) → i < n → s.producers i ≡ returned
  all_returned i h =
      Settled-returned s (s.producers i) put_free ready_free
        (settled stuck i h (s.producers i) refl)

  all_stored : s.items.nput ≡ nitems
  all_stored =
      let some : 0 < n = least-some threads maxnthreads some_thread (omega arith) in
      let one = weigh-one returns wants_put refl n 0 s.producers some in
      omega (arith, v.filled.within, v.full (omega (arith, ap returns (all_returned 0 some))))

  all_ready : got nitems s.consumer + s.nready ≡ nitems
  all_ready =
      omega (
        arith,
        v.ready,
        all_stored,
        weigh-zero owes n s.producers λ i h. ap owes (all_returned i h),
      )

  -- With a producer at least no signal is lost and there is no deadlock: where no thread can make a
  -- step by itself, every producer has returned, the consumer has seen all items, and the counts of
  -- the producers add up to their number.
  pub no_lost_signal :
      ((i : ℕ) → i < n → s.producers i ≡ returned)
      × (s.consumer ≡ finished)
      × (weigh itself n s.count ≡ nitems)
  no_lost_signal = (
    all_returned,
    Still-finished s s.consumer ready_free (still stuck s.consumer refl) v.looping v.asleep
        all_ready,
    omega (
      arith,
      v.counted,
      all_stored,
      weigh-zero uncounted n s.producers λ i h. ap uncounted (all_returned i h),
    ),
  )
