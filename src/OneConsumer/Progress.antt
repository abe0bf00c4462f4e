-- ===== src/OneConsumer/Progress.antt =====
-- pxsem/prodcons1.c to prodcons3.c: the states in which no thread can make a step.
use interprocess_comm.Prelude.{
  ℕ, ◌+◌, ◌<◌, ◌≡◌, ◌≢◌, refl, ap, ◌∙◌, Bool, inl, inr, ◌⊎◌, zero_or_suc, length, weigh, weigh-zero,
  weigh-one, arith,
}
use interprocess_comm.OneConsumer.{
  Producer, wants_empty, has_empty, producing, stored_one, leaving, counting, returned, Consumer,
  wants_stored, has_stored, printing, freed, finished, System, start_system, Step, wait_empty,
  lock_producer, produce, post_stored, count_one, leave, wait_stored, lock_consumer, print,
  post_empty, Reach, threads,
}
use interprocess_comm.OneConsumer.Balance.{
  locks, empties, stores, uncounted, leaves, c_locks, c_stores, c_frees, HasPrinted, countdown,
  IsSound,
}
use interprocess_comm.OneConsumer.Moves.{Reach-IsSound}
use interprocess_comm.OneConsumer.Safety.{start-IsSound, single}

-- What a producer that cannot move is, and what it waits for; and the same of the consumer.
abbrev Settled : System → Producer → Type 0
Settled s wants_empty = s.nempty ≡ 0
Settled s has_empty = s.mutex ≡ 0
Settled s returned = Unit
Settled s _ = ⊥

abbrev Still : System → Consumer → Type 0
Still s (wants_stored i) = s.nstored ≡ 0
Still s (has_stored i) = s.mutex ≡ 0
Still s finished = Unit
Still s _ = ⊥

module _ {alone : Bool} {nitems n : ℕ} {t : System}
    (stuck : (u : System) → Step alone nitems n t u → ⊥) where
  settled : (i : ℕ) → i < n → (p : Producer) → t.producers i ≡ p → Settled t p
  settled i lt wants_empty e = elim (zero_or_suc t.nempty) [
    | inl z ↦ z
    | inr (k, q) ↦ absurd (stuck _ (wait_empty i k (record { present = lt; state = e }) q))
  ]
  settled i lt has_empty e = elim (zero_or_suc t.mutex) [
    | inl z ↦ z
    | inr (k, q) ↦ absurd (stuck _ (lock_producer i k (record { present = lt; state = e }) q))
  ]
  settled i lt producing e = stuck _ (produce i (record { present = lt; state = e }))
  settled i lt stored_one e = stuck _ (post_stored i (record { present = lt; state = e }))
  settled i lt leaving e = stuck _ (leave i (record { present = lt; state = e }))
  settled i lt counting e = stuck _ (count_one i (record { present = lt; state = e }))
  settled i lt returned e = tt

  still : (c : Consumer) → t.consumer ≡ c → Still t c
  still (wants_stored i) e = elim (zero_or_suc t.nstored) [
    | inl z ↦ z
    | inr (k, q) ↦ absurd (stuck _ (wait_stored i k e q))
  ]
  still (has_stored i) e = elim (zero_or_suc t.mutex) [
    | inl z ↦ z
    | inr (k, q) ↦ absurd (stuck _ (lock_consumer i k e q))
  ]
  still (printing i) e = stuck _ (print i e)
  still (freed i) e = stuck _ (post_empty i e)
  still finished e = tt

Settled-units :
    (s : System) (p : Producer) → Settled s p → (locks p ≡ 0) × (stores p ≡ 0) × (uncounted p ≡ 0)
Settled-units s wants_empty z = (refl, refl, refl)
Settled-units s has_empty z = (refl, refl, refl)
Settled-units s producing z = elim z [ ]
Settled-units s stored_one z = elim z [ ]
Settled-units s leaving z = elim z [ ]
Settled-units s counting z = elim z [ ]
Settled-units s returned z = (refl, refl, refl)

-- With the mutex free nobody waits for it.
Settled-empties : (s : System) (p : Producer) → s.mutex ≢ 0 → Settled s p → empties p ≡ 0
Settled-empties s wants_empty m z = refl
Settled-empties s has_empty m z = absurd (m z)
Settled-empties s producing m z = elim z [ ]
Settled-empties s stored_one m z = elim z [ ]
Settled-empties s leaving m z = elim z [ ]
Settled-empties s counting m z = elim z [ ]
Settled-empties s returned m z = refl

Settled-returned :
    (s : System) (p : Producer) → s.mutex ≢ 0 → s.nempty ≢ 0 → Settled s p → p ≡ returned
Settled-returned s wants_empty m e z = absurd (e z)
Settled-returned s has_empty m e z = absurd (m z)
Settled-returned s producing m e z = elim z [ ]
Settled-returned s stored_one m e z = elim z [ ]
Settled-returned s leaving m e z = elim z [ ]
Settled-returned s counting m e z = elim z [ ]
Settled-returned s returned m e z = refl

Still-units : (s : System) (c : Consumer) → Still s c → (c_locks c ≡ 0) × (c_frees c ≡ 0)
Still-units s (wants_stored i) z = (refl, refl)
Still-units s (has_stored i) z = (refl, refl)
Still-units s (printing i) z = elim z [ ]
Still-units s (freed i) z = elim z [ ]
Still-units s finished z = (refl, refl)

-- The consumer waits for an item, which is not there, or has printed all.
Still-cases :
    (nitems c : ℕ) (s : System) (d : Consumer)
    → s.mutex ≢ 0
    → Still s d
    → HasPrinted nitems c d
    → ((s.nstored ≡ 0) × (c_stores d ≡ 0) × (c < nitems)) ⊎ ((d ≡ finished) × (c ≡ nitems))
Still-cases nitems c s (wants_stored i) m z h = inl (z, refl, h.1)
Still-cases nitems c s (has_stored i) m z h = absurd (m z)
Still-cases nitems c s (printing i) m z h = elim z [ ]
Still-cases nitems c s (freed i) m z h = elim z [ ]
Still-cases nitems c s finished m z h = inr (refl, h)

module _ (alone : Bool) (nitems nproduces : ℕ) {s : System}
    (r : Reach alone nitems (threads alone nproduces) (start_system alone nitems) s)
    (some : 0 < threads alone nproduces)
    (stuck : (u : System) → Step alone nitems (threads alone nproduces) s u → ⊥) where
  abbrev n : ℕ
  n = threads alone nproduces

  v : IsSound alone nitems n s
  v = Reach-IsSound alone nitems n (single alone nproduces) (start-IsSound alone nitems nproduces) r

  idle : (i : ℕ) → i < n → Settled s (s.producers i)
  idle i h = settled stuck i h (s.producers i) refl

  units :
      (i : ℕ)
      → i < n
      → (locks (s.producers i) ≡ 0) × (stores (s.producers i) ≡ 0) × (uncounted (s.producers i) ≡ 0)
  units i h = Settled-units s (s.producers i) (idle i h)

  c_units : (c_locks s.consumer ≡ 0) × (c_frees s.consumer ≡ 0)
  c_units = Still-units s s.consumer (still stuck s.consumer refl)

  mutex_free : s.mutex ≢ 0
  mutex_free z =
      omega (arith, v.mutex, c_units.0, weigh-zero locks n s.producers λ i h. (units i h).0)

  slots : s.nempty + s.nput ≡ 10 + length s.printed
  slots = omega (
    arith,
    v.nempty,
    c_units.1,
    weigh-zero empties n s.producers λ i h. Settled-empties s (s.producers i) mutex_free (idle i h),
  )

  owed : weigh stores n s.producers ≡ 0
  owed = weigh-zero stores n s.producers λ i h. (units i h).1

  cases :
      ((s.nstored ≡ 0) × (c_stores s.consumer ≡ 0) × (length s.printed < nitems))
      ⊎ ((s.consumer ≡ finished) × (length s.printed ≡ nitems))
  cases =
      Still-cases nitems (length s.printed) s s.consumer mutex_free (still stuck s.consumer refl)
        v.index

  room : s.nempty ≢ 0
  room z = elim cases [
    | inl (none_stored, holds, more) ↦ omega (arith, slots, v.nstored, owed)
    | inr (over, all) ↦ omega (arith, slots, v.within)
  ]

  all_returned : (i : ℕ) → i < n → s.producers i ≡ returned
  all_returned i h = Settled-returned s (s.producers i) mutex_free room (idle i h)

  all_stored : s.nput ≡ nitems
  all_stored = omega (
    arith,
    v.within,
    v.full (
        omega (
          arith,
          weigh-one leaves wants_empty refl n 0 s.producers some,
          ap leaves (all_returned 0 some),
        )),
  )

  -- With a producer at least there is no deadlock: in a state that the threads reach and in which none
  -- can make a step, every producer and the consumer have returned, and the consumer has printed
  -- exactly the items 0, 1, …, nitems - 1, in this order.
  pub all_printed :
      ((i : ℕ) → i < n → s.producers i ≡ returned)
      × (s.consumer ≡ finished)
      × (s.printed ≡ countdown nitems)
  all_printed = elim cases [
    | inl (none_stored, holds, more) ↦ absurd (omega (arith, v.nstored, owed, all_stored))
    | inr (over, all) ↦ (all_returned, over, v.printed ∙ ap countdown all)
  ]
