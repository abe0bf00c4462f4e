-- ===== src/ProdCons/System/Progress.antt =====
-- The states of prodcons4.c in which no thread can make a step.
use interprocess_comm.Prelude.{
  ℕ, ◌+◌, ◌≤◌, ◌<◌, ◌≡◌, refl, ap, ◌∙◌, arith, weigh, weigh-one, weigh-zero, zero_or_suc, true,
  false, Bool-cases, inl, inr, ◌⊎◌, ◌≢◌,
}
use interprocess_comm.ProdCons.{
  Shared, Thread, wants_empty, has_empty, producing, stored_one, leaving_empty, leaving_mutex,
  produced, wants_stored, has_stored, consuming, freed_one, stopping, consumed,
}
use interprocess_comm.ProdCons.System.{
  System, At, main, Step, wait_empty, lock_producer, produce, post_stored, leave_empty, leave_mutex,
  wait_stored, lock_consumer, consume, post_empty, stop, Reach,
}
use interprocess_comm.ProdCons.System.Balance.{
  locks, empties, stores, extras, finishes, makes, countdown, IsSound,
}
use interprocess_comm.ProdCons.System.Moves.{Reach-IsSound}
use interprocess_comm.ProdCons.System.Safety.{main-IsSound}

-- What a thread that cannot move is, and what it waits for.
abbrev Settled : Shared → Thread → Type 0
Settled sh wants_empty = sh.nempty ≡ 0
Settled sh has_empty = sh.mutex ≡ 0
Settled sh wants_stored = sh.nstored ≡ 0
Settled sh has_stored = sh.mutex ≡ 0
Settled sh produced = Unit
Settled sh consumed = Unit
Settled sh _ = ⊥

module _ {nitems n : ℕ} {t : System} (stuck : (u : System) → Step nitems n t u → ⊥) (i : ℕ)
    (lt : i < n) where
  at : {o : Thread} → t.threads i ≡ o → At n t i o
  at e = record { present = lt; state = e }

  settled : (o : Thread) → t.threads i ≡ o → Settled t.shared o
  settled wants_empty e = elim (zero_or_suc t.shared.nempty) [
    | inl z ↦ z
    | inr (p, q) ↦ absurd (stuck _ (wait_empty i p (at e) q))
  ]
  settled has_empty e = elim (zero_or_suc t.shared.mutex) [
    | inl z ↦ z
    | inr (p, q) ↦ absurd (stuck _ (lock_producer i p (at e) q))
  ]
  settled producing e = stuck _ (produce i (at e))
  settled stored_one e = stuck _ (post_stored i (at e))
  settled leaving_empty e = stuck _ (leave_empty i (at e))
  settled leaving_mutex e = stuck _ (leave_mutex i (at e))
  settled produced e = tt
  settled wants_stored e = elim (zero_or_suc t.shared.nstored) [
    | inl z ↦ z
    | inr (p, q) ↦ absurd (stuck _ (wait_stored i p (at e) q))
  ]
  settled has_stored e = elim (zero_or_suc t.shared.mutex) [
    | inl z ↦ z
    | inr (p, q) ↦ absurd (stuck _ (lock_consumer i p (at e) q))
  ]
  settled consuming e = stuck _ (consume i (at e))
  settled freed_one e = stuck _ (post_empty i (at e))
  settled stopping e = stuck _ (stop i (at e))
  settled consumed e = tt

  stuck-Settled : Settled t.shared (t.threads i)
  stuck-Settled = settled (t.threads i) refl

Settled-locks : (sh : Shared) (o : Thread) → Settled sh o → locks o ≡ 0
Settled-locks sh wants_empty z = refl
Settled-locks sh has_empty z = refl
Settled-locks sh producing z = elim z [ ]
Settled-locks sh stored_one z = elim z [ ]
Settled-locks sh leaving_empty z = elim z [ ]
Settled-locks sh leaving_mutex z = elim z [ ]
Settled-locks sh produced z = refl
Settled-locks sh wants_stored z = refl
Settled-locks sh has_stored z = refl
Settled-locks sh consuming z = elim z [ ]
Settled-locks sh freed_one z = elim z [ ]
Settled-locks sh stopping z = elim z [ ]
Settled-locks sh consumed z = refl

-- With the mutex free nobody waits for it.
Settled-units :
    (sh : Shared) (o : Thread) → sh.mutex ≡ 1 → Settled sh o → (empties o ≡ 0) × (stores o ≡ 0)
Settled-units sh wants_empty m z = (refl, refl)
Settled-units sh has_empty m z = absurd (omega arith)
Settled-units sh producing m z = elim z [ ]
Settled-units sh stored_one m z = elim z [ ]
Settled-units sh leaving_empty m z = elim z [ ]
Settled-units sh leaving_mutex m z = elim z [ ]
Settled-units sh produced m z = (refl, refl)
Settled-units sh wants_stored m z = (refl, refl)
Settled-units sh has_stored m z = absurd (omega arith)
Settled-units sh consuming m z = elim z [ ]
Settled-units sh freed_one m z = elim z [ ]
Settled-units sh stopping m z = elim z [ ]
Settled-units sh consumed m z = (refl, refl)

Settled-makes :
    (sh : Shared) (o : Thread)
    → sh.mutex ≡ 1
    → Settled sh o
    → makes o ≡ true
    → (sh.nempty ≡ 0) ⊎ (o ≡ produced)
Settled-makes sh wants_empty m z k = inl z
Settled-makes sh has_empty m z k = absurd (omega arith)
Settled-makes sh producing m z k = elim z [ ]
Settled-makes sh stored_one m z k = elim z [ ]
Settled-makes sh leaving_empty m z k = elim z [ ]
Settled-makes sh leaving_mutex m z k = elim z [ ]
Settled-makes sh produced m z k = inr refl
Settled-makes sh wants_stored m z k = absurd (ground arith)
Settled-makes sh has_stored m z k = absurd (ground arith)
Settled-makes sh consuming m z k = elim z [ ]
Settled-makes sh freed_one m z k = elim z [ ]
Settled-makes sh stopping m z k = elim z [ ]
Settled-makes sh consumed m z k = absurd (ground arith)

Settled-fetches :
    (sh : Shared) (o : Thread)
    → sh.mutex ≡ 1
    → Settled sh o
    → makes o ≡ false
    → (sh.nstored ≡ 0) ⊎ (o ≡ consumed)
Settled-fetches sh wants_empty m z k = absurd (ground arith)
Settled-fetches sh has_empty m z k = absurd (ground arith)
Settled-fetches sh producing m z k = elim z [ ]
Settled-fetches sh stored_one m z k = elim z [ ]
Settled-fetches sh leaving_empty m z k = elim z [ ]
Settled-fetches sh leaving_mutex m z k = elim z [ ]
Settled-fetches sh produced m z k = absurd (ground arith)
Settled-fetches sh wants_stored m z k = inl z
Settled-fetches sh has_stored m z k = absurd (omega arith)
Settled-fetches sh consuming m z k = elim z [ ]
Settled-fetches sh freed_one m z k = elim z [ ]
Settled-fetches sh stopping m z k = elim z [ ]
Settled-fetches sh consumed m z k = inr refl

module _ (nitems nproducers nconsumers : ℕ) {t : System}
    (r : Reach nitems (nproducers + nconsumers) (main nproducers nconsumers) t)
    (some_producer : 0 < nproducers) (some_consumer : 0 < nconsumers)
    (stuck : (u : System) → Step nitems (nproducers + nconsumers) t u → ⊥) where
  abbrev n : ℕ
  n = nproducers + nconsumers

  abbrev sh : Shared
  sh = t.shared

  v : IsSound nitems nproducers n t
  v = Reach-IsSound (main-IsSound nitems nproducers nconsumers) r

  mutex_free : sh.mutex ≡ 1
  mutex_free = omega (
    arith,
    v.balanced.mutex,
    weigh-zero locks n t.threads λ i h. Settled-locks sh (t.threads i) (stuck-Settled stuck i h),
  )

  units : (i : ℕ) → i < n → (empties (t.threads i) ≡ 0) × (stores (t.threads i) ≡ 0)
  units i h = Settled-units sh (t.threads i) mutex_free (stuck-Settled stuck i h)

  slots : sh.nempty + sh.nput ≡ 10 + sh.nget
  slots = omega (arith, v.balanced.nempty, weigh-zero empties n t.threads λ i h. (units i h).0)

  items : sh.nstored + sh.nget ≡ sh.nput + weigh extras n t.threads
  items = omega (arith, v.balanced.nstored, weigh-zero stores n t.threads λ i h. (units i h).1)

  maker : (i : ℕ) → i < n → makes (t.threads i) ≡ true → (sh.nempty ≡ 0) ⊎ (t.threads i ≡ produced)
  maker i h = Settled-makes sh (t.threads i) mutex_free (stuck-Settled stuck i h)

  fetcher :
      (i : ℕ) → i < n → makes (t.threads i) ≡ false → (sh.nstored ≡ 0) ⊎ (t.threads i ≡ consumed)
  fetcher i h = Settled-fetches sh (t.threads i) mutex_free (stuck-Settled stuck i h)

  -- The first consumer.
  first_consumer : (sh.nstored ≡ 0) ⊎ (nitems ≤ sh.nget)
  first_consumer = elim (fetcher nproducers (omega arith) (v.kinds nproducers ∙ ground arith)) [
    | inl z ↦ inl z
    | inr e ↦ inr (
        v.balanced.finished (
          omega (
            arith,
            weigh-one finishes wants_stored refl n nproducers t.threads (omega arith),
            ap finishes e,
          )))
  ]

  room : sh.nempty ≢ 0
  room z = elim first_consumer [
    | inl none_stored ↦ omega (arith, slots, items)
    | inr all ↦ omega (arith, slots, v.balanced.within)
  ]

  some_stored : sh.nstored ≢ 0
  some_stored z = elim (maker 0 (omega arith) (v.kinds 0 ∙ ground arith)) [
    | inl full ↦ room full
    | inr e ↦ omega (
      arith,
      items,
      v.balanced.ahead,
      weigh-one extras wants_empty refl n 0 t.threads (omega arith),
      ap extras e,
    )
  ]

  ended : (i : ℕ) → i < n → (t.threads i ≡ produced) ⊎ (t.threads i ≡ consumed)
  ended i h = elim (Bool-cases (makes (t.threads i))) [
    | inl k ↦ elim (maker i h k) [ inl z ↦ absurd (room z) | inr e ↦ inl e ]
    | inr k ↦ elim (fetcher i h k) [ inl z ↦ absurd (some_stored z) | inr e ↦ inr e ]
  ]

  all_items : sh.nget ≡ nitems
  all_items = elim first_consumer [
    | inl z ↦ absurd (some_stored z)
    | inr all ↦ omega (arith, v.balanced.ahead, v.balanced.within)
  ]

  -- With a producer and a consumer at least there is no deadlock: in a state that the threads reach and
  -- in which none of them can make a step, every thread has returned, and the consumers have printed
  -- exactly the items 0, 1, …, nitems - 1, in this order.
  pub no_deadlock :
      ((i : ℕ) → i < n → (t.threads i ≡ produced) ⊎ (t.threads i ≡ consumed))
      × (sh.printed ≡ countdown nitems)
  no_deadlock = (ended, v.balanced.printed ∙ ap countdown all_items)
