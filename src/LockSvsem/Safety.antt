-- ===== src/LockSvsem/Safety.antt =====
-- Processes that share the lock of locksvsem.c.
use interprocess_comm.Prelude.{
  ℕ, ◌+◌, leb, ◌≤◌, ◌<◌, ◌≡◌, ◌≢◌, refl, ap, subst, sym, Bool, true, false, Option, none, some,
  arith, put, weigh, weigh-put, weigh-one, weigh-two, weigh-zero, Bool-cases, inl, inr,
}
use interprocess_comm.SemSvsem.{SemSet}
use interprocess_comm.LockSvsem.{
  Process, Place, outside, creating, looking, waiting, inside, max_tries, my_lock, set_value, look,
  take_unit, my_unlock,
}

pub record System : Type 0 where
  pub set : Option SemSet
  pub places : ℕ → Place

pub record At (n : ℕ) (s : System) (i : ℕ) (p : Place) : Type 0 where
  pub present : i < n
  pub state : s.places i ≡ p

abbrev pub moves : System → ℕ → Place × Option SemSet → System
moves s i (p, set) = record { set = set; places = put s.places i p }

-- Each system call on the set is a step of its own; a call of `semop` that blocks is none. A process
-- with the lock is initialised.
pub data Step (n : ℕ) (s : System) : System → Type 0 where
  call :
      (i : ℕ) (semget_new : Option ℕ) (fresh value : ℕ) (p : Process)
      → At n s i (outside p)
      → Step n s (moves s i (my_lock semget_new fresh value p s.set))
  initialize :
      (i : ℕ) (set : SemSet)
      → At n s i creating
      → s.set ≡ some set
      → Step n s (moves s i (waiting, some (set_value set)))
  inspect :
      (i k : ℕ) (set : SemSet)
      → At n s i (looking k)
      → s.set ≡ some set
      → Step n s (moves s i (look k set, some set))
  take :
      (i : ℕ) (set after : SemSet)
      → At n s i waiting
      → s.set ≡ some set
      → take_unit set ≡ some after
      → Step n s (moves s i (inside, some after))
  unlock :
      (i : ℕ) (set after : SemSet)
      → At n s i inside
      → s.set ≡ some set
      → my_unlock (record { initflag = true }) set ≡ some after
      → Step n s (moves s i (outside (record { initflag = true }), some after))

pub data Reach (n : ℕ) (s : System) : System → Type 0 where
  start : Reach n s s
  later : {t u : System} → Reach n s t → Step n t u → Reach n s u

abbrev one_if : Bool → ℕ
one_if true = 1
one_if false = 0

-- The process has the lock; it is in front of `semop`; it has made the set and has to set its value; it
-- is outside with `initflag` set.
abbrev pub holds : Place → ℕ
holds inside = 1
holds _ = 0

abbrev queued : Place → ℕ
queued waiting = 1
queued _ = 0

abbrev making : Place → ℕ
making creating = 1
making _ = 0

abbrev started : Place → ℕ
started (outside p) = one_if p.initflag
started _ = 0

-- How many processes are making the set, in front of `semop`, with the lock and initialised outside.
record Weights : Type 0 where
  pub m : ℕ
  pub q : ℕ
  pub h : ℕ
  pub u : ℕ

abbrev weights : ℕ → (ℕ → Place) → Weights
weights n g = record {
  m = weigh making n g;
  q = weigh queued n g;
  h = weigh holds n g;
  u = weigh started n g;
}

-- Until the first `semop`, only the process that has made the set is past its `semget`, and from its
-- SETVAL on the value is 1. After that, one unit is in the set or in a process's hands.
abbrev Balanced : Weights → (otime : Bool) → (semval : ℕ) → Type 0
Balanced w false semval = (w.m + w.q ≡ 1) × (w.h + w.u ≡ 0) × (w.m ≡ 0 → semval ≡ 1)
Balanced w true semval = (w.m ≡ 0) × (w.h + semval ≡ 1)

-- With no set, nobody is past the first `semget`.
abbrev Phase : Weights → Option SemSet → Type 0
Phase w none = w.m + w.q + w.h + w.u ≡ 0
Phase w (some set) = Balanced w set.otime set.semval

abbrev IsSound : (n : ℕ) → System → Type 0
IsSound n s = Phase (weights n s.places) s.set

-- The weights before and after a step of process `i` from `a` to `b`.
record Change (a b : Place) (v w : Weights) : Type 0 where
  pub m : w.m + making a ≡ v.m + making b
  pub q : w.q + queued a ≡ v.q + queued b
  pub h : w.h + holds a ≡ v.h + holds b
  pub u : w.u + started a ≡ v.u + started b

change :
    {n : ℕ} {s : System} {i : ℕ} {a : Place} (b : Place)
    → At n s i a
    → Change a b (weights n s.places) (weights n (put s.places i b))
change {n} {s} {i} b at =
    subst (λ a. Change a b (weights n s.places) (weights n (put s.places i b))) at.state
      (record {
        m = weigh-put making n s.places i b at.present;
        q = weigh-put queued n s.places i b at.present;
        h = weigh-put holds n s.places i b at.present;
        u = weigh-put started n s.places i b at.present;
      })

-- The steps, on the weights.
module _ (v w : Weights) where
  goes_on :
      (a b : Place)
      → Change a b v w
      → making a ≡ making b
      → queued a ≡ queued b
      → holds a ≡ holds b
      → started a ≡ started b
      → v ≡ w
  goes_on a b c d e f g =
      let m : v.m ≡ w.m = omega (arith, c.m) in
      let q : v.q ≡ w.q = omega (arith, c.q) in
      let h : v.h ≡ w.h = omega (arith, c.h) in let u : v.u ≡ w.u = omega (arith, c.u) in cc

  queues :
      (p : Process) (set : Option SemSet)
      → Change (outside p) waiting v w
      → p.initflag ≡ true
      → Phase v set
      → 1 ≤ v.u
      → Phase w set
  queues p none c i x one = absurd (omega arith)
  queues p (some set) c i x one = queues_some set.otime set.semval x
    where
      queues_some : (o : Bool) (n : ℕ) → Balanced v o n → Balanced w o n
      queues_some false n y = absurd (omega (arith, y.1))
      queues_some true n y = (omega (arith, c.m, y.0), omega (arith, c.h, y.1))

  makes :
      (p : Process)
      → Change (outside p) creating v w
      → p.initflag ≡ false
      → v.m + v.q + v.h + v.u ≡ 0
      → (n : ℕ) → Balanced w false n
  makes p c i x n = (
    omega (arith, c.m, c.q),
    omega (arith, c.h, c.u, ap one_if i),
    λ z. absurd (omega (arith, c.m)),
  )

  sets :
      (o : Bool) (n : ℕ) → Change creating waiting v w → Balanced v o n → 1 ≤ v.m → Balanced w o 1
  sets false n c x one = (omega (arith, c.m, c.q, x.0), omega (arith, c.h, c.u, x.1), λ z. refl)
  sets true n c x one = absurd (omega (arith, x.0))

  looks :
      (k : ℕ) (o : Bool) (n : ℕ)
      → Change (looking k) waiting v w
      → o ≡ true
      → Balanced v o n
      → Balanced w o n
  looks k false n c used x = absurd (ground arith)
  looks k true n c used x = (omega (arith, c.m, x.0), omega (arith, c.h, x.1))

  takes :
      (o : Bool) (n k : ℕ)
      → Change waiting inside v w
      → Balanced v o n
      → 1 ≤ v.q
      → k + 1 ≡ n
      → Balanced w true k
  takes false n k c x one e =
      (omega (arith, c.m, x.0), omega (arith, c.h, x.0, x.1, x.2 (omega (arith, x.0))))
  takes true n k c x one e = (omega (arith, c.m, x.0), omega (arith, c.h, x.1))

  gives :
      (p : Process) (o : Bool) (n : ℕ)
      → Change inside (outside p) v w
      → Balanced v o n
      → 1 ≤ v.h
      → Balanced w true (n + 1)
  gives p false n c x one = absurd (omega (arith, x.1))
  gives p true n c x one = (omega (arith, c.m, x.0), omega (arith, c.h, x.1))

-- What a process that has the lock, queues, makes the set or is initialised adds to the weights.
one_of :
    (weight : Place → ℕ) {n : ℕ} {s : System} {i : ℕ} {a : Place}
    → weight (looking 0) ≡ 0
    → At n s i a
    → weight a ≤ weigh weight n s.places
one_of weight {n} {s} {i} z at =
    omega (arith, weigh-one weight (looking 0) z n i s.places at.present, ap weight at.state)

module _ (n : ℕ) (s : System) (v : IsSound n s) where
  before : {set : Option SemSet} → s.set ≡ set → Phase (weights n s.places) set
  before e = subst (Phase (weights n s.places)) e v

  stays :
      {i : ℕ} {a : Place} {set : Option SemSet} (b : Place)
      → At n s i a
      → s.set ≡ set
      → making a ≡ making b
      → queued a ≡ queued b
      → holds a ≡ holds b
      → started a ≡ started b
      → IsSound n (moves s i (b, set))
  stays {i} {a} {set} b at k d e f g =
      subst (λ w. Phase w set) (goes_on (weights n s.places) _ a b (change b at) d e f g) (before k)

  call-IsSound :
      (i : ℕ) (set : Option SemSet) (g : Option ℕ) (f x : ℕ) (p : Process)
      → At n s i (outside p)
      → s.set ≡ set
      → IsSound n (moves s i (my_lock g f x p set))
  unfolding my_lock
  call-IsSound i set g f x p at k = elim (Bool-cases p.initflag) [
    | inl ready ↦ rw ready (
        queues (weights n s.places) _ p set (change waiting at) ready (before k)
          (omega (arith, one_of started refl at, ap one_if ready)))
    | inr new ↦ enters set g k new
  ]
    where
      enters :
          (set : Option SemSet) (g : Option ℕ)
          → s.set ≡ set
          → p.initflag ≡ false
          → IsSound n (moves s i (my_lock g f x p set))
      enters none none k new =
          rw new (makes (weights n s.places) _ p (change creating at) new (before k) x)
      enters none (some e) k new =
          let back : my_lock (some e) f x p none ≡ (outside p, none) = ground arith in
          subst (λ r. IsSound n (moves s i r)) (sym back)
            (stays (outside p) at k refl refl refl refl)
      enters (some set) g k new = rw new (stays (looking 0) at k refl refl refl (ap one_if new))

  look-IsSound :
      (i k : ℕ) (set : SemSet)
      → At n s i (looking k)
      → s.set ≡ some set
      → IsSound n (moves s i (look k set, some set))
  unfolding look
  look-IsSound i k set at e = elim (Bool-cases set.otime) [
    | inl used ↦
        let on : look k set ≡ waiting = ground arith in
        subst (λ b. IsSound n (moves s i (b, some set))) (sym on)
          (looks (weights n s.places) (weights n (put s.places i waiting)) k set.otime set.semval
            (change waiting at) used (before e))
    | inr new ↦ elim (Bool-cases (leb max_tries (k + 1))) [
      | inl last ↦
          let back : look k set ≡ outside (record { initflag = false }) = ground arith in
          subst (λ b. IsSound n (moves s i (b, some set))) (sym back)
            (stays (outside (record { initflag = false })) at e refl refl refl refl)
      | inr more ↦
          let again : look k set ≡ looking (k + 1) = ground arith in
          subst (λ b. IsSound n (moves s i (b, some set))) (sym again)
            (stays (looking (k + 1)) at e refl refl refl refl)
    ]
  ]

  take-IsSound :
      (i : ℕ) (set after : SemSet)
      → At n s i waiting
      → s.set ≡ some set
      → take_unit set ≡ some after
      → IsSound n (moves s i (inside, some after))
  unfolding take_unit
  take-IsSound i set after at e k =
      let less : (after.semval + 1 ≡ set.semval) × (after.otime ≡ true) = ground arith in
      rw less.1 (
        takes (weights n s.places) _ set.otime set.semval after.semval (change inside at) (before e)
          (one_of queued refl at) less.0)

  unlock-IsSound :
      (i : ℕ) (set after : SemSet)
      → At n s i inside
      → s.set ≡ some set
      → my_unlock (record { initflag = true }) set ≡ some after
      → IsSound n (moves s i (outside (record { initflag = true }), some after))
  unfolding my_unlock
  unlock-IsSound i set after at e k =
      let b = outside (record { initflag = true }) in
      let w = weights n (put s.places i b) in
      let more : (set.semval + 1 ≡ after.semval) × (true ≡ after.otime) = ground arith in
      subst (λ o. Balanced w o after.semval) more.1
        (subst (Balanced w true) more.0 (
          gives (weights n s.places) w (record { initflag = true }) set.otime set.semval
            (change b at) (before e) (one_of holds refl at)))

Step-IsSound : {n : ℕ} {s t : System} → IsSound n s → Step n s t → IsSound n t
Step-IsSound {n} {s} v (call i g f x p at) = call-IsSound n s v i s.set g f x p at refl
Step-IsSound {n} {s} v (initialize i set at e) =
    sets (weights n s.places) _ set.otime set.semval (change waiting at) (before n s v e)
      (one_of making refl at)
Step-IsSound {n} {s} v (inspect i k set at e) = look-IsSound n s v i k set at e
Step-IsSound {n} {s} v (take i set after at e k) = take-IsSound n s v i set after at e k
Step-IsSound {n} {s} v (unlock i set after at e k) = unlock-IsSound n s v i set after at e k

Reach-IsSound : {n : ℕ} {s t : System} → IsSound n s → Reach n s t → IsSound n t
Reach-IsSound v start = v
Reach-IsSound v (later r st) = Step-IsSound (Reach-IsSound v r) st

-- No set has been made, and no process has called `my_lock`.
abbrev pub unused : System
unused = record { set = none; places = λ i. outside (record { initflag = false }) }

unused-IsSound : (n : ℕ) → IsSound n unused
unused-IsSound n = omega (
  arith,
  weigh-zero making n unused.places (λ p lt. refl),
  weigh-zero queued n unused.places (λ p lt. refl),
  weigh-zero holds n unused.places (λ p lt. refl),
  weigh-zero started n unused.places (λ p lt. refl),
)

at_most_one : (w : Weights) (set : Option SemSet) → Phase w set → w.h ≤ 1
at_most_one w none v = omega (arith, v)
at_most_one w (some set) v = bounded set.otime set.semval v
  where
    bounded : (o : Bool) (x : ℕ) → Balanced w o x → w.h ≤ 1
    bounded false x v = omega (arith, v.1)
    bounded true x v = omega (arith, v.1)

-- Processes that call `my_lock`, and `my_unlock` only with the lock, from when there is no set: whichever
-- of them makes the set, whatever value the kernel gives a new set, and however their system calls
-- interleave, in no state that they reach are two of them inside the lock.
pub lock_excludes :
    {n : ℕ} {t : System}
    → Reach n unused t
    → (i j : ℕ) → i ≢ j
    → At n t i inside
    → j < n
    → t.places j ≢ inside
lock_excludes {n} {t} r i j ne a lt e = omega (
  arith,
  at_most_one (weights n t.places) t.set (Reach-IsSound (unused-IsSound n) r),
  ap holds a.state,
  ap holds e,
  weigh-two holds (looking 0) refl n i j t.places a.present lt ne,
)
