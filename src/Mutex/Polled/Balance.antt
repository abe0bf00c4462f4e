-- ===== src/Mutex/Polled/Balance.antt =====
-- mutex/prodcons2.c and mutex/prodcons3.c: how the mutex, the items and the threads balance.
use interprocess_comm.Prelude.{
  ℕ, ◌+◌, ◌≤◌, ◌<◌, ◌≡◌, refl, subst, [], arith, put, weigh, weigh-put, ltb, Bool-cases, inl, inr,
  Bool, true, false,
}
use interprocess_comm.Mutex.{itself, IsFilled}
use interprocess_comm.Mutex.Polled.{
  Producer, locked, counting, returned, Consumer, not_started, finished, wants_look, looking,
  comparing, System, next, At,
}

-- The producer has the mutex, has stored an item that it has not counted, or has returned.
abbrev pub locks : Producer → ℕ
locks locked = 1
locks _ = 0

abbrev pub uncounted : Producer → ℕ
uncounted counting = 1
uncounted _ = 0

abbrev pub returns : Producer → ℕ
returns returned = 1
returns _ = 0

-- The consumer has the mutex.
abbrev pub looks : Consumer → ℕ
looks (looking i) = 1
looks _ = 0

-- The consumer compares only what has been stored, and that of prodcons2.c starts when all has, and
-- never asks.
abbrev pub Sees : (polls : Bool) (nitems nput : ℕ) → Consumer → Type 0
Sees polls nitems nput not_started = Unit
Sees true nitems nput (comparing i) = i < nput
Sees false nitems nput (comparing i) = (i < nitems) × (nitems ≤ nput)
Sees polls nitems nput finished = Unit
Sees true nitems nput _ = Unit
Sees false nitems nput _ = ⊥

-- Of the producers only their weights count: with the mutex, uncounted and returned, and what they
-- have counted.
pub record Balanced (polls : Bool) (nitems p u x c : ℕ) (s : System) : Type 0 where
  pub filled : IsFilled nitems s.items
  pub mutex : s.mutex + p + looks s.consumer ≡ 1
  pub counted : c + u ≡ s.items.nput
  pub full : 0 < x → nitems ≤ s.items.nput
  pub sees : Sees polls nitems s.items.nput s.consumer
  pub printed : s.printed ≡ []

abbrev pub IsSound : (polls : Bool) (nitems n : ℕ) → System → Type 0
IsSound polls nitems n s =
    Balanced polls nitems (weigh locks n s.producers) (weigh uncounted n s.producers)
      (weigh returns n s.producers) (weigh itself n s.count) s

-- The state of producer `i` is a variable, so that the weights compute.
pub record Change (n : ℕ) (f : ℕ → Producer) (i : ℕ) (a b : Producer) : Type 0 where
  pub p : weigh locks n (put f i b) + locks a ≡ weigh locks n f + locks b
  pub u : weigh uncounted n (put f i b) + uncounted a ≡ weigh uncounted n f + uncounted b
  pub x : weigh returns n (put f i b) + returns a ≡ weigh returns n f + returns b

pub change :
    {n : ℕ} {s : System} {i : ℕ} {a : Producer} (b : Producer)
    → At n s i a
    → Change n s.producers i a b
change {n} {s} {i} b h =
    subst (λ a. Change n s.producers i a b) h.state
      (record {
        p = weigh-put locks n s.producers i b h.present;
        u = weigh-put uncounted n s.producers i b h.present;
        x = weigh-put returns n s.producers i b h.present;
      })

-- More items do not hide those that the consumer sees.
pub Sees-more :
    (polls : Bool) (nitems nput more : ℕ) (c : Consumer)
    → nput ≤ more
    → Sees polls nitems nput c
    → Sees polls nitems more c
Sees-more polls nitems nput more not_started le h = tt
Sees-more polls nitems nput more finished le h = tt
Sees-more true nitems nput more (wants_look i) le h = tt
Sees-more true nitems nput more (looking i) le h = tt
Sees-more false nitems nput more (wants_look i) le h = h
Sees-more false nitems nput more (looking i) le h = h
Sees-more true nitems nput more (comparing i) le h = omega arith
Sees-more false nitems nput more (comparing i) le h = (h.0, omega (arith, h.1))

pub next-Sees :
    (polls : Bool) (nitems nput i : ℕ)
    → (polls ≡ false → nitems ≤ nput)
    → Sees polls nitems nput (next polls nitems i)
unfolding next
next-Sees true nitems nput i h = elim (Bool-cases (ltb i nitems)) [
  | inl more ↦ rw more tt
  | inr done ↦ rw done tt
]
next-Sees false nitems nput i h = elim (Bool-cases (ltb i nitems)) [
  | inl more ↦ rw more (ground arith, h refl)
  | inr done ↦ rw done tt
]

pub next-looks : (polls : Bool) (nitems i : ℕ) → looks (next polls nitems i) ≡ 0
unfolding next
next-looks true nitems i = elim (Bool-cases (ltb i nitems)) [
  | inl more ↦ rw more refl
  | inr done ↦ rw done refl
]
next-looks false nitems i = elim (Bool-cases (ltb i nitems)) [
  | inl more ↦ rw more refl
  | inr done ↦ rw done refl
]

-- What the consumer compares is there; and in prodcons2.c so are all items.
pub Sees-item :
    (polls : Bool) (nitems nput i : ℕ)
    → Sees polls nitems nput (comparing i)
    → (i < nput) × (polls ≡ false → nitems ≤ nput)
Sees-item true nitems nput i h = (h, λ e. absurd (ground arith))
Sees-item false nitems nput i h = (omega (arith, h.0, h.1), λ e. h.1)
