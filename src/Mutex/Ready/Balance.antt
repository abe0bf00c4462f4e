-- ===== src/Mutex/Ready/Balance.antt =====
-- mutex/prodcons6.c: how the mutexes, the items and the threads balance.
use interprocess_comm.Prelude.{
  ℕ, suc, ◌+◌, ◌≤◌, ◌<◌, ◌≡◌, refl, subst, [], arith, put, weigh, weigh-put, ltb, Bool-cases, inl,
  inr,
}
use interprocess_comm.Mutex.{itself, IsFilled}
use interprocess_comm.Mutex.Ready.{
  Producer, putting, wants_ready, readying, counting, returned, Consumer, wants_check, checking,
  waiting, fetched, finished, System, next, At,
}

-- The producer has the first mutex, or the second.
abbrev pub puts : Producer → ℕ
puts putting = 1
puts _ = 0

abbrev pub readies : Producer → ℕ
readies readying = 1
readies _ = 0

-- It has stored an item that is not ready yet, or not counted.
abbrev pub owes : Producer → ℕ
owes wants_ready = 1
owes readying = 1
owes _ = 0

abbrev pub uncounted : Producer → ℕ
uncounted wants_ready = 1
uncounted readying = 1
uncounted counting = 1
uncounted _ = 0

abbrev pub returns : Producer → ℕ
returns returned = 1
returns _ = 0

-- The consumer has the second mutex, or waits.
abbrev pub checks : Consumer → ℕ
checks (checking i) = 1
checks _ = 0

abbrev pub sleeps : Consumer → ℕ
sleeps (waiting i) = 1
sleeps _ = 0

-- The items that the consumer has taken off `nready`.
abbrev pub got : (nitems : ℕ) → Consumer → ℕ
got nitems (wants_check i) = i
got nitems (checking i) = i
got nitems (waiting i) = i
got nitems (fetched i) = suc i
got nitems finished = nitems

-- It is in its loop only as long as the test holds.
abbrev pub InLoop : (nitems : ℕ) → Consumer → Type 0
InLoop nitems (wants_check i) = i < nitems
InLoop nitems (checking i) = i < nitems
InLoop nitems (waiting i) = i < nitems
InLoop nitems (fetched i) = i < nitems
InLoop nitems finished = Unit

-- Of the producers only their weights count: with the first and the second mutex, owing, uncounted
-- and returned, and what they have counted.
pub record Balanced (nitems p r o u x c : ℕ) (s : System) : Type 0 where
  pub filled : IsFilled nitems s.items
  pub put_mutex : s.put_mutex + p ≡ 1
  pub ready_mutex : s.ready_mutex + r + checks s.consumer ≡ 1
  pub ready : got nitems s.consumer + s.nready + o ≡ s.items.nput
  pub counted : c + u ≡ s.items.nput
  pub full : 0 < x → nitems ≤ s.items.nput
  pub looping : InLoop nitems s.consumer
  pub asleep : 0 < sleeps s.consumer → s.nready ≡ 0
  pub printed : s.printed ≡ []

abbrev pub IsSound : (nitems n : ℕ) → System → Type 0
IsSound nitems n s =
    Balanced nitems (weigh puts n s.producers) (weigh readies n s.producers)
      (weigh owes n s.producers) (weigh uncounted n s.producers) (weigh returns n s.producers)
      (weigh itself n s.count) s

-- The state of producer `i` is a variable, so that the weights compute.
pub record Change (n : ℕ) (f : ℕ → Producer) (i : ℕ) (a b : Producer) : Type 0 where
  pub p : weigh puts n (put f i b) + puts a ≡ weigh puts n f + puts b
  pub r : weigh readies n (put f i b) + readies a ≡ weigh readies n f + readies b
  pub o : weigh owes n (put f i b) + owes a ≡ weigh owes n f + owes b
  pub u : weigh uncounted n (put f i b) + uncounted a ≡ weigh uncounted n f + uncounted b
  pub x : weigh returns n (put f i b) + returns a ≡ weigh returns n f + returns b

pub change :
    {n : ℕ} {s : System} {i : ℕ} {a : Producer} (b : Producer)
    → At n s i a
    → Change n s.producers i a b
change {n} {s} {i} b h =
    subst (λ a. Change n s.producers i a b) h.state
      (record {
        p = weigh-put puts n s.producers i b h.present;
        r = weigh-put readies n s.producers i b h.present;
        o = weigh-put owes n s.producers i b h.present;
        u = weigh-put uncounted n s.producers i b h.present;
        x = weigh-put returns n s.producers i b h.present;
      })

pub got-next : (nitems i : ℕ) → i ≤ nitems → got nitems (next nitems i) ≡ i
unfolding next
got-next nitems i h = elim (Bool-cases (ltb i nitems)) [
  | inl more ↦ rw more refl
  | inr done ↦ rw done (ground arith)
]

pub next-InLoop : (nitems i : ℕ) → InLoop nitems (next nitems i)
unfolding next
next-InLoop nitems i = elim (Bool-cases (ltb i nitems)) [
  | inl more ↦ rw more (ground arith)
  | inr done ↦ rw done tt
]

pub next-awake : (nitems i : ℕ) → (checks (next nitems i) ≡ 0) × (sleeps (next nitems i) ≡ 0)
unfolding next
next-awake nitems i = elim (Bool-cases (ltb i nitems)) [
  | inl more ↦ rw more (refl, refl)
  | inr done ↦ rw done (refl, refl)
]
