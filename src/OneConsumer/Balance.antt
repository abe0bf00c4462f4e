-- ===== src/OneConsumer/Balance.antt =====
-- pxsem/prodcons1.c to prodcons3.c: how the semaphores, the ring and the threads balance.
use interprocess_comm.Prelude.{
  ℕ, zero, suc, ◌+◌, ◌%◌, ◌≤◌, ◌<◌, ◌≡◌, refl, subst, Bool, true, false, Bool-cases, inl, inr, ltb,
  List, [], ◌∷◌, length, put, weigh, weigh-put, arith,
}
use interprocess_comm.OneConsumer.{
  Producer, wants_empty, has_empty, producing, stored_one, leaving, counting, returned, Consumer,
  wants_stored, has_stored, printing, freed, finished, System, next, At,
}

-- The producer has the mutex, has a unit of `nempty`, owes one of `nstored`, has not counted an item,
-- may go on to store one, or has left the loop.
abbrev pub locks : Producer → ℕ
locks producing = 1
locks leaving = 1
locks _ = 0

abbrev pub empties : Producer → ℕ
empties has_empty = 1
empties producing = 1
empties _ = 0

abbrev pub stores : Producer → ℕ
stores stored_one = 1
stores _ = 0

abbrev pub uncounted : Producer → ℕ
uncounted stored_one = 1
uncounted counting = 1
uncounted _ = 0

abbrev pub ahead : Producer → ℕ
ahead wants_empty = 1
ahead has_empty = 1
ahead producing = 1
ahead counting = 1
ahead _ = 0

abbrev pub leaves : Producer → ℕ
leaves leaving = 1
leaves returned = 1
leaves _ = 0

-- The consumer has the mutex, has a unit of `nstored`, or owes one of `nempty`.
abbrev pub c_locks : Consumer → ℕ
c_locks (printing i) = 1
c_locks _ = 0

abbrev pub c_stores : Consumer → ℕ
c_stores (has_stored i) = 1
c_stores (printing i) = 1
c_stores _ = 0

abbrev pub c_frees : Consumer → ℕ
c_frees (freed i) = 1
c_frees _ = 0

-- The consumer has printed `c` items.
abbrev pub HasPrinted : (nitems c : ℕ) → Consumer → Type 0
HasPrinted nitems c (wants_stored i) = (i ≡ c) × (c < nitems)
HasPrinted nitems c (has_stored i) = (i ≡ c) × (c < nitems)
HasPrinted nitems c (printing i) = (i ≡ c) × (c < nitems)
HasPrinted nitems c (freed i) = (suc i ≡ c) × (c ≤ nitems)
HasPrinted nitems c finished = c ≡ nitems

-- n - 1, …, 1, 0
abbrev pub countdown : ℕ → List ℕ
countdown zero = []
countdown (suc n) = n ∷ countdown n

abbrev pub itself : ℕ → ℕ
itself n = n

-- Of the producers only their weights count, and what they have counted.
pub record Balanced (alone : Bool) (nitems m e o u a x c : ℕ) (s : System) : Type 0 where
  pub mutex : s.mutex + m + c_locks s.consumer ≡ 1
  pub nempty : s.nempty + e + s.nput + c_frees s.consumer ≡ 10 + length s.printed
  pub nstored : s.nstored + o + c_stores s.consumer + length s.printed ≡ s.nput
  pub counted : alone ≡ false → c + u ≡ s.nput
  pub within : s.nput ≤ nitems
  pub room : alone ≡ true → a + s.nput ≤ nitems
  pub full : 0 < x → nitems ≤ s.nput
  pub nputval : s.nputval ≡ s.nput
  pub buff : (j : ℕ) → length s.printed ≤ j → j < s.nput → s.buff (j % 10) ≡ j
  pub index : HasPrinted nitems (length s.printed) s.consumer
  pub printed : s.printed ≡ countdown (length s.printed)

abbrev pub IsSound : (alone : Bool) → (nitems n : ℕ) → System → Type 0
IsSound alone nitems n s =
    Balanced alone nitems (weigh locks n s.producers) (weigh empties n s.producers)
      (weigh stores n s.producers) (weigh uncounted n s.producers) (weigh ahead n s.producers)
      (weigh leaves n s.producers) (weigh itself n s.count) s

-- The state of producer `i` is a variable, so that the weights compute.
pub record Change (n : ℕ) (f : ℕ → Producer) (i : ℕ) (p q : Producer) : Type 0 where
  pub m : weigh locks n (put f i q) + locks p ≡ weigh locks n f + locks q
  pub e : weigh empties n (put f i q) + empties p ≡ weigh empties n f + empties q
  pub o : weigh stores n (put f i q) + stores p ≡ weigh stores n f + stores q
  pub u : weigh uncounted n (put f i q) + uncounted p ≡ weigh uncounted n f + uncounted q
  pub a : weigh ahead n (put f i q) + ahead p ≡ weigh ahead n f + ahead q
  pub x : weigh leaves n (put f i q) + leaves p ≡ weigh leaves n f + leaves q

pub change :
    {n : ℕ} {s : System} {i : ℕ} {p : Producer} (q : Producer)
    → At n s i p
    → Change n s.producers i p q
change {n} {s} {i} q h =
    subst (λ p. Change n s.producers i p q) h.state
      (record {
        m = weigh-put locks n s.producers i q h.present;
        e = weigh-put empties n s.producers i q h.present;
        o = weigh-put stores n s.producers i q h.present;
        u = weigh-put uncounted n s.producers i q h.present;
        a = weigh-put ahead n s.producers i q h.present;
        x = weigh-put leaves n s.producers i q h.present;
      })

-- Two items within one round of the ring stand in different slots.
pub same-slot : (a b : ℕ) → a ≤ b → b < a + 10 → a % 10 ≡ b % 10 → a ≡ b
same-slot a b le lt e = omega arith

pub next-HasPrinted : (nitems i : ℕ) → i ≤ nitems → HasPrinted nitems i (next nitems i)
unfolding next
next-HasPrinted nitems i h = elim (Bool-cases (ltb i nitems)) [
  | inl more ↦ rw more (refl, ground arith)
  | inr done ↦ rw done (ground arith)
]

pub next-idle :
    (nitems i : ℕ)
    → (c_locks (next nitems i) ≡ 0) × (c_stores (next nitems i) ≡ 0) × (c_frees (next nitems i) ≡ 0)
unfolding next
next-idle nitems i = elim (Bool-cases (ltb i nitems)) [
  | inl more ↦ rw more (refl, refl, refl)
  | inr done ↦ rw done (refl, refl, refl)
]
