-- ===== src/ProdCons/System/Balance.antt =====
-- How the semaphores, the buffer and the threads of prodcons4.c balance.
use interprocess_comm.Prelude.{
  ℕ, zero, suc, ◌+◌, ◌%◌, ◌≤◌, ◌<◌, ◌≡◌, ap, ap₂, subst, ◌∙◌, List, [], ◌∷◌, arith, put, weigh,
  weigh-put, ◌==◌, Bool-cases, inl, inr, Bool, true, false, ltb,
}
use interprocess_comm.ProdCons.{
  Shared, Thread, wants_empty, consumed, has_empty, producing, stored_one, leaving_empty,
  leaving_mutex, produced, has_stored, consuming, freed_one, stopping, store, fetch,
}
use interprocess_comm.ProdCons.System.{System, At}

-- The thread has the mutex.
abbrev pub locks : Thread → ℕ
locks producing = 1
locks leaving_empty = 1
locks leaving_mutex = 1
locks consuming = 1
locks stopping = 1
locks _ = 0

-- It has a unit of `nempty`.
abbrev pub empties : Thread → ℕ
empties has_empty = 1
empties producing = 1
empties leaving_empty = 1
empties freed_one = 1
empties _ = 0

-- It has a unit of `nstored`, or owes one.
abbrev pub stores : Thread → ℕ
stores stored_one = 1
stores has_stored = 1
stores consuming = 1
stores _ = 0

-- It has posted `nstored` on leaving, for no item.
abbrev pub extras : Thread → ℕ
extras leaving_empty = 1
extras leaving_mutex = 1
extras produced = 1
extras _ = 0

-- It has found that all items are fetched.
abbrev pub finishes : Thread → ℕ
finishes stopping = 1
finishes consumed = 1
finishes _ = 0

-- It runs `produce`, not `consume`.
abbrev pub makes : Thread → Bool
makes wants_empty = true
makes has_empty = true
makes producing = true
makes stored_one = true
makes leaving_empty = true
makes leaving_mutex = true
makes produced = true
makes _ = false

-- n - 1, …, 1, 0
abbrev pub countdown : ℕ → List ℕ
countdown zero = []
countdown (suc n) = n ∷ countdown n

-- The units of the semaphores, the items in the buffer, and what has been printed.
pub record Balanced (nitems m e s x c : ℕ) (sh : Shared) : Type 0 where
  pub mutex : sh.mutex + m ≡ 1
  pub nempty : sh.nempty + e + sh.nput ≡ 10 + sh.nget
  pub nstored : sh.nstored + s + sh.nget ≡ sh.nput + x
  pub full : 0 < x → nitems ≤ sh.nput
  pub within : sh.nput ≤ nitems
  pub finished : 0 < c → nitems ≤ sh.nget
  pub ahead : sh.nget ≤ sh.nput
  pub nputval : sh.nputval ≡ sh.nput
  pub buff : (j : ℕ) → sh.nget ≤ j → j < sh.nput → sh.buff (j % 10) ≡ j
  pub printed : sh.printed ≡ countdown sh.nget

pub record IsSound (nitems nproducers n : ℕ) (s : System) : Type 0 where
  pub balanced :
      Balanced nitems
        (weigh locks n s.threads)
        (weigh empties n s.threads)
        (weigh stores n s.threads)
        (weigh extras n s.threads)
        (weigh finishes n s.threads)
        s.shared
  pub kinds : (i : ℕ) → makes (s.threads i) ≡ ltb i nproducers

-- The state of thread `i` is a variable, so that the weights compute.
pub record Change (n : ℕ) (f : ℕ → Thread) (i : ℕ) (o t : Thread) : Type 0 where
  pub m : weigh locks n (put f i t) + locks o ≡ weigh locks n f + locks t
  pub e : weigh empties n (put f i t) + empties o ≡ weigh empties n f + empties t
  pub s : weigh stores n (put f i t) + stores o ≡ weigh stores n f + stores t
  pub x : weigh extras n (put f i t) + extras o ≡ weigh extras n f + extras t
  pub c : weigh finishes n (put f i t) + finishes o ≡ weigh finishes n f + finishes t

pub change :
    {n : ℕ} {s : System} {i : ℕ} {o : Thread} (t : Thread) → At n s i o → Change n s.threads i o t
change {n} {s} {i} t a =
    subst (λ o. Change n s.threads i o t) a.state
      (record {
        m = weigh-put locks n s.threads i t a.present;
        e = weigh-put empties n s.threads i t a.present;
        s = weigh-put stores n s.threads i t a.present;
        x = weigh-put extras n s.threads i t a.present;
        c = weigh-put finishes n s.threads i t a.present;
      })

-- A step that changes semaphores only.
pub recount :
    {nitems m e s x c m' e' s' x' c' : ℕ} {sh : Shared} (mutex nempty nstored : ℕ)
    → Balanced nitems m e s x c sh
    → mutex + m' ≡ 1
    → nempty + e' + sh.nput ≡ 10 + sh.nget
    → nstored + s' + sh.nget ≡ sh.nput + x'
    → (0 < x' → nitems ≤ sh.nput)
    → (0 < c' → nitems ≤ sh.nget)
    → Balanced nitems m' e' s' x' c'
        (record sh { mutex = mutex; nempty = nempty; nstored = nstored })
recount mutex nempty nstored b p q r f g = record {
  mutex = p;
  nempty = q;
  nstored = r;
  full = f;
  within = b.within;
  finished = g;
  ahead = b.ahead;
  nputval = b.nputval;
  buff = b.buff;
  printed = b.printed;
}

-- Two items within one round of the buffer stand in different slots.
same-slot : (a b : ℕ) → a ≤ b → b < a + 10 → a % 10 ≡ b % 10 → a ≡ b
same-slot a b le lt e = omega arith

-- A producer with the mutex finds room, and leaves the items in the buffer alone.
pub store-Balanced :
    {nitems m e s x c m' e' s' x' c' : ℕ} {sh : Shared}
    → Balanced nitems m e s x c sh
    → 0 < e
    → sh.nput < nitems
    → sh.mutex + 1 + m' ≡ 1
    → e' + 1 ≡ e
    → s' ≡ s + 1
    → x' ≡ x
    → c' ≡ c
    → let t = store sh in Balanced nitems m' e' s' x' c' (record t { mutex = t.mutex + 1 })
store-Balanced {sh = sh} b some_e more p q r y z = record {
  mutex = p;
  nempty = omega (arith, b.nempty);
  nstored = omega (arith, b.nstored);
  full = λ h. omega (arith, b.full (omega arith));
  within = omega arith;
  finished = λ h. b.finished (omega arith);
  ahead = omega (arith, b.ahead);
  nputval = omega (arith, b.nputval);
  buff = λ j lo hi. elim (Bool-cases (j % 10 == sh.nput % 10)) [
    | inl same ↦ ground (
      arith,
      same-slot j sh.nput (omega arith) (omega (arith, b.nempty)) (ground arith),
      b.nputval,
    )
    | inr other ↦ ground (arith, b.buff j)
  ];
  printed = b.printed;
}

-- A consumer with the mutex finds the next item in the buffer.
pub fetch-Balanced :
    {nitems m e s x c m' e' s' x' c' : ℕ} {sh : Shared}
    → Balanced nitems m e s x c sh
    → 0 < s
    → sh.nget < nitems
    → sh.mutex + 1 + m' ≡ 1
    → e' ≡ e + 1
    → s' + 1 ≡ s
    → x' ≡ x
    → c' ≡ c
    → let t = fetch sh in Balanced nitems m' e' s' x' c' (record t { mutex = t.mutex + 1 })
fetch-Balanced {nitems} {x = x} {sh = sh} b some_s more p q r y z = record {
  mutex = p;
  nempty = omega (arith, b.nempty);
  nstored = omega (arith, b.nstored);
  full = λ h. b.full (omega arith);
  within = b.within;
  finished = λ h. omega (arith, b.finished (omega arith));
  ahead = omega (arith, item);
  nputval = b.nputval;
  buff = λ j lo hi. b.buff j (omega arith) hi;
  printed =
      let next : suc sh.nget ≡ sh.nget + 1 = omega arith in
      ap₂ ◌∷◌ (b.buff sh.nget (omega arith) item) b.printed ∙ ap countdown next;
}
  where
    item : sh.nget < sh.nput
    item = ground (arith, b.full, b.nstored, b.ahead)
