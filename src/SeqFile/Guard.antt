-- ===== src/SeqFile/Guard.antt =====
-- lock/lockfcntl.c and lock/lockopen.c: who has the lock.
use interprocess_comm.Prelude.{
  ℕ, zero, suc, ◌+◌, ◌≤◌, ◌<◌, ◌≡◌, ◌≢◌, refl, ap, ◌∙◌, Bool-cases, inl, inr, true, false, ◌==◌,
  none, some, put, weigh, weigh-two, arith,
}
use interprocess_comm.SeqFile.{Process, finished, System, At}
use interprocess_comm.SeqFile.Locks.{
  Lock, lockfcntl, lockopen, locknone, f_wrlck, Flock, my_lock, my_unlock, Kernel, perform,
}
use interprocess_comm.SeqFile.Balance.{fresh, reading, written}

abbrev pub holding : Process → ℕ
holding q = fresh q + reading q + written q

pub weigh-holding :
    (n : ℕ) (g : ℕ → Process)
    → weigh holding n g ≡ weigh fresh n g + weigh reading n g + weigh written n g
unfolding weigh
weigh-holding zero g = refl
weigh-holding (suc n) g = omega (arith, weigh-holding n g)

abbrev whole_file : Flock
whole_file = record { l_type = f_wrlck; l_start = 0; l_len = 0 }

-- What the kernel knows of the lock that is taken once or not at all: the write lock on the whole file
-- is that of a process in the section, or LOCKFILE exists.
abbrev pub Guarded : Lock → (n taken : ℕ) → Kernel → (ℕ → Process) → Type 0
Guarded lockfcntl n zero k g = k.held ≡ none
Guarded lockfcntl n (suc taken) k g =
    (q : ℕ) × (q < n) × (k.held ≡ some (q, whole_file)) × (holding (g q) ≡ 1)
Guarded lockopen n zero k g = k.lock_file ≡ false
Guarded lockopen n (suc taken) k g = k.lock_file ≡ true
Guarded locknone n taken k g = Unit

module _ {n : ℕ} {s : System} {p : ℕ} {a : Process} (h : At n s p a) where
  mine : (q : ℕ) → (p == q) ≡ true → holding (s.processes q) ≡ holding a
  mine q own =
      let here : q ≡ p = ground arith in ap (λ j. holding (s.processes j)) here ∙ ap holding h.state

  pub lock-Guarded :
      (l : Lock) (taken : ℕ) {k : Kernel} (b : Process)
      → l ≢ locknone
      → holding a ≡ 0
      → holding b ≡ 1
      → Guarded l n taken s.kernel s.processes
      → perform p (my_lock l) s.kernel ≡ some k
      → (taken ≡ 0) × Guarded l n 1 k (put s.processes p b)
  unfolding perform my_lock
  lock-Guarded lockfcntl zero b ne out into free e =
      (refl, (p, h.present, ground arith, ground (arith, into)))
  lock-Guarded lockfcntl (suc t) b ne out into (q, lt, kept, one) e = elim (Bool-cases (p == q)) [
    | inl own ↦ absurd (omega (arith, out, one, mine q own))
    | inr other ↦ absurd (ground (arith, kept, other))
  ]
  lock-Guarded lockopen zero b ne out into free e = (refl, ground arith)
  lock-Guarded lockopen (suc t) b ne out into there e = absurd (ground arith)
  lock-Guarded locknone t b ne out into u e = absurd (ne refl)

  pub keep-Guarded :
      (l : Lock) (taken : ℕ) (b : Process)
      → holding b ≡ holding a
      → Guarded l n taken s.kernel s.processes
      → Guarded l n taken s.kernel (put s.processes p b)
  keep-Guarded lockfcntl zero b same free = free
  keep-Guarded lockfcntl (suc t) b same (q, lt, kept, one) = (
    q,
    lt,
    kept,
    elim (Bool-cases (q == p)) [
      | inl own ↦ rw own (omega (arith, same, one, mine q (ground arith)))
      | inr other ↦ rw other one
    ],
  )
  keep-Guarded lockopen zero b same u = u
  keep-Guarded lockopen (suc t) b same u = u
  keep-Guarded locknone t b same u = u

  pub unlock-Guarded :
      (l : Lock) (taken : ℕ) {k : Kernel} (g : ℕ → Process)
      → weigh holding n s.processes ≤ 1
      → 1 ≤ holding a
      → Guarded l n taken s.kernel s.processes
      → perform p (my_unlock l) s.kernel ≡ some k
      → Guarded l n 0 k g
  unfolding perform my_unlock
  unlock-Guarded lockfcntl zero g one act free e = ground arith
  unlock-Guarded lockfcntl (suc t) g one act (q, lt, kept, his) e = elim (Bool-cases (p == q)) [
    | inl own ↦ ground (arith, kept, own)
    | inr other ↦ absurd (
        omega (
          arith,
          one,
          act,
          his,
          ap holding h.state,
          weigh-two holding finished refl n p q s.processes h.present lt (λ i. ground arith),
        ))
  ]
  unlock-Guarded lockopen t g one act u e = ground arith
  unlock-Guarded locknone t g one act u e = tt

pub start-Guarded :
    (l : Lock) (n : ℕ) (g : ℕ → Process)
    → Guarded l n 0 (record { held = none; lock_file = false }) g
start-Guarded lockfcntl n g = refl
start-Guarded lockopen n g = refl
start-Guarded locknone n g = tt
