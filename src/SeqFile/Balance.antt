-- ===== src/SeqFile/Balance.antt =====
-- lock/lockmain.c: how the lock, the file and the processes balance.
use interprocess_comm.Prelude.{
  ℕ, zero, suc, ◌+◌, ◌≤◌, ◌<◌, ◌≡◌, refl, subst, Bool-cases, inl, inr, ltb, List, [], ◌∷◌, put,
  weigh, weigh-put, ℤ, pos, arith,
}
use interprocess_comm.SeqFile.{
  Process, wants_lock, has_lock, has_read, has_written, finished, System, text, next, At,
}

-- The process has the lock, with nothing read, with a number read, or with the next one written.
abbrev pub fresh : Process → ℕ
fresh (has_lock i) = 1
fresh _ = 0

abbrev pub reading : Process → ℕ
reading (has_read i v) = 1
reading _ = 0

abbrev pub written : Process → ℕ
written (has_written i) = 1
written _ = 0

-- How often it has written.
abbrev pub writes : Process → ℕ
writes (wants_lock i) = i
writes (has_lock i) = i
writes (has_read i v) = i
writes (has_written i) = suc i
writes finished = 20

-- It is in its loop only as long as the test holds, and what it has read is the number `v`.
abbrev pub Current : (v : ℕ) → Process → Type 0
Current v (wants_lock i) = i < 20
Current v (has_lock i) = i < 20
Current v (has_read i w) = (i < 20) × (w ≡ pos v)
Current v (has_written i) = i < 20
Current v finished = Unit

-- start + n - 1, …, start
abbrev pub downfrom : (start n : ℕ) → List ℤ
downfrom start zero = []
downfrom start (suc n) = pos (start + n) ∷ downfrom start n

-- Of the processes their weights count, and what each has read. `taken` is 1 if the lock is taken, and
-- else 0.
pub record Balanced (start n f r w k taken : ℕ) (s : System) : Type 0 where
  pub taken_by : taken ≡ f + r + w
  pub one : taken ≤ 1
  pub contents : s.contents ≡ text (pos (start + k))
  pub printed : s.printed ≡ downfrom start (k + r)
  pub current : (p : ℕ) → p < n → Current (start + k) (s.processes p)

abbrev pub IsSound : (start n taken : ℕ) → System → Type 0
IsSound start n taken s =
    Balanced start n (weigh fresh n s.processes) (weigh reading n s.processes)
      (weigh written n s.processes) (weigh writes n s.processes) taken s

-- The state of process `p` is a variable, so that the weights compute.
pub record Change (n : ℕ) (g : ℕ → Process) (p : ℕ) (a b : Process) : Type 0 where
  pub f : weigh fresh n (put g p b) + fresh a ≡ weigh fresh n g + fresh b
  pub r : weigh reading n (put g p b) + reading a ≡ weigh reading n g + reading b
  pub w : weigh written n (put g p b) + written a ≡ weigh written n g + written b
  pub k : weigh writes n (put g p b) + writes a ≡ weigh writes n g + writes b

pub change :
    {n : ℕ} {s : System} {p : ℕ} {a : Process} (b : Process)
    → At n s p a
    → Change n s.processes p a b
change {n} {s} {p} b h =
    subst (λ a. Change n s.processes p a b) h.state
      (record {
        f = weigh-put fresh n s.processes p b h.present;
        r = weigh-put reading n s.processes p b h.present;
        w = weigh-put written n s.processes p b h.present;
        k = weigh-put writes n s.processes p b h.present;
      })

pub next-facts :
    (i v : ℕ)
    → i ≤ 20
    → (fresh (next i) ≡ 0)
      × (reading (next i) ≡ 0)
      × (written (next i) ≡ 0)
      × (writes (next i) ≡ i)
      × Current v (next i)
unfolding next
next-facts i v h = elim (Bool-cases (ltb i 20)) [
  | inl more ↦ rw more (refl, refl, refl, refl, ground arith)
  | inr done ↦ rw done (refl, refl, refl, ground arith, tt)
]

-- A number that nobody has read may change.
pub Current-move : (v w : ℕ) (q : Process) → reading q ≡ 0 → Current v q → Current w q
Current-move v w (wants_lock i) z h = h
Current-move v w (has_lock i) z h = h
Current-move v w (has_read i u) z h = absurd (omega arith)
Current-move v w (has_written i) z h = h
Current-move v w finished z h = h

pub Current-rounds : (v : ℕ) (q : Process) → Current v q → writes q ≤ 20
Current-rounds v (wants_lock i) h = omega arith
Current-rounds v (has_lock i) h = omega arith
Current-rounds v (has_read i u) h = omega (arith, h.0)
Current-rounds v (has_written i) h = omega arith
Current-rounds v finished h = omega arith
