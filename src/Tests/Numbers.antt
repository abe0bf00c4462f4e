-- ===== src/Tests/Numbers.antt =====
-- lock/lockmain.c: one process counts up from 5 in 20 rounds; and two without a lock lose a number.
use interprocess_comm.Prelude.{
  ℕ, zero, suc, ◌+◌, ◌<◌, ◌≡◌, ◌≢◌, none, some, false, ap, refl, subst, ◌∙◌, ltb, true, pos, arith,
}
use interprocess_comm.Pipe.Requests.{digits, read_digits, read_sign, atol}
use interprocess_comm.SeqFile.{
  wants_lock, finished, System, text, to_long, increment, next, start_system, lock, read, write,
  unlock, Reach, start, later,
}
use interprocess_comm.SeqFile.Locks.{
  Lock, lockfcntl, locknone, f_wrlck, Kernel, perform, my_lock, my_unlock,
}
use interprocess_comm.SeqFile.Balance.{downfrom}
use interprocess_comm.SeqFile.Totals.{counts_every_round}

abbrev unlocked : Kernel
unlocked = record { held = none; lock_file = false }

abbrev locked : Kernel
locked = record {
  held = some (0, record { l_type = f_wrlck; l_start = 0; l_len = 0 });
  lock_file = false;
}

-- The process is in front of round `i`.
abbrev Reached : ℕ → Type 0
Reached i =
    (s : System) × Reach lockfcntl 1 (start_system 5) s
    × (s.processes 0 ≡ next i)
    × (s.kernel ≡ unlocked)

next-wants_lock : (i : ℕ) → i < 20 → next i ≡ wants_lock i
unfolding next
next-wants_lock i h = let more : ltb i 20 ≡ true = ground arith in rw more refl

one_round : (i : ℕ) → i < 20 → Reached i → Reached (i + 1)
unfolding perform my_lock my_unlock
one_round i h (s, r, e, free) = (
  _,
  later
      (later
        (later
          (later r (
            lock 0 i locked (record { present = omega arith; state = e ∙ next-wants_lock i h })
              (ap (perform 0 (my_lock lockfcntl)) free)))
          (read 0 i (record { present = omega arith; state = refl })))
        (write 0 i _ (record { present = omega arith; state = refl })))
      (unlock 0 i unlocked (record { present = omega arith; state = refl }) refl),
  refl,
  refl,
)

all_rounds : (k i : ℕ) → k + i ≡ 20 → Reached i → Reached 20
all_rounds zero i h r = subst Reached (omega arith) r
all_rounds (suc k) i h r = all_rounds k (i + 1) (omega arith) (one_round i (omega arith) r)

run : Reached 20
run = all_rounds 20 0 (omega arith) (start_system 5, start, refl, refl)

run-finished : (p : ℕ) → p < 1 → run.0.processes p ≡ finished
unfolding next
run-finished zero h = run.2
run-finished (suc p) h = absurd (omega arith)

abbrev IsFcntl : Lock → Type 0
IsFcntl lockfcntl = Unit
IsFcntl _ = ⊥

differs : lockfcntl ≢ locknone
differs e = subst IsFcntl e tt

counts_every_round_example : (run.0.contents ≡ text (pos 25)) × (run.0.printed ≡ downfrom 5 20)
counts_every_round_example =
    counts_every_round lockfcntl 5 1 differs (omega arith) (run.1) run-finished

-- Both processes read 5, and both write 6.
abbrev raced : (s : System) × Reach locknone 2 (start_system 5) s
unfolding next perform my_lock
raced = (
  _,
  later
      (later
        (later
          (later
            (later
              (later start
                (lock 0 0 unlocked (record { present = omega arith; state = refl }) refl))
              (lock 1 0 unlocked (record { present = omega arith; state = refl }) refl))
            (read 0 0 (record { present = omega arith; state = refl })))
          (read 1 0 (record { present = omega arith; state = refl })))
        (write 0 0 _ (record { present = omega arith; state = refl })))
      (write 1 0 _ (record { present = omega arith; state = refl })),
)

lost_number : raced.0.contents ≡ text (pos 6)
unfolding text to_long increment digits atol read_sign read_digits next raced
lost_number = refl
