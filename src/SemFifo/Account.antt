-- ===== src/SemFifo/Account.antt =====
-- How the calls on one FIFO semaphore account for its value, over every schedule.
use interprocess_comm.Prelude.{ℕ, ◌+◌, ◌≤◌, ◌≡◌, refl, Option, none, some, List, [], ◌∷◌, arith}
use interprocess_comm.Posix.{value, minus_one, Outcome, returns, waits, out_of_fuel}
use interprocess_comm.SemFifo.{Sem, sem_magic_open, sem_wait, sem_post}

pub data Call : Type 0 where
  wait : (interrupted : Option ℕ) → Call
  post : Call

unfoldable pub perform : Call → Sem → Outcome Sem ℕ
perform (wait interrupted) s = sem_wait interrupted s
perform post s = sem_post s

abbrev pub state_of : Sem → Outcome Sem ℕ → Sem
state_of s (returns r s' fx) = s'
state_of s (waits s') = s'
state_of s out_of_fuel = s

-- 1 if the call returns -1 without having set `errno` to EINVAL itself.
abbrev pub returns_minus_one : Outcome Sem ℕ → ℕ
returns_minus_one (returns minus_one s fx) = 1
returns_minus_one _ = 0

pub run : List Call → Sem → Sem
run [] s = s
run (c ∷ cs) s = run cs (state_of s (perform c s))

-- The calls of `sem_wait`, and those of `sem_post`, that return -1 on an open semaphore.
pub taken : List Call → Sem → ℕ
taken [] s = 0
taken (wait i ∷ cs) s =
    returns_minus_one (perform (wait i) s) + taken cs (state_of s (perform (wait i) s))
taken (post ∷ cs) s = taken cs (state_of s (perform post s))

pub given : List Call → Sem → ℕ
given [] s = 0
given (wait i ∷ cs) s = given cs (state_of s (perform (wait i) s))
given (post ∷ cs) s = returns_minus_one (perform post s) + given cs (state_of s (perform post s))

wait-bytes :
    (i : Option ℕ) (s : Sem)
    → let o = perform (wait i) s in
      ((state_of s o).bytes + returns_minus_one o ≡ s.bytes)
      × ((state_of s o).capacity ≡ s.capacity)
unfolding perform sem_wait
wait-bytes i s = (ground arith, ground arith)

post-bytes :
    (s : Sem)
    → s.bytes ≤ s.capacity
    → let o = perform post s in
      ((state_of s o).bytes ≡ s.bytes + returns_minus_one o)
      × ((state_of s o).bytes ≤ (state_of s o).capacity)
unfolding perform sem_post
post-bytes s h = (ground arith, ground arith)

-- Over every schedule of calls on a FIFO that holds no more than its capacity, the value at the end
-- and the calls of `sem_wait` that return -1 for a success make up the value at the start and the
-- calls of `sem_post` that do so, and the FIFO still holds no more than its capacity.
pub taken-add-bytes :
    (cs : List Call) (s : Sem)
    → s.bytes ≤ s.capacity
    → ((run cs s).bytes + taken cs s ≡ s.bytes + given cs s)
      × ((run cs s).bytes ≤ (run cs s).capacity)
unfolding run taken given
taken-add-bytes [] s h = (omega arith, h)
taken-add-bytes (wait i ∷ cs) s h =
    let one = wait-bytes i s in
    let rest = taken-add-bytes cs (state_of s (perform (wait i) s)) (omega (arith, one.0, one.1)) in
    (omega (arith, one.0, rest.0), rest.1)
taken-add-bytes (post ∷ cs) s h =
    let one = post-bytes s h in
    let rest = taken-add-bytes cs (state_of s (perform post s)) one.1 in
    (omega (arith, one.0, rest.0), rest.1)

-- On an open semaphore the results say the opposite of what happened: `sem_post` returns 0 only
-- when the FIFO is full, and nothing is written; `sem_wait` returns 0 only when `read` fails, and
-- nothing is taken.
pub returns_zero-changes_nothing :
    (i : Option ℕ) (s : Sem)
    → s.sem_magic ≡ sem_magic_open
    → ((s' : Sem) → sem_post s ≡ returns (value 0) s' [] → (s' ≡ s) × (s.capacity ≤ s.bytes))
      × ((s' : Sem) → sem_wait i s ≡ returns (value 0) s' [] → (s' ≡ s) × ((e : ℕ) × (i ≡ some e)))
unfolding sem_post sem_wait
returns_zero-changes_nothing none s m =
    (λ s' q. (ground arith, ground arith), λ s' q. absurd (ground arith))
returns_zero-changes_nothing (some e) s m =
    (λ s' q. (ground arith, ground arith), λ s' q. (ground arith, (e, refl)))
