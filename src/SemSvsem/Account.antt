-- ===== src/SemSvsem/Account.antt =====
-- How the calls on one System V semaphore account for its value, over every schedule.
use interprocess_comm.Prelude.{ℕ, ◌+◌, ◌≤◌, ◌≡◌, none, some, List, [], ◌∷◌, arith}
use interprocess_comm.Posix.{value, Outcome, returns, waits, out_of_fuel}
use interprocess_comm.SemSvsem.{
  SemSet, Sem, sem_magic_open, semvmx, stored, sem_wait, sem_trywait, sem_post, sem_getvalue,
}

pub data Call : Type 0 where
  wait try post get : Call

unfoldable pub perform : Call → Sem → Outcome Sem ℕ
perform wait s = sem_wait s
perform try s = sem_trywait s
perform post s = sem_post s
perform get s = sem_getvalue s

abbrev pub state_of : Sem → Outcome Sem ℕ → Sem
state_of s (returns r s' fx) = s'
state_of s (waits s') = s'
state_of s out_of_fuel = s

abbrev succeeded : Outcome Sem ℕ → ℕ
succeeded (returns (value _) s fx) = 1
succeeded _ = 0

abbrev pub takes : Call → Outcome Sem ℕ → ℕ
takes wait o = succeeded o
takes try o = succeeded o
takes _ o = 0

abbrev pub gives : Call → Outcome Sem ℕ → ℕ
gives post o = succeeded o
gives _ o = 0

pub run : List Call → Sem → Sem
run [] s = s
run (c ∷ cs) s = run cs (state_of s (perform c s))

-- How many calls of a schedule take a unit, and how many give one, with result 0.
pub taken : List Call → Sem → ℕ
taken [] s = 0
taken (c ∷ cs) s = takes c (perform c s) + taken cs (state_of s (perform c s))

pub given : List Call → Sem → ℕ
given [] s = 0
given (c ∷ cs) s = gives c (perform c s) + given cs (state_of s (perform c s))

-- The value of the set, 0 when there is none.
abbrev pub semval : Sem → ℕ
semval s = elim s.set [ none ↦ 0 | some set ↦ set.semval ]

perform-semval :
    (c : Call) (s : Sem)
    → semval s ≤ semvmx
    → let o = perform c s in
      (semval (state_of s o) + takes c o ≡ semval s + gives c o) × (semval (state_of s o) ≤ semvmx)
unfolding perform sem_wait sem_trywait sem_post sem_getvalue
perform-semval wait s h = (ground arith, ground arith)
perform-semval try s h = (ground arith, ground arith)
perform-semval post s h = (ground arith, ground arith)
perform-semval get s h = (ground arith, ground arith)

-- Over every schedule of calls on a set whose value is within SEMVMX, the value at the end and the
-- units taken make up the value at the start and the units given, and the value stays within
-- SEMVMX.
pub taken-add-semval :
    (cs : List Call) (s : Sem)
    → semval s ≤ semvmx
    → (semval (run cs s) + taken cs s ≡ semval s + given cs s) × (semval (run cs s) ≤ semvmx)
unfolding run taken given
taken-add-semval [] s h = (omega arith, h)
taken-add-semval (c ∷ cs) s h =
    let one = perform-semval c s h in
    let rest = taken-add-semval cs (state_of s (perform c s)) one.1 in
    (omega (arith, one.0, rest.0), rest.1)

-- On an open semaphore whose set exists, below SEMVMX, a `sem_post` and then a `sem_wait` or a
-- `sem_trywait` return 0 and leave the value as it was; `sem_getvalue` between them reports one more.
pub post-get-wait :
    (s : Sem) (set : SemSet)
    → s.sem_magic ≡ sem_magic_open
    → s.set ≡ some set
    → set.semval + 1 ≤ semvmx
    → let s' = state_of s (sem_post s) in
      let s'' = stored s set set.semval in
      (sem_post s ≡ returns (value 0) s' [])
      × (sem_getvalue s' ≡ returns (value (set.semval + 1)) s' [])
      × (sem_wait s' ≡ returns (value 0) s'' [])
      × (sem_trywait s' ≡ returns (value 0) s'' [])
unfolding sem_post sem_wait sem_trywait sem_getvalue
post-get-wait s set m q h = (ground arith, ground arith, ground arith, ground arith)
