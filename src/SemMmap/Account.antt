-- ===== src/SemMmap/Account.antt =====
-- How the calls on one semaphore account for its value, over every schedule.
use interprocess_comm.Prelude.{
  ℕ, ◌+◌, ◌-◌, ◌≡◌, Bool, true, false, List, [], ◌∷◌, arith, if◌then◌else◌, ◌==◌,
}
use interprocess_comm.Posix.{value, fail, cond_signal, Outcome, returns, waits, out_of_fuel}
use interprocess_comm.Posix.Errno
use interprocess_comm.SemMmap.{
  Sem, sem_magic_open, wait_loop, sem_wait, wait_resume, sem_trywait, sem_post, sem_getvalue,
}

-- One call by some thread, or the end of one `pthread_cond_wait`; `n` is what
-- `pthread_mutex_lock` returns.
pub data Call : Type 0 where
  wait try post get : (n : ℕ) → Call
  wake : Call

unfoldable pub perform : Call → Sem → Outcome Sem ℕ
perform (wait n) s = sem_wait n s
perform (try n) s = sem_trywait n s
perform (post n) s = sem_post n s
perform (get n) s = sem_getvalue n s
perform wake s = wait_resume s

-- The state after a call, wherever it stops.
abbrev pub state_of : Sem → Outcome Sem ℕ → Sem
state_of s (returns r s' fx) = s'
state_of s (waits s') = s'
state_of s out_of_fuel = s

abbrev succeeded : Outcome Sem ℕ → Bool
succeeded (returns (value _) s fx) = true
succeeded _ = false

-- A unit of the semaphore is given out when `sem_wait` or `sem_trywait` returns 0.
abbrev pub grants : Call → Outcome Sem ℕ → ℕ
grants (post n) o = 0
grants (get n) o = 0
grants _ o = if succeeded o then 1 else 0

pub run : List Call → Sem → Sem
run [] s = s
run (c ∷ cs) s = run cs (state_of s (perform c s))

-- How many units the calls of a schedule are given.
pub granted : List Call → Sem → ℕ
granted [] s = 0
granted (c ∷ cs) s = grants c (perform c s) + granted cs (state_of s (perform c s))

perform-count :
    (c : Call) (s : Sem)
    → grants c (perform c s) + (state_of s (perform c s)).sem_count ≡ s.sem_count
unfolding perform sem_wait wait_loop sem_trywait sem_post sem_getvalue wait_resume
perform-count (wait n) s = ground arith
perform-count _ s = ground arith

-- Over every schedule of calls, however often it posts, the units given out and the value that is
-- left make up the value at the start: no `sem_post` adds a unit.
pub granted-add-count :
    (cs : List Call) (s : Sem) → granted cs s + (run cs s).sem_count ≡ s.sem_count
unfolding granted run
granted-add-count [] s = omega arith
granted-add-count (c ∷ cs) s =
    omega (arith, perform-count c s, granted-add-count cs (state_of s (perform c s)))

-- On an open semaphore at 0 with its mutex free, `sem_post` returns 0 and signals, and a `sem_wait`
-- that goes on afterwards still finds 0 and blocks again.
pub post-wait :
    (s : Sem)
    → s.sem_magic ≡ sem_magic_open
    → s.held ≡ false
    → s.sem_count ≡ 0
    → (s' : Sem) × (sem_post 0 s ≡ returns (value 0) s' (cond_signal ∷ []))
      × (wait_resume s' ≡ waits s')
unfolding sem_post wait_resume wait_loop
post-wait s m u e =
    (record s { held = false; sem_cond = s.sem_cond + 1 }, ground arith, ground arith)

-- On an open semaphore with its mutex free, `sem_wait` at a value above 0 takes one and returns 0,
-- at 0 it blocks and changes nothing; `sem_trywait` differs in that it fails with EAGAIN instead;
-- and `sem_getvalue` reports the value.
pub wait-trywait :
    (s : Sem)
    → s.sem_magic ≡ sem_magic_open
    → s.held ≡ false
    → (sem_wait 0 s ≡ (
        if s.sem_count == 0
        then waits s
        else returns (value 0) (record s { sem_count = s.sem_count - 1 }) []))
      × (sem_trywait 0 s ≡ (
          if s.sem_count == 0
          then returns (fail Errno.eagain) s []
          else returns (value 0) (record s { sem_count = s.sem_count - 1 }) []))
      × (sem_getvalue 0 s ≡ returns (value s.sem_count) s [])
unfolding sem_wait wait_loop sem_trywait sem_getvalue
wait-trywait s m u = (ground arith, ground arith, ground arith)
