-- ===== src/LockSvsem.antt =====
-- svsem/locksvsem.c: a lock between processes from one System V semaphore.
pub mod Safety
use interprocess_comm.Prelude.{
  ℕ, zero, suc, ◌+◌, ◌-◌, Bool, true, false, Option, none, some, if◌then◌else◌, ◌==◌, leb,
}
use interprocess_comm.SemSvsem.{SemSet}

abbrev pub max_tries : ℕ
max_tries = 10

-- The variables of one process. `postop` and `waitop` are all 0 until `initflag` is set, and +1 and -1
-- from then on; `semid` is that of the one set, or -1.
pub record Process : Type 0 where
  pub initflag : Bool

-- Where a process stands, between the system calls of `my_lock`: outside; behind the `semget` that has
-- made the set; in round `i` of the loop over IPC_STAT; in front of `semop`; or with the lock.
pub data Place : Type 0 where
  outside : Process → Place
  creating : Place
  looking : (i : ℕ) → Place
  waiting inside : Place

-- `my_lock` up to its first calls of `semget`. `semget_new` is the error number of the first, if it
-- fails where there is no set; a new set has the identifier `fresh` and a value that is not specified.
-- The second `semget` finds the set, which nobody removes.
unfoldable pub my_lock :
    (semget_new : Option ℕ) (fresh value : ℕ) → Process → Option SemSet → Place × Option SemSet
my_lock semget_new fresh value p set = if p.initflag then (waiting, set) else (elim set [
  | some found ↦ (looking 0, some found)
  | none ↦ elim semget_new [
    | none ↦ (creating, some (record { semid = fresh; semval = value; otime = false }))
    | some e ↦ (outside p, none)
  ]
])

-- semctl(semid, 0, SETVAL, arg), which leaves sem_otime as it is
abbrev pub set_value : SemSet → SemSet
set_value set = record set { semval = 1 }

-- The body of the loop over IPC_STAT in round `i`, with the test of the next one.
unfoldable pub look : (i : ℕ) → SemSet → Place
look i set =
    if set.otime
    then waiting
    else (if leb max_tries (i + 1) then outside (record { initflag = false }) else looking (i + 1))

-- semop(semid, &waitop, 1): it blocks at the value 0.
unfoldable pub take_unit : SemSet → Option SemSet
take_unit set =
    if set.semval == 0 then none else some (record set { semval = set.semval - 1; otime = true })

-- semop(semid, &postop, 1): +1, or, when `postop` is still all 0, a wait until the value is 0.
unfoldable pub my_unlock : Process → SemSet → Option SemSet
my_unlock p set =
    if p.initflag
    then some (record set { semval = set.semval + 1; otime = true })
    else (if set.semval == 0 then some (record set { otime = true }) else none)
