-- ===== src/SemSvsem.antt =====
-- pxsem/my_pxsem_svsem: a semaphore in a System V semaphore set of one member (semaphore.h, and
-- sem_wait.c, sem_trywait.c, sem_post.c, sem_getvalue.c, sem_close.c).
pub mod Open
pub mod Account
use interprocess_comm.Prelude.{
  ℕ, ◌+◌, ◌-◌, Bool, true, false, not, Option, none, some, [], if◌then◌else◌, ◌==◌, ltb,
}
use interprocess_comm.Posix.{Ret, value, fail, Outcome, returns, waits}
use interprocess_comm.Posix.Errno

abbrev pub sem_magic_open : ℕ
sem_magic_open = 0x45678923

abbrev pub semvmx : ℕ
semvmx = 32767

-- What the kernel keeps of a set: its identifier, the value of its member, and whether `sem_otime`
-- is above 0, as it is from the first `semop` on.
pub record SemSet : Type 0 where
  pub semid : ℕ
  pub semval : ℕ
  pub otime : Bool

-- `sem_t` with the set that `sem_semid` names: none when that has been removed.
pub record Sem : Type 0 where
  pub sem_magic : ℕ
  pub set : Option SemSet

-- The test of the magic number, and a system call on the set: EINVAL when there is none.
abbrev pub begin : Sem → (SemSet → Outcome Sem ℕ) → Outcome Sem ℕ
begin s body =
    if not (s.sem_magic == sem_magic_open)
    then returns (fail Errno.einval) s []
    else (elim s.set [ none ↦ returns (fail Errno.einval) s [] | some set ↦ body set ])

-- The member's value after a `semop`.
abbrev pub stored : Sem → SemSet → ℕ → Sem
stored s set n = record s { set = some (record set { semval = n; otime = true }) }

unfoldable pub sem_wait : Sem → Outcome Sem ℕ
sem_wait s =
    begin s λ set.
      if set.semval == 0 then waits s else returns (value 0) (stored s set (set.semval - 1)) []

unfoldable pub sem_trywait : Sem → Outcome Sem ℕ
sem_trywait s = begin s λ set.
    if set.semval == 0
    then returns (fail Errno.eagain) s []
    else returns (value 0) (stored s set (set.semval - 1)) []

unfoldable pub sem_post : Sem → Outcome Sem ℕ
sem_post s = begin s λ set.
    if ltb set.semval semvmx
    then returns (value 0) (stored s set (set.semval + 1)) []
    else returns (fail Errno.erange) s []

-- The value returned is what is stored through `pvalue`.
unfoldable pub sem_getvalue : Sem → Outcome Sem ℕ
sem_getvalue s = begin s λ set. returns (value set.semval) s []

unfoldable pub sem_close : Sem → Ret ℕ × Sem
sem_close s =
    if not (s.sem_magic == sem_magic_open)
    then (fail Errno.einval, s)
    else (value 0, record s { sem_magic = 0 })
