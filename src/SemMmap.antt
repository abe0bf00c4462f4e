-- ===== src/SemMmap.antt =====
-- pxsem/my_pxsem_mmap: a semaphore in a memory-mapped file (semaphore.h, and sem_wait.c,
-- sem_trywait.c, sem_post.c, sem_getvalue.c, sem_close.c, sem_unlink.c).
pub mod Open
pub mod Account
use interprocess_comm.Prelude.{
  ℕ, ◌+◌, ◌-◌, Bool, true, false, not, Option, none, some, [], ◌∷◌, if◌then◌else◌, ◌==◌, ltb,
}
use interprocess_comm.Posix.{Ret, value, fail, cond_signal, munmap, Outcome, returns, waits}
use interprocess_comm.Posix.Errno

-- `held` says whether `sem_mutex` is held. `sem_cond` is opaque; it is here because `sem_post`
-- applies `++` to it.
pub record Sem : Type 0 where
  pub held : Bool
  pub sem_cond : ℕ
  pub sem_count : ℕ
  pub sem_magic : ℕ

abbrev pub sem_magic_open : ℕ
sem_magic_open = 0x67458923

abbrev pub lock : Sem → Sem
lock s = record s { held = true }

abbrev pub unlock : Sem → Sem
unlock s = record s { held = false }

-- The test of the magic number and the call of `pthread_mutex_lock`, which returns `n`.
abbrev pub begin : (n : ℕ) → Sem → (Sem → Outcome Sem ℕ) → Outcome Sem ℕ
begin n s body =
    if not (s.sem_magic == sem_magic_open)
    then returns (fail Errno.einval) s []
    else if not (n == 0)
    then returns (fail n) s []
    else body (lock s)

abbrev pub spend : Sem → Outcome Sem ℕ
spend s = returns (value 0) (unlock (record s { sem_count = s.sem_count - 1 })) []

-- while (sem->sem_count == 0) pthread_cond_wait(...)
unfoldable pub wait_loop : Sem → Outcome Sem ℕ
wait_loop s = if s.sem_count == 0 then waits (unlock s) else spend s

unfoldable pub sem_wait : (n : ℕ) → Sem → Outcome Sem ℕ
sem_wait n s = begin n s wait_loop

-- `pthread_cond_wait` returns with the mutex held again.
unfoldable pub wait_resume : Sem → Outcome Sem ℕ
wait_resume s = wait_loop (lock s)

unfoldable pub sem_trywait : (n : ℕ) → Sem → Outcome Sem ℕ
sem_trywait n s =
    begin n s λ l. if ltb 0 l.sem_count then spend l else returns (fail Errno.eagain) (unlock l) []

-- `sem->sem_cond ++`, as the source has it.
unfoldable pub sem_post : (n : ℕ) → Sem → Outcome Sem ℕ
sem_post n s = begin n s λ l.
    returns (value 0) (unlock (record l { sem_cond = l.sem_cond + 1 }))
      (if l.sem_count == 0 then cond_signal ∷ [] else [])

-- The value returned is what is stored through `pvalue`.
unfoldable pub sem_getvalue : (n : ℕ) → Sem → Outcome Sem ℕ
sem_getvalue n s = begin n s λ l. returns (value l.sem_count) (unlock l) []

-- `unmap_result` is the error number of `munmap`, if it fails; `size` is `sizeof(sem_t)`.
unfoldable pub sem_close : (size : ℕ) (unmap_result : Option ℕ) → Sem → Outcome Sem ℕ
sem_close size unmap_result s =
    if not (s.sem_magic == sem_magic_open)
    then returns (fail Errno.einval) s []
    else (elim unmap_result [
      | some e ↦ returns (fail e) s []
      | none ↦ returns (value 0) s (munmap size ∷ [])
    ])

unfoldable pub sem_unlink : (unlink_result : Option ℕ) → Ret ℕ
sem_unlink none = value 0
sem_unlink (some e) = fail e
