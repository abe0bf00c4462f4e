-- ===== src/SemFifo.antt =====
-- pxsem/my_pxsem_fifo: a semaphore in a FIFO, one byte for each unit of its value (semaphore.h,
-- and sem_wait.c, sem_post.c, sem_close.c, sem_unlink.c).
pub mod Open
pub mod Account
use interprocess_comm.Prelude.{
  ℕ, ◌+◌, ◌-◌, Bool, true, false, not, Option, none, some, [], if◌then◌else◌, ◌==◌, ltb,
}
use interprocess_comm.Posix.{Ret, value, fail, minus_one, Outcome, returns, waits, attempt}
use interprocess_comm.Posix.Errno

-- `sem_magic` with the FIFO that `sem_fd` stands for: the bytes in it, and how many it can take.
pub record Sem : Type 0 where
  pub sem_magic : ℕ
  pub bytes : ℕ
  pub capacity : ℕ

abbrev pub sem_magic_open : ℕ
sem_magic_open = 0x89674523

-- `sem_wait` reads one byte and compares with -1: it returns 0 when `read` fails, and -1 when it
-- succeeds. `interrupted` is the error number of a `read` that fails. An empty FIFO blocks, since
-- the caller has it open for writing.
unfoldable pub sem_wait : (interrupted : Option ℕ) → Sem → Outcome Sem ℕ
sem_wait interrupted s =
    if not (s.sem_magic == sem_magic_open)
    then returns (fail Errno.einval) s []
    else attempt interrupted (λ e. returns (value 0) s [])
        (if s.bytes == 0 then waits s else returns minus_one (record s { bytes = s.bytes - 1 }) [])

-- `sem_post` writes one byte, with `sem_fd[1]` non-blocking, and compares with -1 in the same way.
unfoldable pub sem_post : Sem → Outcome Sem ℕ
sem_post s =
    if not (s.sem_magic == sem_magic_open)
    then returns (fail Errno.einval) s []
    else if ltb s.bytes s.capacity
    then returns minus_one (record s { bytes = s.bytes + 1 }) []
    else returns (value 0) s []

-- The two calls of `close` give an error number or none; the second is not made when the first
-- fails. The handle is freed on every path but the first.
unfoldable pub sem_close : (close_read close_write : Option ℕ) → Sem → Ret ℕ × Sem
sem_close close_read close_write s =
    if not (s.sem_magic == sem_magic_open)
    then (fail Errno.einval, s)
    else attempt close_read (λ e. (fail e, record s { sem_magic = 0 }))
        (attempt close_write (λ e. (fail e, record s { sem_magic = 0 }))
          (value 0, record s { sem_magic = 0 }))

unfoldable pub sem_unlink : (unlink_result : Option ℕ) → Ret ℕ
sem_unlink none = value 0
sem_unlink (some e) = fail e
