-- ===== src/SemFifo/Open.antt =====
-- pxsem/my_pxsem_fifo/sem_open.c.
pub mod Cleanup
use interprocess_comm.Prelude.{
  ℕ, zero, suc, ◌+◌, Bool, true, false, not, ◌&&◌, Option, none, some, List, [], ◌∷◌, ◌++◌,
  if◌then◌else◌, ◌==◌, ltb,
}
use interprocess_comm.Posix.{
  Action, create_file, unlink_file, open_fd, close_fd, allocate, release, attempt,
}
use interprocess_comm.Posix.Errno

pub record Oflag : Type 0 where
  pub creat : Bool
  pub excl : Bool

-- What the calls return: an error number, or none. `bytes` is what the FIFO holds when it is
-- opened, and `capacity` what it can take.
pub record Calls : Type 0 where
  pub mkfifo : Option ℕ
  pub malloc : Option ℕ
  pub open_read : Option ℕ
  pub open_write : Option ℕ
  pub getfl : Option ℕ
  pub setfl : Option ℕ
  pub bytes : ℕ
  pub capacity : ℕ

-- The semaphore with the bytes in its FIFO, or SEM_FAILED. `stray` says that `sem_fd[1]` went to
-- `close` without having been set.
pub data Ending : Type 0 where
  opened : (bytes : ℕ) → Ending
  failed : (errno : ℕ) (stray : Bool) → Ending

abbrev pub Run : Type 0
Run = Ending × List Action

abbrev pub after : List Action → Run → Run
after done (e, more) = (e, done ++ more)

-- `error:`. `fds` are the descriptors that have been opened.
unfoldable pub error : (creat : Bool) (fds : List Action) (errno : ℕ) (stray : Bool) → Run
error creat fds e stray =
    (failed e stray, (if creat then unlink_file ∷ [] else []) ++ fds ++ release ∷ [])

-- The loop that writes `value` bytes: an error number, or the bytes in the FIFO at its end.
unfoldable pub initialize : (value capacity bytes : ℕ) → Option ℕ × ℕ
initialize zero capacity bytes = (none, bytes)
initialize (suc value) capacity bytes =
    let rest = initialize value capacity (bytes + 1) in
    if ltb bytes capacity then rest else (some Errno.eagain, bytes)

unfoldable pub initialize_new : (value : ℕ) (creat : Bool) → Calls → Run
initialize_new value false c = (opened c.bytes, [])
initialize_new value true c =
    let (written, bytes) = initialize value c.capacity c.bytes in
    attempt written (λ e. error true (close_fd ∷ close_fd ∷ []) e false) (opened bytes, [])

-- From `malloc` on. `creat` is O_CREAT in `oflag`, which is cleared when the FIFO already exists.
unfoldable pub open_both : (value : ℕ) (creat : Bool) → Calls → Run
open_both value creat c =
    attempt c.malloc (λ e. (failed e false, []))
      (after (allocate ∷ []) (
        attempt c.open_read (λ e. error creat [] e true)
          (after (open_fd ∷ []) (
            attempt c.open_write (λ e. error creat (close_fd ∷ []) e false)
              (after (open_fd ∷ []) (
                attempt c.getfl (λ e. error creat (close_fd ∷ close_fd ∷ []) e false)
                  (attempt c.setfl (λ e. error creat (close_fd ∷ close_fd ∷ []) e false)
                    (initialize_new value creat c))))))))

unfoldable pub sem_open : (value : ℕ) → Oflag → Calls → Run
sem_open value oflag c =
    if oflag.creat
    then attempt c.mkfifo
        (λ e.
          if e == Errno.eexist && not oflag.excl
          then open_both value false c
          else (failed e false, []))
        (after (create_file ∷ []) (open_both value true c))
    else open_both value false c
