-- ===== src/Posix.antt =====
-- What the functions of the library share with the C library and the kernel: error numbers, the
-- results of a call, and the calls to other threads and processes that it makes.
pub mod Errno
pub mod Tally
use interprocess_comm.Prelude.{ℕ, List, Option, none, some}

-- The value returned, or -1 with `errno` set, or -1 with `errno` left as it was.
pub data Ret (A : Type 0) : Type 0 where
  value : A → Ret A
  fail : (errno : ℕ) → Ret A
  minus_one : Ret A

-- A call that another thread or process may notice.
pub data Effect : Type 0 where
  sigqueue : (pid signo sigvalue : ℕ) → Effect
  cond_signal : Effect
  munmap : (size : ℕ) → Effect
  free_handle : Effect

-- A call under a mutex returns, or stops in `pthread_cond_wait` with the mutex released.
-- `out_of_fuel` stands for a loop that a list in disorder keeps from ending.
pub data Outcome (S A : Type 0) : Type 0 where
  returns : Ret A → S → List Effect → Outcome S A
  waits : S → Outcome S A
  out_of_fuel : Outcome S A

-- A call that acquires a resource, if it succeeds, or that gives one up.
pub data Action : Type 0 where
  create_file unlink_file open_fd close_fd : Action
  map_file unmap_file : (size : ℕ) → Action
  allocate release : Action

-- A call that gives an error number when it fails.
abbrev pub attempt {ℓ} : {A : Type ℓ} → Option ℕ → (ℕ → A) → A → A
attempt none failed next = next
attempt (some e) failed next = failed e
