-- ===== src/SemFifo/Open/Cleanup.antt =====
-- What sem_open.c of the FIFO semaphore keeps when it succeeds, and gives back when it fails.
use interprocess_comm.Prelude.{
  ℕ, zero, suc, ◌+◌, ◌≤◌, ◌≡◌, true, false, none, some, ◌∷◌, arith, if◌then◌else◌, ltb,
}
use interprocess_comm.Posix.{create_file}
use interprocess_comm.Posix.Errno
use interprocess_comm.Posix.Tally.{Tally, tally, Undone}
use interprocess_comm.SemFifo.Open.{
  Oflag, Calls, Ending, opened, failed, error, initialize, initialize_new, open_both, sem_open,
}

-- The loop writes the whole value if there is room, and fails with EAGAIN if there is not.
initialize_lem :
    (value capacity bytes : ℕ)
    → bytes ≤ capacity
    → (initialize value capacity bytes).0
      ≡ (if ltb capacity (bytes + value) then some Errno.eagain else none)
unfolding initialize
initialize_lem zero capacity bytes h = ground arith
initialize_lem (suc value) capacity bytes h =
    ground (arith, initialize_lem value capacity (bytes + 1))

initialize-bytes :
    (value capacity bytes : ℕ)
    → (initialize value capacity bytes).0 ≡ none
    → (initialize value capacity bytes).1 ≡ bytes + value
unfolding initialize
initialize-bytes zero capacity bytes q = omega arith
initialize-bytes (suc value) capacity bytes q =
    ground (arith, initialize-bytes value capacity (bytes + 1))

-- A success keeps the handle, two descriptors and the file; a failure gives everything back.
abbrev pub Tidy : Ending → Tally → Type 0
Tidy (opened bytes) t = (t.unlinked ≡ 0) × (t.fds ≡ t.closed + 2) × (t.allocated ≡ t.released + 1)
Tidy (failed e stray) t = Undone t × (t.fds ≡ t.closed)

module _ (value : ℕ) (oflag : Oflag) (c : Calls) where
  open_both-old : c.malloc ≡ none → let r = open_both value false c in Tidy r.0 (tally r.1)
  unfolding open_both initialize_new error
  open_both-old m = ground arith

  open_both-new :
      c.malloc ≡ none → let r = open_both value true c in Tidy r.0 (tally (create_file ∷ r.1))
  unfolding open_both initialize_new error
  open_both-new m = ground arith

  -- When `malloc` succeeds, a failure of `sem_open` unlinks the FIFO if and only if it made it, closes
  -- each descriptor that it opened once and frees the handle; a success keeps the handle and both
  -- descriptors and unlinks nothing.
  pub sem_open-Tidy : c.malloc ≡ none → let r = sem_open value oflag c in Tidy r.0 (tally r.1)
  unfolding sem_open
  sem_open-Tidy m = ground (arith, open_both-old m, open_both-new m)

  -- When every other call succeeds, with O_CREAT and without O_EXCL, a FIFO made by `sem_open` holds
  -- the initial value more than before if it has room for it, and otherwise `sem_open` fails with
  -- EAGAIN; a FIFO that exists already keeps what it holds.
  pub sem_open-bytes :
      c.malloc ≡ none
      → c.open_read ≡ none
      → c.open_write ≡ none
      → c.getfl ≡ none
      → c.setfl ≡ none
      → c.bytes ≤ c.capacity
      → oflag ≡ record { creat = true; excl = false }
      → (c.mkfifo ≡ none
          → (sem_open value oflag c).0 ≡ (
              if ltb c.capacity (c.bytes + value)
              then failed Errno.eagain false
              else opened (c.bytes + value)))
        × (c.mkfifo ≡ some Errno.eexist → (sem_open value oflag c).0 ≡ opened c.bytes)
  unfolding sem_open open_both initialize_new error
  sem_open-bytes m r w g s h q = (
    λ f. ground (
      arith,
      initialize_lem value c.capacity c.bytes h,
      initialize-bytes value c.capacity c.bytes,
    ),
    λ f. ground arith,
  )
