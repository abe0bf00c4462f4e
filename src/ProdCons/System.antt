-- ===== src/ProdCons/System.antt =====
-- The threads of prodcons4.c. Each operation on a semaphore is a step; what a thread does between two
-- operations with the mutex in its hands goes with the second.
pub mod Balance
pub mod Moves
pub mod Safety
pub mod Progress
use interprocess_comm.Prelude.{ℕ, suc, ltb, if◌then◌else◌, ◌+◌, ◌<◌, ◌≡◌, put}
use interprocess_comm.ProdCons.{
  Shared, initial, Thread, wants_empty, has_empty, producing, stored_one, leaving_empty,
  leaving_mutex, produced, wants_stored, has_stored, consuming, freed_one, stopping, consumed,
  produce_locked, consume_locked,
}

pub record System : Type 0 where
  pub shared : Shared
  pub threads : ℕ → Thread

-- The threads that `main` creates: the producers, and behind them the consumers.
abbrev pub main_threads : (nproducers : ℕ) → ℕ → Thread
main_threads nproducers i = if ltb i nproducers then wants_empty else wants_stored

abbrev pub main : (nproducers nconsumers : ℕ) → System
main nproducers nconsumers = record { shared = initial; threads = main_threads nproducers }

pub record At (n : ℕ) (s : System) (i : ℕ) (t : Thread) : Type 0 where
  pub present : i < n
  pub state : s.threads i ≡ t

abbrev pub moves : System → ℕ → Thread × Shared → System
moves s i (t, sh) = record { shared = sh; threads = put s.threads i t }

-- `sem_wait` can be passed at a value above 0, which it takes down by one; `sem_post` adds one.
pub data Step (nitems n : ℕ) (s : System) : System → Type 0 where
  wait_empty :
      (i k : ℕ)
      → At n s i wants_empty
      → s.shared.nempty ≡ suc k
      → Step nitems n s (moves s i (has_empty, record (s.shared) { nempty = k }))
  lock_producer :
      (i k : ℕ)
      → At n s i has_empty
      → s.shared.mutex ≡ suc k
      → Step nitems n s (moves s i (producing, record (s.shared) { mutex = k }))
  produce :
      (i : ℕ) → At n s i producing → Step nitems n s (moves s i (produce_locked nitems s.shared))
  post_stored :
      (i : ℕ)
      → At n s i stored_one
      → Step nitems n s
          (moves s i (wants_empty, record (s.shared) { nstored = s.shared.nstored + 1 }))
  leave_empty :
      (i : ℕ)
      → At n s i leaving_empty
      → Step nitems n s
          (moves s i (leaving_mutex, record (s.shared) { nempty = s.shared.nempty + 1 }))
  leave_mutex :
      (i : ℕ)
      → At n s i leaving_mutex
      → Step nitems n s (moves s i (produced, record (s.shared) { mutex = s.shared.mutex + 1 }))
  wait_stored :
      (i k : ℕ)
      → At n s i wants_stored
      → s.shared.nstored ≡ suc k
      → Step nitems n s (moves s i (has_stored, record (s.shared) { nstored = k }))
  lock_consumer :
      (i k : ℕ)
      → At n s i has_stored
      → s.shared.mutex ≡ suc k
      → Step nitems n s (moves s i (consuming, record (s.shared) { mutex = k }))
  consume :
      (i : ℕ) → At n s i consuming → Step nitems n s (moves s i (consume_locked nitems s.shared))
  post_empty :
      (i : ℕ)
      → At n s i freed_one
      → Step nitems n s
          (moves s i (wants_stored, record (s.shared) { nempty = s.shared.nempty + 1 }))
  stop :
      (i : ℕ)
      → At n s i stopping
      → Step nitems n s (moves s i (consumed, record (s.shared) { mutex = s.shared.mutex + 1 }))

pub data Reach (nitems n : ℕ) (s : System) : System → Type 0 where
  start : Reach nitems n s s
  later : {t u : System} → Reach nitems n s t → Step nitems n t u → Reach nitems n s u
