-- ===== src/Mycat.antt =====
-- pxsem/mycat2.c: one thread reads a file into a ring of buffers, and another writes them out.
pub mod Balance
pub mod Moves
pub mod Progress
use interprocess_comm.Prelude.{
  ℕ, zero, suc, ◌+◌, ◌%◌, ◌≡◌, Bool, true, false, leb, ◌==◌, if◌then◌else◌, List, [], ◌∷◌, ◌++◌,
}

-- #define NBUFF 8
abbrev pub nbuff : ℕ
nbuff = 8

-- What a call of `read` leaves in a buffer: `n` bytes, or an `n` of -1.
pub data Piece : Type 0 where
  bytes : List ℕ → Piece
  error : Piece

-- n == 0
abbrev pub ends : Piece → Bool
ends (bytes []) = true
ends _ = false

-- if(++i >= NBUFF) i=0
unfoldable pub advance : ℕ → ℕ
advance i = if leb nbuff (i + 1) then 0 else i + 1

-- Where the producer stands with the buffer `i`: it waits for `nempty` and for `mutex`, has the mutex,
-- reads, and posts `nstored`; with `posts_last` it then returns.
pub data Producer : Type 0 where
  wants_empty has_empty in_mutex reads posts : (i : ℕ) → Producer
  posts_last returned : Producer

-- Where the consumer stands with the buffer `i`.
pub data Consumer : Type 0 where
  wants_stored has_stored locked writes frees : (i : ℕ) → Consumer
  finished : Consumer

-- `shared`, the two threads, the number of calls of `read`, and the buffers written, in order.
pub record System : Type 0 where
  pub buff : ℕ → Piece
  pub mutex : ℕ
  pub nempty : ℕ
  pub nstored : ℕ
  pub producer : Producer
  pub consumer : Consumer
  pub calls : ℕ
  pub written : List Piece

-- The threads that `main` starts.
abbrev pub main : System
main = record {
  buff = λ i. error;
  mutex = 1;
  nempty = nbuff;
  nstored = 0;
  producer = wants_empty 0;
  consumer = wants_stored 0;
  calls = 0;
  written = [];
}

-- shared.buff[i].n = read(fd,shared.buff[i].data,BUFFSIZE), and the test for the end of the file.
unfoldable pub read_into : (i : ℕ) → Piece → System → System
read_into i piece s = record s {
  buff = λ j. if j == i then piece else s.buff j;
  producer = if ends piece then posts_last else posts (advance i);
  calls = s.calls + 1;
}

-- The consumer finds the end of the file, or writes the buffer out.
unfoldable pub write_from : (i : ℕ) → System → System
write_from i s =
    if ends (s.buff i)
    then record s { consumer = finished }
    else record s { consumer = frees (advance i); written = s.written ++ (s.buff i ∷ []) }

-- The steps of the threads; `file` gives the results of the calls of `read`. `sem_wait` can be passed
-- at a value above 0, which it takes down by one; `sem_post` adds one.
pub data Step (file : ℕ → Piece) (s : System) : System → Type 0 where
  wait_empty :
      (i k : ℕ)
      → s.producer ≡ wants_empty i
      → s.nempty ≡ suc k
      → Step file s (record s { producer = has_empty i; nempty = k })
  lock_producer :
      (i k : ℕ)
      → s.producer ≡ has_empty i
      → s.mutex ≡ suc k
      → Step file s (record s { producer = in_mutex i; mutex = k })
  unlock_producer :
      (i : ℕ)
      → s.producer ≡ in_mutex i
      → Step file s (record s { producer = reads i; mutex = s.mutex + 1 })
  read : (i : ℕ) → s.producer ≡ reads i → Step file s (read_into i (file s.calls) s)
  post_stored :
      (i : ℕ)
      → s.producer ≡ posts i
      → Step file s (record s { producer = wants_empty i; nstored = s.nstored + 1 })
  post_last :
      s.producer ≡ posts_last
      → Step file s (record s { producer = returned; nstored = s.nstored + 1 })
  wait_stored :
      (i k : ℕ)
      → s.consumer ≡ wants_stored i
      → s.nstored ≡ suc k
      → Step file s (record s { consumer = has_stored i; nstored = k })
  lock_consumer :
      (i k : ℕ)
      → s.consumer ≡ has_stored i
      → s.mutex ≡ suc k
      → Step file s (record s { consumer = locked i; mutex = k })
  unlock_consumer :
      (i : ℕ)
      → s.consumer ≡ locked i
      → Step file s (record s { consumer = writes i; mutex = s.mutex + 1 })
  write : (i : ℕ) → s.consumer ≡ writes i → Step file s (write_from i s)
  post_empty :
      (i : ℕ)
      → s.consumer ≡ frees i
      → Step file s (record s { consumer = wants_stored i; nempty = s.nempty + 1 })

pub data Reach (file : ℕ → Piece) (s : System) : System → Type 0 where
  start : Reach file s s
  later : {t u : System} → Reach file s t → Step file t u → Reach file s u
