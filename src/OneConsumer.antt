-- ===== src/OneConsumer.antt =====
-- pxsem/prodcons1.c, prodcons2.c and prodcons3.c: one consumer takes the items off a ring under three
-- semaphores; in the first two programs one producer stores them, in the third any number do.
pub mod Balance
pub mod Producing
pub mod Consuming
pub mod Moves
pub mod Safety
pub mod Progress
use interprocess_comm.Prelude.{
  ℕ, suc, ◌+◌, ◌%◌, ◌<◌, ◌≡◌, ltb, leb, ◌==◌, if◌then◌else◌, Bool, true, false, List, [], ◌∷◌, put,
}

-- #define NBUFF 10
abbrev pub nbuff : ℕ
nbuff = 10

-- Where a producer stands: it waits for `nempty` and for `mutex`, has the mutex, has stored an item,
-- has found that all are stored, has an item to count, or has returned.
pub data Producer : Type 0 where
  wants_empty has_empty producing stored_one leaving counting returned : Producer

-- Where the consumer stands with item `i`.
pub data Consumer : Type 0 where
  wants_stored has_stored printing freed : (i : ℕ) → Consumer
  finished : Consumer

-- `shared`, where `nput` and `nputval` of prodcons1.c and prodcons2.c are the producer's `i`, the
-- threads, the counts of the producers and, newest first, what the consumer has printed.
pub record System : Type 0 where
  pub buff : ℕ → ℕ
  pub nput : ℕ
  pub nputval : ℕ
  pub mutex : ℕ
  pub nempty : ℕ
  pub nstored : ℕ
  pub producers : ℕ → Producer
  pub count : ℕ → ℕ
  pub consumer : Consumer
  pub printed : List ℕ

-- The test of the consumer's loop.
unfoldable pub next : (nitems i : ℕ) → Consumer
next nitems i = if ltb i nitems then wants_stored i else finished

-- The loop of a producer that is alone tests its index; that of prodcons3.c tests `nput` under the
-- mutex.
unfoldable pub next_item : (alone : Bool) → (nitems nput : ℕ) → Producer
next_item true nitems nput = if ltb nput nitems then wants_empty else returned
next_item false nitems nput = wants_empty

-- The threads that `main` starts.
abbrev pub start_system : (alone : Bool) → (nitems : ℕ) → System
start_system alone nitems = record {
  buff = λ i. 0;
  nput = 0;
  nputval = 0;
  mutex = 1;
  nempty = nbuff;
  nstored = 0;
  producers = λ i. next_item alone nitems 0;
  count = λ i. 0;
  consumer = next nitems 0;
  printed = [];
}

abbrev pub moves : System → (i : ℕ) → Producer → System
moves s i p = record s { producers = put s.producers i p }

-- shared.buff[shared.nput % NBUFF] = shared.nputval, and both go up; the mutex is posted.
abbrev pub store : System → (i : ℕ) → System
store s i = record (moves s i stored_one) {
  buff = λ j. if j == s.nput % nbuff then s.nputval else s.buff j;
  nput = s.nput + 1;
  nputval = s.nputval + 1;
  mutex = s.mutex + 1;
}

-- A producer that has the mutex; in prodcons3.c it may find all items stored, and posts `nempty`.
unfoldable pub produce_locked : (alone : Bool) → (nitems : ℕ) → System → (i : ℕ) → System
produce_locked true nitems s i = store s i
produce_locked false nitems s i =
    if leb nitems s.nput then record (moves s i leaving) { nempty = s.nempty + 1 } else store s i

-- What follows `sem_post(&shared.nstored)`.
unfoldable pub after_post : (alone : Bool) → (nitems : ℕ) → System → Producer
after_post true nitems s = next_item true nitems s.nput
after_post false nitems s = counting

-- *((int *)arg) += 1
abbrev pub count_item : System → (i : ℕ) → System
count_item s i = record (moves s i wants_empty) { count = put s.count i (s.count i + 1) }

-- DEBUG_PRINTF of shared.buff[i%NBUFF]; the mutex is posted.
abbrev pub print_locked : System → (i : ℕ) → System
print_locked s i = record s {
  consumer = freed i;
  printed = s.buff (i % nbuff) ∷ s.printed;
  mutex = s.mutex + 1;
}

pub record At (n : ℕ) (s : System) (i : ℕ) (p : Producer) : Type 0 where
  pub present : i < n
  pub state : s.producers i ≡ p

-- `sem_wait` can be passed at a value above 0, which it takes down by one; `sem_post` adds one.
pub data Step (alone : Bool) (nitems n : ℕ) (s : System) : System → Type 0 where
  wait_empty :
      (i k : ℕ)
      → At n s i wants_empty
      → s.nempty ≡ suc k
      → Step alone nitems n s (record (moves s i has_empty) { nempty = k })
  lock_producer :
      (i k : ℕ)
      → At n s i has_empty
      → s.mutex ≡ suc k
      → Step alone nitems n s (record (moves s i producing) { mutex = k })
  produce : (i : ℕ) → At n s i producing → Step alone nitems n s (produce_locked alone nitems s i)
  post_stored :
      (i : ℕ)
      → At n s i stored_one
      → Step alone nitems n s
          (record (moves s i (after_post alone nitems s)) { nstored = s.nstored + 1 })
  count_one : (i : ℕ) → At n s i counting → Step alone nitems n s (count_item s i)
  leave :
      (i : ℕ)
      → At n s i leaving
      → Step alone nitems n s (record (moves s i returned) { mutex = s.mutex + 1 })
  wait_stored :
      (i k : ℕ)
      → s.consumer ≡ wants_stored i
      → s.nstored ≡ suc k
      → Step alone nitems n s (record s { consumer = has_stored i; nstored = k })
  lock_consumer :
      (i k : ℕ)
      → s.consumer ≡ has_stored i
      → s.mutex ≡ suc k
      → Step alone nitems n s (record s { consumer = printing i; mutex = k })
  print : (i : ℕ) → s.consumer ≡ printing i → Step alone nitems n s (print_locked s i)
  post_empty :
      (i : ℕ)
      → s.consumer ≡ freed i
      → Step alone nitems n s (record s { consumer = next nitems (i + 1); nempty = s.nempty + 1 })

pub data Reach (alone : Bool) (nitems n : ℕ) (s : System) : System → Type 0 where
  start : Reach alone nitems n s s
  later :
      {t u : System} → Reach alone nitems n s t → Step alone nitems n t u → Reach alone nitems n s u

-- The number of producers.
abbrev pub threads : (alone : Bool) → (nproduces : ℕ) → ℕ
threads true nproduces = 1
threads false nproduces = nproduces
