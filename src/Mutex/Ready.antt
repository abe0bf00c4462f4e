-- ===== src/Mutex/Ready.antt =====
-- mutex/prodcons6.c: the producers count the items that are ready under a mutex of its own, and
-- signal a condition variable on which the consumer waits.
pub mod Balance
pub mod Moves
pub mod Progress
use interprocess_comm.Prelude.{
  ℕ, suc, ◌+◌, ◌-◌, ◌<◌, ◌≡◌, ltb, leb, ◌==◌, if◌then◌else◌, List, [], ◌∷◌, put,
}
use interprocess_comm.Mutex.{Items, no_items, store, least, maxnitems, maxnthreads}

-- Where a producer stands: what it waits for, or what it does next.
pub data Producer : Type 0 where
  wants_put putting wants_ready readying counting returned : Producer

-- Where the consumer stands with item `i`.
pub data Consumer : Type 0 where
  wants_check checking waiting fetched : (i : ℕ) → Consumer
  finished : Consumer

-- `put`, `nready`, the threads, their counts, and the indices that the consumer has printed.
pub record System : Type 0 where
  pub items : Items
  pub put_mutex : ℕ
  pub ready_mutex : ℕ
  pub nready : ℕ
  pub producers : ℕ → Producer
  pub count : ℕ → ℕ
  pub consumer : Consumer
  pub printed : List ℕ

-- The test of the consumer's loop.
unfoldable pub next : (nitems i : ℕ) → Consumer
next nitems i = if ltb i nitems then wants_check i else finished

-- The threads that `main` starts.
abbrev pub start_system : (nitems : ℕ) → System
start_system nitems = record {
  items = no_items;
  put_mutex = 1;
  ready_mutex = 1;
  nready = 0;
  producers = λ i. wants_put;
  count = λ i. 0;
  consumer = next nitems 0;
  printed = [];
}

abbrev pub moves : System → (i : ℕ) → Producer → System
moves s i p = record s { producers = put s.producers i p }

-- A producer that has the first mutex finds the array full, or stores an item; it unlocks.
unfoldable pub put_locked : (nitems : ℕ) → System → (i : ℕ) → System
put_locked nitems s i =
    if leb nitems s.items.nput
    then record (moves s i returned) { put_mutex = s.put_mutex + 1 }
    else record (moves s i wants_ready) { items = store s.items; put_mutex = s.put_mutex + 1 }

-- `pthread_cond_signal`: the consumer, if it waits, wants the mutex again.
unfoldable pub signal : Consumer → Consumer
signal (waiting i) = wants_check i
signal c = c

-- A producer that has the second mutex signals if nothing was ready, counts the item and unlocks.
unfoldable pub ready_locked : System → (i : ℕ) → System
ready_locked s i = record (moves s i counting) {
  consumer = if s.nready == 0 then signal s.consumer else s.consumer;
  nready = s.nready + 1;
  ready_mutex = s.ready_mutex + 1;
}

-- *((int *)arg) += 1
abbrev pub count_item : System → (i : ℕ) → System
count_item s i = record (moves s i wants_put) { count = put s.count i (s.count i + 1) }

-- The consumer with the mutex: it waits, which unlocks, or takes an item off and unlocks.
unfoldable pub check_locked : System → (i : ℕ) → System
check_locked s i =
    if s.nready == 0
    then record s { consumer = waiting i; ready_mutex = s.ready_mutex + 1 }
    else record s { consumer = fetched i; nready = s.nready - 1; ready_mutex = s.ready_mutex + 1 }

-- if(buff[i] != i) printf(...)
unfoldable pub compare_item : (nitems : ℕ) → System → (i : ℕ) → System
compare_item nitems s i = record s {
  consumer = next nitems (i + 1);
  printed = if s.items.buff i == i then s.printed else i ∷ s.printed;
}

pub record At (n : ℕ) (s : System) (i : ℕ) (p : Producer) : Type 0 where
  pub present : i < n
  pub state : s.producers i ≡ p

-- The steps of the threads. `pthread_mutex_lock` can be passed when the mutex is free; what a thread
-- does with a mutex in its hands goes with the unlocking.
pub data Move (nitems n : ℕ) (s : System) : System → Type 0 where
  lock_put :
      (i k : ℕ)
      → At n s i wants_put
      → s.put_mutex ≡ suc k
      → Move nitems n s (record (moves s i putting) { put_mutex = k })
  put_item : (i : ℕ) → At n s i putting → Move nitems n s (put_locked nitems s i)
  lock_ready :
      (i k : ℕ)
      → At n s i wants_ready
      → s.ready_mutex ≡ suc k
      → Move nitems n s (record (moves s i readying) { ready_mutex = k })
  make_ready : (i : ℕ) → At n s i readying → Move nitems n s (ready_locked s i)
  count_one : (i : ℕ) → At n s i counting → Move nitems n s (count_item s i)
  lock_check :
      (i k : ℕ)
      → s.consumer ≡ wants_check i
      → s.ready_mutex ≡ suc k
      → Move nitems n s (record s { consumer = checking i; ready_mutex = k })
  check : (i : ℕ) → s.consumer ≡ checking i → Move nitems n s (check_locked s i)
  compare_with : (i : ℕ) → s.consumer ≡ fetched i → Move nitems n s (compare_item nitems s i)

-- `pthread_cond_wait` may return without a signal.
pub data Step (nitems n : ℕ) (s : System) : System → Type 0 where
  moved : {t : System} → Move nitems n s t → Step nitems n s t
  spurious :
      (i : ℕ) → s.consumer ≡ waiting i → Step nitems n s (record s { consumer = wants_check i })

pub data Reach (nitems n : ℕ) (s : System) : System → Type 0 where
  start : Reach nitems n s s
  later : {t u : System} → Reach nitems n s t → Step nitems n t u → Reach nitems n s u

-- `main`, with the numbers of its arguments: the items, the producers, and where they may get to.
abbrev pub Runs : (items threads : ℕ) → System → Type 0
Runs items threads s =
    let nitems = least items maxnitems in
    Reach nitems (least threads maxnthreads) (start_system nitems) s
