-- ===== src/Mutex/Polled.antt =====
-- mutex/prodcons2.c and mutex/prodcons3.c: the consumer starts when all producers have been joined, or
-- it starts with them and asks for each item until it is there.
pub mod Balance
pub mod Moves
pub mod Safety
use interprocess_comm.Prelude.{
  ℕ, suc, ◌+◌, ◌<◌, ◌≡◌, ltb, leb, ◌==◌, if◌then◌else◌, Bool, true, false, List, [], ◌∷◌, put,
}
use interprocess_comm.Mutex.{Items, no_items, store, least, maxnitems, maxnthreads}

-- Where a producer stands: what it waits for, or what it does next.
pub data Producer : Type 0 where
  wants_lock locked counting returned : Producer

-- Where the consumer stands with item `i`.
pub data Consumer : Type 0 where
  not_started finished : Consumer
  wants_look looking comparing : (i : ℕ) → Consumer

pub record System : Type 0 where
  pub items : Items
  pub mutex : ℕ
  pub producers : ℕ → Producer
  pub count : ℕ → ℕ
  pub consumer : Consumer
  pub printed : List ℕ

-- The test of the consumer's loop; in prodcons3.c `consume_wait` follows.
unfoldable pub next : (polls : Bool) (nitems i : ℕ) → Consumer
next true nitems i = if ltb i nitems then wants_look i else finished
next false nitems i = if ltb i nitems then comparing i else finished

-- The threads that `main` starts first: in prodcons2.c these are the producers only.
unfoldable pub first_consumer : (polls : Bool) (nitems : ℕ) → Consumer
first_consumer true nitems = next true nitems 0
first_consumer false nitems = not_started

abbrev pub start_system : (polls : Bool) (nitems : ℕ) → System
start_system polls nitems = record {
  items = no_items;
  mutex = 1;
  producers = λ i. wants_lock;
  count = λ i. 0;
  consumer = first_consumer polls nitems;
  printed = [];
}

abbrev pub moves : System → (i : ℕ) → Producer → System
moves s i p = record s { producers = put s.producers i p }

-- A producer that has the mutex finds the array full, or stores an item; it unlocks.
unfoldable pub produce_locked : (nitems : ℕ) → System → (i : ℕ) → System
produce_locked nitems s i =
    if leb nitems s.items.nput
    then record (moves s i returned) { mutex = s.mutex + 1 }
    else record (moves s i counting) { items = store s.items; mutex = s.mutex + 1 }

-- *((int*) arg) += 1
abbrev pub count_item : System → (i : ℕ) → System
count_item s i = record (moves s i wants_lock) { count = put s.count i (s.count i + 1) }

-- `consume_wait` with the mutex: the item is there, or it asks again.
unfoldable pub look_locked : System → (i : ℕ) → System
look_locked s i = record s {
  consumer = if ltb i s.items.nput then comparing i else wants_look i;
  mutex = s.mutex + 1;
}

-- if(shared.buff[i] != i) printf(...)
unfoldable pub compare_item : (polls : Bool) (nitems : ℕ) → System → (i : ℕ) → System
compare_item polls nitems s i = record s {
  consumer = next polls nitems (i + 1);
  printed = if s.items.buff i == i then s.printed else i ∷ s.printed;
}

pub record At (n : ℕ) (s : System) (i : ℕ) (p : Producer) : Type 0 where
  pub present : i < n
  pub state : s.producers i ≡ p

-- Every producer has been joined.
abbrev pub Joined : (n : ℕ) → System → Type 0
Joined n s = (i : ℕ) → i < n → s.producers i ≡ returned

-- The steps of the threads, and of `main`, which starts the consumer of prodcons2.c.
pub data Step (polls : Bool) (nitems n : ℕ) (s : System) : System → Type 0 where
  lock :
      (i k : ℕ)
      → At n s i wants_lock
      → s.mutex ≡ suc k
      → Step polls nitems n s (record (moves s i locked) { mutex = k })
  produce : (i : ℕ) → At n s i locked → Step polls nitems n s (produce_locked nitems s i)
  count_one : (i : ℕ) → At n s i counting → Step polls nitems n s (count_item s i)
  start_consumer :
      polls ≡ false
      → s.consumer ≡ not_started
      → Joined n s
      → Step polls nitems n s (record s { consumer = next polls nitems 0 })
  lock_look :
      (i k : ℕ)
      → s.consumer ≡ wants_look i
      → s.mutex ≡ suc k
      → Step polls nitems n s (record s { consumer = looking i; mutex = k })
  look : (i : ℕ) → s.consumer ≡ looking i → Step polls nitems n s (look_locked s i)
  compare_with :
      (i : ℕ) → s.consumer ≡ comparing i → Step polls nitems n s (compare_item polls nitems s i)

pub data Reach (polls : Bool) (nitems n : ℕ) (s : System) : System → Type 0 where
  start : Reach polls nitems n s s
  later :
      {t u : System} → Reach polls nitems n s t → Step polls nitems n t u → Reach polls nitems n s u

-- `main`, with the numbers of its arguments: the items, the producers, and where they may get to.
abbrev pub Runs : (polls : Bool) (items threads : ℕ) → System → Type 0
Runs polls items threads s =
    let nitems = least items maxnitems in
    Reach polls nitems (least threads maxnthreads) (start_system polls nitems) s
