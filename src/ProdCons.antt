-- ===== src/ProdCons.antt =====
-- pxsem/prodcons4.c: producers and consumers that share a circular buffer under three semaphores.
pub mod System
use interprocess_comm.Prelude.{ℕ, ◌+◌, ◌%◌, List, [], ◌∷◌, leb, ◌==◌, if◌then◌else◌}

abbrev pub nbuff : ℕ
nbuff = 10

-- `shared`, with the values of its three semaphores and, newest first, what the consumers have
-- printed from `buff`.
pub record Shared : Type 0 where
  pub buff : ℕ → ℕ
  pub nput : ℕ
  pub nputval : ℕ
  pub nget : ℕ
  pub ngetval : ℕ
  pub mutex : ℕ
  pub nempty : ℕ
  pub nstored : ℕ
  pub printed : List ℕ

-- `shared` is static, and `main` initialises the semaphores.
abbrev pub initial : Shared
initial = record {
  buff = λ i. 0;
  nput = 0;
  nputval = 0;
  nget = 0;
  ngetval = 0;
  mutex = 1;
  nempty = nbuff;
  nstored = 0;
  printed = [];
}

-- Where a thread stands: what it waits for, or what it does next.
pub data Thread : Type 0 where
  wants_empty has_empty producing stored_one : Thread
  leaving_empty leaving_mutex produced : Thread
  wants_stored has_stored consuming freed_one : Thread
  stopping consumed : Thread

-- shared.buff[shared.nput % NBUFF] = shared.nputval; shared.nput++; shared.nputval++
abbrev pub store : Shared → Shared
store s = record s {
  buff = λ i. if i == s.nput % nbuff then s.nputval else s.buff i;
  nput = s.nput + 1;
  nputval = s.nputval + 1;
}

-- i = shared.nget % NBUFF; DEBUG_PRINTF(...); shared.nget++; shared.ngetval++
abbrev pub fetch : Shared → Shared
fetch s = record s {
  printed = s.buff (s.nget % nbuff) ∷ s.printed;
  nget = s.nget + 1;
  ngetval = s.ngetval + 1;
}

-- A thread of `produce` that has the mutex: it leaves, having posted `nstored` for the consumers, or
-- stores an item and posts the mutex.
unfoldable pub produce_locked : (nitems : ℕ) → Shared → Thread × Shared
produce_locked nitems s =
    if leb nitems s.nput
    then (leaving_empty, record s { nstored = s.nstored + 1 })
    else (let t = store s in (stored_one, record t { mutex = t.mutex + 1 }))

-- A thread of `consume` that has the mutex.
unfoldable pub consume_locked : (nitems : ℕ) → Shared → Thread × Shared
consume_locked nitems s =
    if leb nitems s.nget
    then (stopping, record s { nstored = s.nstored + 1 })
    else (let t = fetch s in (freed_one, record t { mutex = t.mutex + 1 }))
