-- ===== src/ShmQueue/Slots.antt =====
-- The slots of the circular buffer of pxshm, and what they are in use for.
use interprocess_comm.Prelude.{ℕ, ◌+◌, ◌*◌, ◌≤◌, ◌<◌, ◌≡◌, length, weigh}
use interprocess_comm.ShmQueue.{
  Client, begins, has_empty, overflows, copies, Server, wants_stored, has_stored, freed, checks,
  System,
}

-- The client has a unit of `nempty`.
abbrev pub slots : Client → ℕ
slots (has_empty i) = 1
slots (copies i offset) = 1
slots _ = 0

-- How many messages it has tried to send.
abbrev pub tried : Client → ℕ
tried (begins i) = i
tried (has_empty i) = i
tried (overflows i) = i
tried (copies i offset) = i

-- The server has a message that it has not freed yet.
abbrev pub taken : Server → ℕ
taken (has_stored index last) = 1
taken (freed index last) = 1
taken _ = 0

-- It has printed the message, or waits for one.
abbrev pub unprinted : Server → ℕ
unprinted (has_stored index last) = 1
unprinted _ = 0

abbrev pub index_of : Server → ℕ
index_of (wants_stored index last) = index
index_of (has_stored index last) = index
index_of (freed index last) = index
index_of (checks index last) = index

-- What is copied to the buffer stays inside `msgdata`.
abbrev pub Inside : Client → Type 0
Inside (copies i offset) = offset + 256 ≤ 16 * 256
Inside _ = Unit

-- The units of the semaphores: each is free, in a client's hands, stored or in the server's hands; and as
-- many messages as have been tried are stored, printed or counted as lost.
pub record IsSound (n : ℕ) (s : System) : Type 0 where
  pub mutexes : (s.shm.mutex ≡ 1) × (s.shm.noverflowmutex ≡ 1)
  pub balance : s.shm.nempty + weigh slots n s.clients + s.shm.nstored + taken s.server ≡ 16
  pub account :
      weigh tried n s.clients
      ≡ s.shm.nstored + unprinted s.server + length s.printed + s.shm.noverflow
  pub nput : s.shm.nput < 16
  pub index : index_of s.server < 16
  pub inside : (c : ℕ) → Inside (s.clients c)
