-- ===== src/ShmQueue.antt =====
-- pxshm/cliserv2.h, server2.c and client2.c: a server that prints the messages which clients put into
-- a circular buffer in shared memory.
pub mod Slots
use interprocess_comm.Prelude.{
  ℕ, zero, suc, ◌+◌, ◌*◌, ◌<◌, ◌≡◌, Bool, Option, none, some, List, [], ◌∷◌, if◌then◌else◌, ◌==◌,
  leb, put,
}

abbrev pub mesgsize : ℕ
mesgsize = 256

abbrev pub nmesg : ℕ
nmesg = 16

-- The text "pid …: message …".
pub record Mesg : Type 0 where
  pub pid : ℕ
  pub number : ℕ

-- `struct shmstruct` with the values of its semaphores. `msgdata` is by offset: none where nothing has
-- been copied to. `msgoff` is constant once the server has filled it.
pub record Shm : Type 0 where
  pub mutex : ℕ
  pub nempty : ℕ
  pub nstored : ℕ
  pub nput : ℕ
  pub noverflow : ℕ
  pub noverflowmutex : ℕ
  pub msgdata : ℕ → Option Mesg

abbrev pub msgoff : ℕ → ℕ
msgoff index = index * mesgsize

abbrev pub initial : Shm
initial = record {
  mutex = 1;
  nempty = nmesg;
  nstored = 0;
  nput = 0;
  noverflow = 0;
  noverflowmutex = 1;
  msgdata = λ offset. none;
}

-- if (++index >= NMESG) index = 0
abbrev pub next : ℕ → ℕ
next index = if leb nmesg (index + 1) then 0 else index + 1

-- A client in its round `i`, and the server with its `index` and `lastnoverflow`.
pub data Client : Type 0 where
  begins has_empty overflows : (i : ℕ) → Client
  copies : (i offset : ℕ) → Client

pub data Server : Type 0 where
  wants_stored has_stored freed checks : (index lastnoverflow : ℕ) → Server

-- `printed` is what the server has printed, newest first.
pub record System : Type 0 where
  pub shm : Shm
  pub server : Server
  pub clients : ℕ → Client
  pub printed : List (Option Mesg)

abbrev pub starts : System
starts = record { shm = initial; server = wants_stored 0 0; clients = λ c. begins 0; printed = [] }

pub record At (n : ℕ) (s : System) (c : ℕ) (t : Client) : Type 0 where
  pub present : c < n
  pub state : s.clients c ≡ t

abbrev pub client_moves : System → ℕ → Client → Shm → System
client_moves s c t shm = record s { shm = shm; clients = put s.clients c t }

abbrev pub server_moves : System → Server → Shm → System
server_moves s t shm = record s { shm = shm; server = t }

-- A section under a mutex with no other semaphore in it is one step. The message is copied after the
-- mutex has been posted.
pub data Step (nloop n : ℕ) (pid : ℕ → ℕ) (s : System) : System → Type 0 where
  try_empty :
      (c i k : ℕ)
      → At n s c (begins i)
      → i < nloop
      → s.shm.nempty ≡ suc k
      → Step nloop n pid s (client_moves s c (has_empty i) (record (s.shm) { nempty = k }))
  no_empty :
      (c i : ℕ)
      → At n s c (begins i)
      → i < nloop
      → s.shm.nempty ≡ 0
      → Step nloop n pid s (client_moves s c (overflows i) s.shm)
  count_overflow :
      (c i k : ℕ)
      → At n s c (overflows i)
      → s.shm.noverflowmutex ≡ suc k
      → Step nloop n pid s
          (client_moves s c (begins (i + 1)) (record (s.shm) { noverflow = s.shm.noverflow + 1 }))
  claim :
      (c i k : ℕ)
      → At n s c (has_empty i)
      → s.shm.mutex ≡ suc k
      → Step nloop n pid s (
          client_moves s c
            (copies i (msgoff s.shm.nput))
            (record (s.shm) { nput = next s.shm.nput }))
  copy :
      (c i offset : ℕ)
      → At n s c (copies i offset)
      → Step nloop n pid s (
          client_moves s c (begins (i + 1)) (record (s.shm) {
            msgdata = put s.shm.msgdata offset (some (record { pid = pid c; number = i }));
            nstored = s.shm.nstored + 1;
          }))
  wait_stored :
      (index last k : ℕ)
      → s.server ≡ wants_stored index last
      → s.shm.nstored ≡ suc k
      → Step nloop n pid s (server_moves s (has_stored index last) (record (s.shm) { nstored = k }))
  print :
      (index last k : ℕ)
      → s.server ≡ has_stored index last
      → s.shm.mutex ≡ suc k
      → Step nloop n pid s (record s {
        server = freed (next index) last;
        printed = s.shm.msgdata (msgoff index) ∷ s.printed;
      })
  post_empty :
      (index last : ℕ)
      → s.server ≡ freed index last
      → Step nloop n pid s
          (server_moves s (checks index last) (record (s.shm) { nempty = s.shm.nempty + 1 }))
  check_overflow :
      (index last k : ℕ)
      → s.server ≡ checks index last
      → s.shm.noverflowmutex ≡ suc k
      → Step nloop n pid s (server_moves s (wants_stored index s.shm.noverflow) s.shm)

pub data Reach (nloop n : ℕ) (pid : ℕ → ℕ) (s : System) : System → Type 0 where
  start : Reach nloop n pid s s
  later : {t u : System} → Reach nloop n pid s t → Step nloop n pid t u → Reach nloop n pid s u
