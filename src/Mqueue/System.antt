-- ===== src/Mqueue/System.antt =====
-- Threads that share one open queue file. A call runs with the mutex held from `pthread_mutex_lock`
-- to its return or to `pthread_cond_wait`, so each such stretch is one step; POSIX lets a wait end
-- at any time.
pub mod Keeps
pub mod Safety
use interprocess_comm.Prelude.{ℕ, ◌≤◌, ◌<◌, ◌≡◌, Bool, false, Option, List, put, length}
use interprocess_comm.Posix.{Ret, Effect, returns, waits}
use interprocess_comm.Mqueue.{SigEvent, MqHdr, MqInfo}
use interprocess_comm.Mqueue.Send.{mq_send, send_resume}
use interprocess_comm.Mqueue.Receive.{Received, mq_receive, receive_resume}
use interprocess_comm.Mqueue.Notify.{mq_notify}

-- A thread is outside the calls, or waits on `mqh_wait` in one of the two `while` loops.
pub data Thread : Type 0 where
  outside : Thread
  sending : (ptr : List ℕ) (len prio : ℕ) → Thread
  receiving : (want_prio : Bool) → Thread

pub record System : Type 0 where
  pub hdr : MqHdr
  pub threads : ℕ → Thread

-- The mutex can be had, and thread `i` is in the state `t`.
pub record Enters (n : ℕ) (s : System) (i : ℕ) (t : Thread) : Type 0 where
  pub present : i < n
  pub state : s.threads i ≡ t
  pub unheld : s.hdr.mqh_lock ≡ false

-- A step of thread `i`. The caller of `mq_send` owns at least the `len` bytes that it names.
pub data Step (n : ℕ) (s : System) : System → Type 0 where
  send :
      (i k len prio : ℕ) (ptr : List ℕ) (info : MqInfo) {r : Ret ℕ} {h' : MqHdr} {fx : List Effect}
      → Enters n s i outside
      → len ≤ length ptr
      → mq_send k info ptr len prio s.hdr ≡ returns r h' fx
      → Step n s (record { hdr = h'; threads = s.threads })
  send_blocks :
      (i k len prio : ℕ) (ptr : List ℕ) (info : MqInfo) {h' : MqHdr}
      → Enters n s i outside
      → len ≤ length ptr
      → mq_send k info ptr len prio s.hdr ≡ waits h'
      → Step n s (record { hdr = h'; threads = put s.threads i (sending ptr len prio) })
  send_wakes :
      (i len prio : ℕ) (ptr : List ℕ) {r : Ret ℕ} {h' : MqHdr} {fx : List Effect}
      → Enters n s i (sending ptr len prio)
      → send_resume ptr len prio s.hdr ≡ returns r h' fx
      → Step n s (record { hdr = h'; threads = put s.threads i outside })
  send_sleeps :
      (i len prio : ℕ) (ptr : List ℕ) {h' : MqHdr}
      → Enters n s i (sending ptr len prio)
      → send_resume ptr len prio s.hdr ≡ waits h'
      → Step n s (record { hdr = h'; threads = s.threads })
  receive :
      (i k maxlen : ℕ) (want_prio : Bool) (info : MqInfo) {r : Ret Received} {h' : MqHdr}
      {fx : List Effect}
      → Enters n s i outside
      → mq_receive k info maxlen want_prio s.hdr ≡ returns r h' fx
      → Step n s (record { hdr = h'; threads = s.threads })
  receive_blocks :
      (i k maxlen : ℕ) (want_prio : Bool) (info : MqInfo) {h' : MqHdr}
      → Enters n s i outside
      → mq_receive k info maxlen want_prio s.hdr ≡ waits h'
      → Step n s (record { hdr = h'; threads = put s.threads i (receiving want_prio) })
  receive_wakes :
      (i : ℕ) (want_prio : Bool) {r : Ret Received} {h' : MqHdr} {fx : List Effect}
      → Enters n s i (receiving want_prio)
      → receive_resume want_prio s.hdr ≡ returns r h' fx
      → Step n s (record { hdr = h'; threads = put s.threads i outside })
  receive_sleeps :
      (i : ℕ) (want_prio : Bool) {h' : MqHdr}
      → Enters n s i (receiving want_prio)
      → receive_resume want_prio s.hdr ≡ waits h'
      → Step n s (record { hdr = h'; threads = s.threads })
  notify :
      (i k pid : ℕ) (kill : ℕ → Option ℕ) (info : MqInfo) (e : Option SigEvent) {r : Ret ℕ}
      {h' : MqHdr} {fx : List Effect}
      → Enters n s i outside
      → mq_notify k kill pid info e s.hdr ≡ returns r h' fx
      → Step n s (record { hdr = h'; threads = s.threads })

pub data Reach (n : ℕ) (s : System) : System → Type 0 where
  start : Reach n s s
  later : {t u : System} → Reach n s t → Step n t u → Reach n s u
