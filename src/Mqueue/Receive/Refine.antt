-- ===== src/Mqueue/Receive/Refine.antt =====
-- `mq_receive` beside the queue as a list of messages (mq_receive.c).
use interprocess_comm.Prelude.{
  ℕ, ◌+◌, ◌-◌, ◌≡◌, refl, inl, inr, Bool, true, false, List, [], ◌∷◌, arith, if◌then◌else◌, ltb,
  Bool-cases,
}
use interprocess_comm.Posix.{fail, Outcome, returns, waits}
use interprocess_comm.Posix.Errno
use interprocess_comm.Mqueue.{MqHdr, MqInfo, mqi_magic_open}
use interprocess_comm.Mqueue.Chain.{Message}
use interprocess_comm.Mqueue.Inv.{Holds, curmsgs-Holds}
use interprocess_comm.Mqueue.Receive.{
  Received, receive_dequeue, receive_wait, receive_resume, receive_locked, mq_receive,
}
use interprocess_comm.Mqueue.Receive.Dequeue.{Delivered, at_work, taken}

-- What the call does at a queue file that holds `q`. A call that fails leaves the file as it was;
-- one that blocks is counted among the waiting receivers.
abbrev pub Meets :
    (nonblock want_prio : Bool) (maxlen : ℕ)
    → MqHdr
    → List Message
    → Outcome MqHdr Received
    → Type 0
Meets nonblock want_prio maxlen h [] o =
    if ltb maxlen h.mqh_attr.mq_msgsize
    then o ≡ returns (fail Errno.emsgsize) h []
    else if nonblock
    then o ≡ returns (fail Errno.eagain) h []
    else o ≡ waits (record h { mqh_nwait = h.mqh_nwait + 1 })
Meets nonblock want_prio maxlen h (w ∷ q) o =
    if ltb maxlen h.mqh_attr.mq_msgsize
    then o ≡ returns (fail Errno.emsgsize) h []
    else Delivered want_prio h w q h.mqh_nwait o

module _ (mqinfo : MqInfo) (maxlen : ℕ) (want_prio : Bool) (h : MqHdr)
    (open_handle : mqinfo.mqi_magic ≡ mqi_magic_open) where
  reject-run :
      h.mqh_lock ≡ false
      → ltb maxlen h.mqh_attr.mq_msgsize ≡ true
      → mq_receive 0 mqinfo maxlen want_prio h ≡ returns (fail Errno.emsgsize) h []
  unfolding mq_receive receive_locked
  reject-run unheld small = ground arith

  empty-run :
      (nonblock : Bool)
      → mqinfo.mqi_flags ≡ nonblock
      → Holds h []
      → ltb maxlen h.mqh_attr.mq_msgsize ≡ false
      → if nonblock
        then mq_receive 0 mqinfo maxlen want_prio h ≡ returns (fail Errno.eagain) h []
        else mq_receive 0 mqinfo maxlen want_prio h
          ≡ waits (record h { mqh_nwait = h.mqh_nwait + 1 })
  unfolding mq_receive receive_locked receive_wait
  empty-run true e s large = ground (arith, curmsgs-Holds s, s.free_lock)
  empty-run false e s large = ground (arith, curmsgs-Holds s, s.free_lock)

  take-run :
      (w : Message) (q : List Message)
      → Holds h (w ∷ q)
      → ltb maxlen h.mqh_attr.mq_msgsize ≡ false
      → mq_receive 0 mqinfo maxlen want_prio h ≡ receive_dequeue want_prio (at_work h h.mqh_nwait)
  unfolding mq_receive receive_locked
  take-run w q s large = ground (arith, curmsgs-Holds s)

  -- On an open handle, a mutex that can be had and a file between two calls, `mq_receive` fails
  -- with EMSGSIZE if the buffer is short of `mq_msgsize`; else it gives out the first message and
  -- leaves the others, or, at an empty queue, fails with EAGAIN if the handle does not block, and
  -- otherwise blocks and is counted in `mqh_nwait`.
  pub mq_receive-Meets :
      (q : List Message)
      → Holds h q
      → Meets mqinfo.mqi_flags want_prio maxlen h q (mq_receive 0 mqinfo maxlen want_prio h)
  mq_receive-Meets [] s = elim (Bool-cases (ltb maxlen h.mqh_attr.mq_msgsize)) [
    | inl small ↦ rw small (reject-run s.free_lock small)
    | inr large ↦ rw large (empty-run mqinfo.mqi_flags refl s large)
  ]
  mq_receive-Meets (w ∷ q) s = elim (Bool-cases (ltb maxlen h.mqh_attr.mq_msgsize)) [
    | inl small ↦ rw small (reject-run s.free_lock small)
    | inr large ↦ rw (large, take-run w q s large) (taken want_prio h w q h.mqh_nwait s)
  ]

-- A receiver that comes back from `pthread_cond_wait`.
module _ (want_prio : Bool) (h : MqHdr) where
  -- A receiver that comes back from `pthread_cond_wait` to an empty queue waits again, and the file
  -- stays as it is.
  pub receive_resume-empty : Holds h [] → receive_resume want_prio h ≡ waits h
  unfolding receive_resume receive_wait
  receive_resume-empty s = ground (arith, curmsgs-Holds s, s.free_lock)

  resume-run :
      (w : Message) (q : List Message)
      → Holds h (w ∷ q)
      → receive_resume want_prio h ≡ receive_dequeue want_prio (at_work h (h.mqh_nwait - 1))
  unfolding receive_resume receive_wait
  resume-run w q s = ground (arith, curmsgs-Holds s)

  -- A receiver that comes back from `pthread_cond_wait` to a queue with a message is given the
  -- first one, and is no longer counted as waiting.
  pub receive_resume-Delivered :
      (w : Message) (q : List Message)
      → Holds h (w ∷ q)
      → Delivered want_prio h w q (h.mqh_nwait - 1) (receive_resume want_prio h)
  receive_resume-Delivered w q s = rw (resume-run w q s) (taken want_prio h w q (h.mqh_nwait - 1) s)

-- What a receiver that comes back from `pthread_cond_wait` makes of the messages of the queue.
abbrev pub Resumed :
    (want_prio : Bool) (h : MqHdr) (q : List Message) → Outcome MqHdr Received → Type 0
Resumed want_prio h [] o = o ≡ waits h
Resumed want_prio h (w ∷ q) o = Delivered want_prio h w q (h.mqh_nwait - 1) o

-- A receiver that comes back from `pthread_cond_wait` to an empty queue waits again, and the file
-- stays as it is; from a queue with a message it is given the first one, and is no longer counted as
-- waiting.
pub receive_resume-Resumed :
    (want_prio : Bool) (h : MqHdr) (q : List Message)
    → Holds h q
    → Resumed want_prio h q (receive_resume want_prio h)
receive_resume-Resumed want_prio h [] s = receive_resume-empty want_prio h s
receive_resume-Resumed want_prio h (w ∷ q) s = receive_resume-Delivered want_prio h w q s
