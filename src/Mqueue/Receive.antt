-- ===== src/Mqueue/Receive.antt =====
-- my_pxmsg_mmp/mq_receive.c.
pub mod Dequeue
pub mod Refine
use interprocess_comm.Prelude.{
  ℕ, ◌+◌, ◌-◌, Bool, not, Option, none, some, List, [], ◌∷◌, if◌then◌else◌, ◌==◌, ltb, take,
}
use interprocess_comm.Posix.{value, fail, minus_one, cond_signal, Outcome, returns, waits}
use interprocess_comm.Posix.Errno
use interprocess_comm.Mqueue.{MqHdr, MqInfo, mqi_magic_open, lock, unlock, set_curmsgs, set_next}

-- The length returned, the bytes copied to `ptr`, and what is stored through `priop`.
pub record Received : Type 0 where
  pub len : ℕ
  pub bytes : List ℕ
  pub prio : Option ℕ

-- The just-read message goes to the front of the free list.
abbrev pub give_back : ℕ → MqHdr → MqHdr
give_back index h =
    let next = (h.msgs index).msg_next in
    record (set_next index h.mqh_free h) { mqh_head = next; mqh_free = index }

-- From `if ((index = mqhdr->mqh_head) == 0)` on. That branch returns with the mutex held.
unfoldable pub receive_dequeue : (want_prio : Bool) → MqHdr → Outcome MqHdr Received
receive_dequeue want_prio h =
    let index = h.mqh_head in
    if index == 0
    then returns minus_one h []
    else let c = h.msgs index in
      let n = h.mqh_attr.mq_curmsgs in
      returns
        (value (record {
          len = c.msg_len;
          bytes = take c.msg_len c.body;
          prio = if want_prio then some c.msg_prio else none;
        }))
        (unlock (set_curmsgs (n - 1) (give_back index h)))
        (if n == h.mqh_attr.mq_maxmsg then cond_signal ∷ [] else [])

-- The `while` loop, then `mqhdr->mqh_nwait--`, which the wait's `mqh_nwait++` keeps above 0.
unfoldable pub receive_wait : (want_prio : Bool) → MqHdr → Outcome MqHdr Received
receive_wait want_prio h =
    if h.mqh_attr.mq_curmsgs == 0
    then waits (unlock h)
    else receive_dequeue want_prio (record h { mqh_nwait = h.mqh_nwait - 1 })

-- `pthread_cond_wait` returns with the mutex held again, and the loop tests once more.
unfoldable pub receive_resume : (want_prio : Bool) → MqHdr → Outcome MqHdr Received
receive_resume want_prio h = receive_wait want_prio (lock h)

-- What runs with the mutex held.
unfoldable pub receive_locked :
    MqInfo → (maxlen : ℕ) (want_prio : Bool) → MqHdr → Outcome MqHdr Received
receive_locked mqinfo maxlen want_prio h =
    if ltb maxlen h.mqh_attr.mq_msgsize
    then returns (fail Errno.emsgsize) (unlock h) []
    else if h.mqh_attr.mq_curmsgs == 0
    then (if mqinfo.mqi_flags
        then returns (fail Errno.eagain) (unlock h) []
        else receive_wait want_prio (record h { mqh_nwait = h.mqh_nwait + 1 }))
    else receive_dequeue want_prio h

-- `n` is what `pthread_mutex_lock` returns; `want_prio` says that `priop` is not NULL.
unfoldable pub mq_receive :
    (n : ℕ) → MqInfo → (maxlen : ℕ) (want_prio : Bool) → MqHdr → Outcome MqHdr Received
mq_receive n mqinfo maxlen want_prio h =
    if not (mqinfo.mqi_magic == mqi_magic_open)
    then returns (fail Errno.ebadf) h []
    else if not (n == 0)
    then returns (fail n) h []
    else receive_locked mqinfo maxlen want_prio (lock h)
