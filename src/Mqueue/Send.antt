-- ===== src/Mqueue/Send.antt =====
-- my_pxmsg_mmp/mq_send.c.
pub mod Link
pub mod Place
pub mod Enqueue
pub mod Refine
use interprocess_comm.Prelude.{
  ℕ, zero, suc, ◌+◌, true, false, not, ◌&&◌, Option, none, some, List, [], ◌∷◌, ◌++◌, if◌then◌else◌,
  ◌==◌, ltb, leb, take, drop,
}
use interprocess_comm.Posix.{
  value, fail, Effect, sigqueue, cond_signal, Outcome, returns, waits, out_of_fuel,
}
use interprocess_comm.Posix.Errno
use interprocess_comm.Mqueue.{
  MsgHdr, sigev_signal, MqHdr, MqInfo, mqi_magic_open, lock, unlock, set_curmsgs, update, set_next,
}

-- `pmsghdr`: the previous message, or `(struct msg_hdr *)&mqhdr->mqh_head`, whose `msg_next` is
-- the head itself.
pub data Prev : Type 0 where
  at_head : Prev
  at_msg : ℕ → Prev

-- pmsghdr->msg_next = n
abbrev pub set_prev : Prev → ℕ → MqHdr → MqHdr
set_prev at_head n h = record h { mqh_head = n }
set_prev (at_msg a) n h = set_next a n h

-- The `while (index != 0)` loop: where it stops, and the links that it writes before `break`.
unfoldable pub insert_loop :
    ℕ → (prio freeindex index : ℕ) → Prev → MqHdr → Option (ℕ × Prev × MqHdr)
insert_loop zero prio freeindex index pmsg h = none
insert_loop (suc fuel) prio freeindex index pmsg h = elim (index == 0) [
  | true ↦ some (index, pmsg, h)
  | false ↦ elim (ltb (h.msgs index).msg_prio prio) [
    | true ↦ some (index, pmsg, set_prev pmsg freeindex (set_next freeindex index h))
    | false ↦ insert_loop fuel prio freeindex (h.msgs index).msg_next (at_msg index) h
  ]
]

-- `if (index == 0)`: the queue was empty or the new message goes at its end.
abbrev pub append_at_end : ℕ → ℕ × Prev × MqHdr → MqHdr
append_at_end freeindex (index, pmsg, h) =
    if index == 0 then set_next freeindex 0 (set_prev pmsg freeindex h) else h

unfoldable pub link : ℕ → (prio freeindex index : ℕ) → Prev → MqHdr → Option MqHdr
unfolding insert_loop
link fuel prio freeindex index pmsg h = elim (insert_loop fuel prio freeindex index pmsg h) [
  | none ↦ none
  | some r ↦ some (append_at_end freeindex r)
]

-- nmsghdr->msg_prio = prio, ->msg_len = len, memcpy(nmsghdr + 1, ptr, len)
abbrev pub fill : List ℕ → (len prio : ℕ) → MsgHdr → MsgHdr
fill ptr len prio c = record c {
  msg_prio = prio;
  msg_len = len;
  body = take len ptr ++ drop len c.body;
}

-- The first free slot is filled and leaves the free list.
abbrev pub store : List ℕ → (len prio : ℕ) → MqHdr → MqHdr
store ptr len prio h =
    let c = fill ptr len prio (h.msgs h.mqh_free) in
    record h { msgs = update h.msgs h.mqh_free c; mqh_free = c.msg_next }

-- Wake up anyone blocked in `mq_receive`, count the message, and leave.
abbrev pub send_finish : List Effect → MqHdr → Outcome MqHdr ℕ
send_finish fx h =
    let n = h.mqh_attr.mq_curmsgs in
    returns (value 0) (unlock (set_curmsgs (n + 1) h))
      (if n == 0 then fx ++ cond_signal ∷ [] else fx)

-- From `if ((freeindex = mqhdr->mqh_free) == 0)` on. That branch returns with the mutex held.
unfoldable pub send_enqueue : List Effect → (ptr : List ℕ) (len prio : ℕ) → MqHdr → Outcome MqHdr ℕ
send_enqueue fx ptr len prio h =
    let freeindex = h.mqh_free in
    if freeindex == 0
    then returns (value 0) h fx
    else (let h' = store ptr len prio h in
        elim (link (h.mqh_attr.mq_maxmsg + 1) prio freeindex h.mqh_head at_head h') [
          | none ↦ out_of_fuel
          | some r ↦ send_finish fx r
        ])

-- while (attr->mq_curmsgs >= attr->mq_maxmsg) pthread_cond_wait(...)
unfoldable pub send_wait : (ptr : List ℕ) (len prio : ℕ) → MqHdr → Outcome MqHdr ℕ
send_wait ptr len prio h =
    if leb h.mqh_attr.mq_maxmsg h.mqh_attr.mq_curmsgs
    then waits (unlock h)
    else send_enqueue [] ptr len prio h

-- `pthread_cond_wait` returns with the mutex held again, and the loop tests once more.
unfoldable pub send_resume : (ptr : List ℕ) (len prio : ℕ) → MqHdr → Outcome MqHdr ℕ
send_resume ptr len prio h = send_wait ptr len prio (lock h)

-- The notification for a message that arrives at an empty queue, and the registration after it.
unfoldable pub notify_arrival : MqHdr → MqHdr × List Effect
notify_arrival h =
    if not (h.mqh_pid == 0) && (h.mqh_nwait == 0)
    then (
      record h { mqh_pid = 0 },
      elim h.mqh_event.sigev_notify [
        | sigev_signal ↦ sigqueue h.mqh_pid h.mqh_event.sigev_signo h.mqh_event.sigev_value ∷ []
        | _ ↦ []
      ],
    )
    else (h, [])

-- What runs with the mutex held.
unfoldable pub send_locked : MqInfo → (ptr : List ℕ) (len prio : ℕ) → MqHdr → Outcome MqHdr ℕ
send_locked mqinfo ptr len prio h =
    if ltb h.mqh_attr.mq_msgsize len
    then returns (fail Errno.emsgsize) (unlock h) []
    else if h.mqh_attr.mq_curmsgs == 0
    then (let (h', fx) = notify_arrival h in send_enqueue fx ptr len prio h')
    else if leb h.mqh_attr.mq_maxmsg h.mqh_attr.mq_curmsgs
    then (if mqinfo.mqi_flags
        then returns (fail Errno.eagain) (unlock h) []
        else send_wait ptr len prio h)
    else send_enqueue [] ptr len prio h

-- `n` is what `pthread_mutex_lock` returns.
unfoldable pub mq_send : (n : ℕ) → MqInfo → (ptr : List ℕ) (len prio : ℕ) → MqHdr → Outcome MqHdr ℕ
mq_send n mqinfo ptr len prio h =
    if not (mqinfo.mqi_magic == mqi_magic_open)
    then returns (fail Errno.ebadf) h []
    else if not (n == 0)
    then returns (fail n) h []
    else send_locked mqinfo ptr len prio (lock h)
