-- ===== src/Mqueue.antt =====
-- my_pxmsg_mmp/mqueue.h: a POSIX message queue in a memory-mapped file. The file begins with a
-- `struct mq_hdr`; behind it stand `mq_maxmsg` slots, each a `struct msg_hdr` and its bytes.
pub mod Chain
pub mod Spec
pub mod Inv
pub mod Send
pub mod Receive
pub mod Notify
pub mod Attr
pub mod Open
pub mod Handle
pub mod System
use interprocess_comm.Prelude.{ℕ, ◌+◌, ◌-◌, ◌*◌, ◌/◌, Bool, true, false, List, if◌then◌else◌, ◌==◌}

-- Of the flags only the bit O_NONBLOCK is ever stored or tested.
pub record MqAttr : Type 0 where
  pub mq_flags : Bool
  pub mq_maxmsg : ℕ
  pub mq_msgsize : ℕ
  pub mq_curmsgs : ℕ

-- A slot: the header of a message, and the bytes at `msghdr + 1`.
pub record MsgHdr : Type 0 where
  pub msg_next : ℕ
  pub msg_len : ℕ
  pub msg_prio : ℕ
  pub body : List ℕ

pub data SigNotify : Type 0 where
  sigev_signal sigev_none sigev_thread : SigNotify

pub record SigEvent : Type 0 where
  pub sigev_notify : SigNotify
  pub sigev_signo : ℕ
  pub sigev_value : ℕ

-- The mapped file: `msgs a` is the slot at byte offset `a`, `mqh_lock` says whether the mutex is
-- held. The condition variable has no state of its own.
pub record MqHdr : Type 0 where
  pub mqh_attr : MqAttr
  pub mqh_head : ℕ
  pub mqh_free : ℕ
  pub mqh_nwait : ℕ
  pub mqh_pid : ℕ
  pub mqh_event : SigEvent
  pub mqh_lock : Bool
  pub msgs : ℕ → MsgHdr

-- One per process and `mq_open`. The pointer `mqi_hdr` is the mapped file, passed beside it.
pub record MqInfo : Type 0 where
  pub mqi_magic : ℕ
  pub mqi_flags : Bool

abbrev pub mqi_magic_open : ℕ
mqi_magic_open = 0x98765432

-- The sizes that the compiler chooses.
pub record Sizes : Type 0 where
  pub sizeof_long : ℕ
  pub sizeof_mq_hdr : ℕ
  pub sizeof_msg_hdr : ℕ

-- MSGSIZE(i)
unfoldable pub round_msgsize : Sizes → ℕ → ℕ
round_msgsize z i = (i + z.sizeof_long - 1) / z.sizeof_long * z.sizeof_long

abbrev pub lock : MqHdr → MqHdr
lock h = record h { mqh_lock = true }

abbrev pub unlock : MqHdr → MqHdr
unlock h = record h { mqh_lock = false }

abbrev pub set_curmsgs : ℕ → MqHdr → MqHdr
set_curmsgs n h = record h { mqh_attr = record (h.mqh_attr) { mq_curmsgs = n } }

abbrev pub update : (ℕ → MsgHdr) → ℕ → MsgHdr → ℕ → MsgHdr
update m a c b = if b == a then c else m b

-- msghdr->msg_next = n
abbrev pub set_next : ℕ → ℕ → MqHdr → MqHdr
set_next a n h = record h { msgs = update h.msgs a (record (h.msgs a) { msg_next = n }) }
