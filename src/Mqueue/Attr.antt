-- ===== src/Mqueue/Attr.antt =====
-- my_pxmsg_mmp/mq_getattr.c, mq_setattr.c, mq_close.c and mq_unlink.c.
use interprocess_comm.Prelude.{
  ℕ, ◌+◌, ◌*◌, Bool, not, Option, none, some, [], ◌∷◌, if◌then◌else◌, ◌==◌,
}
use interprocess_comm.Posix.{
  Ret, value, fail, minus_one, munmap, free_handle, Outcome, returns, waits, out_of_fuel,
}
use interprocess_comm.Posix.Errno
use interprocess_comm.Mqueue.{
  MqAttr, MqHdr, MqInfo, mqi_magic_open, Sizes, round_msgsize, lock, unlock,
}
use interprocess_comm.Mqueue.Notify.{mq_notify}

-- The flags of this open, and the other three attributes of the queue.
abbrev pub attr_of : MqInfo → MqHdr → MqAttr
attr_of mqinfo h = record (h.mqh_attr) { mq_flags = mqinfo.mqi_flags }

unfoldable pub mq_getattr : (n : ℕ) → MqInfo → MqHdr → Outcome MqHdr MqAttr
mq_getattr n mqinfo h =
    if not (mqinfo.mqi_magic == mqi_magic_open)
    then returns (fail Errno.ebadf) h []
    else if not (n == 0)
    then returns (fail n) h []
    else (let l = lock h in returns (value (attr_of mqinfo l)) (unlock l) [])

-- `flags` is `mqstat->mq_flags & O_NONBLOCK`, `want_old` says that `omqstat` is not NULL. The value
-- is what is stored there. `mqi_flas` in the source stands for `mqi_flags`.
unfoldable pub mq_setattr :
    (n : ℕ) (flags want_old : Bool) → MqInfo → MqHdr → Outcome (MqInfo × MqHdr) (Option MqAttr)
mq_setattr n flags want_old mqinfo h =
    if not (mqinfo.mqi_magic == mqi_magic_open)
    then returns (fail Errno.ebadf) (mqinfo, h) []
    else if not (n == 0)
    then returns (fail n) (mqinfo, h) []
    else (let l = lock h in
        returns (value (if want_old then some (attr_of mqinfo l) else none))
          (record mqinfo { mqi_flags = flags }, unlock l) [])

-- The size that `mq_open` gave the file.
unfoldable pub filesize_of : Sizes → MqAttr → ℕ
unfolding round_msgsize
filesize_of z a = z.sizeof_mq_hdr + a.mq_maxmsg * (z.sizeof_msg_hdr + round_msgsize z a.mq_msgsize)

-- After `mq_notify(mqd, NULL)` has returned 0.
abbrev pub close_unmap : Sizes → Option ℕ → MqInfo → MqHdr → Outcome (MqInfo × MqHdr) ℕ
close_unmap z unmap_result mqinfo h = elim unmap_result [
  | some e ↦ returns (fail e) (mqinfo, h) []
  | none ↦
      returns (value 0) (record mqinfo { mqi_magic = 0 }, h)
        (munmap (filesize_of z h.mqh_attr) ∷ free_handle ∷ [])
]

-- `unmap_result` is the error number of `munmap`, if it fails. The handle is the one that `free`
-- is called on.
unfoldable pub mq_close :
    Sizes
    → (n : ℕ) (kill : ℕ → Option ℕ) (pid : ℕ) (unmap_result : Option ℕ) → MqInfo
    → MqHdr
    → Outcome (MqInfo × MqHdr) ℕ
mq_close z n kill pid unmap_result mqinfo h =
    if not (mqinfo.mqi_magic == mqi_magic_open)
    then returns (fail Errno.ebadf) (mqinfo, h) []
    else elim (mq_notify n kill pid mqinfo none h) [
      | waits h' ↦ waits (mqinfo, h')
      | out_of_fuel ↦ out_of_fuel
      | returns r h' fx ↦ elim r [
        | value v ↦
            if v == 0
            then close_unmap z unmap_result mqinfo h'
            else returns minus_one (mqinfo, h') fx
        | fail e ↦ returns (fail e) (mqinfo, h') fx
        | minus_one ↦ returns minus_one (mqinfo, h') fx
      ]
    ]

-- `unlink_result` is the error number of `unlink`, if it fails.
unfoldable pub mq_unlink : (unlink_result : Option ℕ) → Ret ℕ
mq_unlink none = value 0
mq_unlink (some e) = fail e
