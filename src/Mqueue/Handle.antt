-- ===== src/Mqueue/Handle.antt =====
-- What the calls that move no message do to a queue and to a handle (mq_notify.c, mq_getattr.c,
-- mq_setattr.c, mq_close.c).
use interprocess_comm.Prelude.{
  ℕ, ◌≤◌, ◌≡◌, refl, ◌∙◌, ◌≢◌, Bool, true, false, Option, none, some, List, [], ◌∷◌, arith,
  if◌then◌else◌, ◌==◌, length, Bool-cases, inl, inr, not, ◌&&◌,
}
use interprocess_comm.Posix.{
  Ret, value, fail, sigqueue, cond_signal, munmap, free_handle, Outcome, returns,
}
use interprocess_comm.Posix.Errno
use interprocess_comm.Mqueue.{MqAttr, sigev_signal, SigEvent, MqHdr, MqInfo, mqi_magic_open, Sizes}
use interprocess_comm.Mqueue.Chain.{Message}
use interprocess_comm.Mqueue.Inv.{Holds}
use interprocess_comm.Mqueue.Notify.{seems_alive, notify_locked, mq_notify}
use interprocess_comm.Mqueue.Attr.{mq_getattr, mq_setattr, filesize_of, mq_close}
use interprocess_comm.Mqueue.Send.{mq_send}
use interprocess_comm.Mqueue.Receive.{mq_receive}
use interprocess_comm.Mqueue.Send.Enqueue.{sent}
use interprocess_comm.Mqueue.Send.Refine.{
  Accepted, effects, notifies, send_verdict, accepted, Meets, mq_send-Meets,
}

-- A header that differs in the registration only holds the same messages.
pub Holds-registered :
    {h : MqHdr} {q : List Message} (pid : ℕ) (event : SigEvent)
    → Holds h q
    → Holds (record h { mqh_pid = pid; mqh_event = event; mqh_lock = false }) q
Holds-registered pid event s = record {
  used = s.used;
  frees = s.frees;
  valid = record {
    used_chain = s.valid.used_chain;
    free_chain = s.valid.free_chain;
    used_distinct = s.valid.used_distinct;
    free_distinct = s.valid.free_distinct;
    apart = s.valid.apart;
    counted = s.valid.counted;
    total = s.valid.total;
    positive = s.valid.positive;
    sorted = s.valid.sorted;
    sizes = s.valid.sizes;
  };
  seen = s.seen;
  free_lock = refl;
}

module _ (kill : ℕ → Option ℕ) (mqinfo : MqInfo)
    (open_handle : mqinfo.mqi_magic ≡ mqi_magic_open) where
  notify-run :
      (pid : ℕ) (e : Option SigEvent) (h : MqHdr)
      → mq_notify 0 kill pid mqinfo e h ≡ notify_locked kill pid e (record h { mqh_lock = true })
  unfolding mq_notify
  notify-run pid e h = ground arith

  -- On an open handle, with a mutex that can be had: a process that asks for a signal, while none
  -- is registered and the queue is empty with no receiver waiting, is sent it with the next message
  -- that `mq_send` accepts, and is then registered no more.
  pub notify-send :
      (pid : ℕ) (event : SigEvent) (h : MqHdr) (ptr : List ℕ) (len prio : ℕ)
      → Holds h []
      → h.mqh_pid ≡ 0
      → h.mqh_nwait ≡ 0
      → pid ≢ 0
      → event.sigev_notify ≡ sigev_signal
      → len ≤ h.mqh_attr.mq_msgsize
      → len ≤ length ptr
      → (h' : MqHdr) × (mq_notify 0 kill pid mqinfo (some event) h ≡ returns (value 0) h' [])
        × Accepted
            (sent ptr len prio)
            h'
            []
            (sigqueue pid event.sigev_signo event.sigev_value ∷ cond_signal ∷ [])
            0
            (mq_send 0 mqinfo ptr len prio h')
  unfolding notify_locked
  notify-send pid event h ptr len prio s free alone some_pid wanted fits enough = (
    h',
    notify-run pid (some event) h ∙ ground arith,
    rw fx at (rw gone at (rw verdict at meets)),
  )
    where
      h' : MqHdr
      h' = record h { mqh_pid = pid; mqh_event = event; mqh_lock = false }

      meets :
          Meets
            (send_verdict mqinfo.mqi_flags h.mqh_attr.mq_msgsize h.mqh_attr.mq_maxmsg len 0)
            (sent ptr len prio)
            h'
            []
            (mq_send 0 mqinfo ptr len prio h')
      meets =
          mq_send-Meets mqinfo ptr len prio h' [] open_handle (Holds-registered pid event s) enough

      verdict :
          send_verdict mqinfo.mqi_flags h.mqh_attr.mq_msgsize h.mqh_attr.mq_maxmsg len 0 ≡ accepted
      verdict = ground (arith, s.valid.positive)

      gone : (if notifies h' [] then 0 else pid) ≡ 0
      gone = ground arith

      fx : effects h' [] ≡ sigqueue pid event.sigev_signo event.sigev_value ∷ cond_signal ∷ []
      fx = ground arith

-- On an open handle, with a mutex that can be had: the flag that `mq_setattr` sets is what
-- `mq_getattr` reports, beside the queue's own attributes; the flag and attributes of before are
-- what `mq_setattr` hands out if asked; and the queue stays as it was.
pub setattr-getattr :
    (flags want_old : Bool) (mqinfo : MqInfo) (h : MqHdr)
    → mqinfo.mqi_magic ≡ mqi_magic_open
    → h.mqh_lock ≡ false
    → (mqinfo' : MqInfo) × (old : Option MqAttr) × (mq_setattr 0 flags want_old mqinfo h
        ≡ returns (value old) (mqinfo', h) [])
      × (mq_getattr 0 mqinfo' h ≡ returns (value (record (h.mqh_attr) { mq_flags = flags })) h [])
      × (old
          ≡ (if want_old then some (record (h.mqh_attr) { mq_flags = mqinfo.mqi_flags }) else none))
unfolding mq_setattr mq_getattr
setattr-getattr flags want_old mqinfo h open_handle unheld =
    (record mqinfo { mqi_flags = flags }, _, ground arith, ground arith, refl)

module _ (z : Sizes) (kill : ℕ → Option ℕ) (pid : ℕ) (mqinfo : MqInfo) (h : MqHdr) where
  abbrev left : MqHdr
  left = record h { mqh_pid = if h.mqh_pid == pid then 0 else h.mqh_pid; mqh_lock = false }

  abbrev closed : MqInfo
  closed = record mqinfo { mqi_magic = 0 }

  close-run :
      mqinfo.mqi_magic ≡ mqi_magic_open
      → mq_close z 0 kill pid none mqinfo h
        ≡ returns (value 0) (closed, left) (munmap (filesize_of z h.mqh_attr) ∷ free_handle ∷ [])
  unfolding mq_close mq_notify notify_locked
  close-run open_handle = ground arith

  -- On an open handle, with a mutex that can be had and a `munmap` that succeeds, `mq_close` drops
  -- the registration if it is the caller's own, unmaps as many bytes as the queue's attributes make
  -- up, and frees the handle. The queue keeps its messages. A later `mq_send`, `mq_receive` or
  -- `mq_getattr` with what is left of the handle, whatever the mutex would say, fails with EBADF
  -- and leaves the file alone.
  pub close-ebadf :
      (q : List Message)
      → mqinfo.mqi_magic ≡ mqi_magic_open
      → Holds h q
      → (mq_close z 0 kill pid none mqinfo h
          ≡ returns (value 0) (closed, left) (munmap (filesize_of z h.mqh_attr) ∷ free_handle ∷ []))
        × Holds left q
        × ((n len prio : ℕ) (ptr : List ℕ)
            → mq_send n closed ptr len prio left ≡ returns (fail Errno.ebadf) left [])
        × ((n maxlen : ℕ) (want_prio : Bool)
            → mq_receive n closed maxlen want_prio left ≡ returns (fail Errno.ebadf) left [])
        × ((n : ℕ) → mq_getattr n closed left ≡ returns (fail Errno.ebadf) left [])
  unfolding mq_send mq_receive mq_getattr
  close-ebadf q open_handle s = (
    close-run open_handle,
    Holds-registered _ h.mqh_event s,
    λ n len prio ptr. refl,
    λ n maxlen want_prio. refl,
    λ n. refl,
  )

-- What is left of the file after a call of `mq_notify`.
pub record SameQueue (h : MqHdr) (q : List Message) (o : Outcome MqHdr ℕ) : Type 0 where
  pub result : Ret ℕ
  pub after : MqHdr
  pub run : o ≡ returns result after []
  pub holds : Holds after q
  pub nwait : after.mqh_nwait ≡ h.mqh_nwait
  pub attr : after.mqh_attr ≡ h.mqh_attr

abbrev same_queue :
    {h : MqHdr} {q : List Message} {o : Outcome MqHdr ℕ} (r : Ret ℕ) (pid : ℕ) (event : SigEvent)
    → Holds h q
    → o ≡ returns r (record h { mqh_pid = pid; mqh_event = event; mqh_lock = false }) []
    → SameQueue h q o
same_queue {h} r pid event s e = record {
  result = r;
  after = record h { mqh_pid = pid; mqh_event = event; mqh_lock = false };
  run = e;
  holds = Holds-registered pid event s;
  nwait = refl;
  attr = refl;
}

locked-SameQueue :
    (kill : ℕ → Option ℕ) (pid : ℕ) (e : Option SigEvent) (h : MqHdr) (q : List Message)
    → Holds h q
    → SameQueue h q (notify_locked kill pid e (record h { mqh_lock = true }))
unfolding notify_locked
locked-SameQueue kill pid none h q s =
    same_queue (value 0) (if h.mqh_pid == pid then 0 else h.mqh_pid) h.mqh_event s (ground arith)
locked-SameQueue kill pid (some e) h q s =
    elim (Bool-cases (not (h.mqh_pid == 0) && seems_alive (kill h.mqh_pid))) [
      | inl busy ↦ same_queue (fail Errno.ebusy) h.mqh_pid h.mqh_event s (rw busy refl)
      | inr free ↦ same_queue (value 0) pid e s (rw free refl)
    ]

-- `mq_notify` returns, and keeps the messages, the waiting receivers and the sizes, on every branch.
pub notify-SameQueue :
    (n : ℕ) (kill : ℕ → Option ℕ) (pid : ℕ) (info : MqInfo) (e : Option SigEvent) (h : MqHdr)
    (q : List Message)
    → Holds h q
    → SameQueue h q (mq_notify n kill pid info e h)
unfolding mq_notify
notify-SameQueue n kill pid info e h q s = elim (Bool-cases (info.mqi_magic == mqi_magic_open)) [
  | inl good ↦ rw good (elim (Bool-cases (n == 0)) [
    | inl had ↦ rw had (locked-SameQueue kill pid e h q s)
    | inr not_had ↦
        rw not_had (same_queue (fail n) h.mqh_pid h.mqh_event s (ground (arith, s.free_lock)))
  ])
  | inr bad ↦
      rw bad (same_queue (fail Errno.ebadf) h.mqh_pid h.mqh_event s (ground (arith, s.free_lock)))
]
