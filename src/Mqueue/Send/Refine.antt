-- ===== src/Mqueue/Send/Refine.antt =====
-- `mq_send` beside the queue as a list of messages (mq_send.c).
use interprocess_comm.Prelude.{
  ℕ, ◌≤◌, ◌≡◌, refl, ◌∙◌, ap, inl, inr, Bool, true, false, not, ◌&&◌, List, [], ◌∷◌, ◌++◌, arith,
  if◌then◌else◌, ◌==◌, ltb, leb, length, Bool-cases, not_ltb→le,
}
use interprocess_comm.Posix.{value, fail, Effect, sigqueue, cond_signal, Outcome, returns, waits}
use interprocess_comm.Posix.Errno
use interprocess_comm.Mqueue.{sigev_signal, MqHdr, MqInfo, mqi_magic_open}
use interprocess_comm.Mqueue.Chain.{Message}
use interprocess_comm.Mqueue.Spec.{insert_msg}
use interprocess_comm.Mqueue.Inv.{Holds, IsQueue-header, curmsgs-Holds}
use interprocess_comm.Mqueue.Send.{
  mq_send, send_locked, send_wait, send_enqueue, send_resume, notify_arrival,
}
use interprocess_comm.Mqueue.Send.Enqueue.{sent, Enqueued, enqueue-Enqueued}

-- What becomes of a call, from the sizes and the number of messages alone.
pub data Verdict : Type 0 where
  rejected : (errno : ℕ) → Verdict
  blocked accepted : Verdict

abbrev pub send_verdict : (nonblock : Bool) (msgsize maxmsg len count : ℕ) → Verdict
send_verdict nonblock msgsize maxmsg len count =
    if ltb msgsize len
    then rejected Errno.emsgsize
    else if leb maxmsg count
    then (if nonblock then rejected Errno.eagain else blocked)
    else accepted

-- A process is registered, no receiver waits, and the queue is empty.
abbrev pub notifies : MqHdr → List Message → Bool
notifies h q = (length q == 0) && (not (h.mqh_pid == 0) && (h.mqh_nwait == 0))

-- The registered process is sent its signal, if it asked for one.
abbrev pub notification : MqHdr → List Effect
notification h = elim h.mqh_event.sigev_notify [
  | sigev_signal ↦ sigqueue h.mqh_pid h.mqh_event.sigev_signo h.mqh_event.sigev_value ∷ []
  | _ ↦ []
]

abbrev pub effects : MqHdr → List Message → List Effect
effects h q =
    let fx = if notifies h q then notification h else [] in
    if length q == 0 then fx ++ cond_signal ∷ [] else fx

-- The message is on the queue, and the registration is used up if it served.
pub record Accepted (w : Message) (h : MqHdr) (q : List Message) (fx : List Effect) (pid : ℕ)
    (o : Outcome MqHdr ℕ) : Type 0 where
  pub after : MqHdr
  pub run : o ≡ returns (value 0) after fx
  pub holds : Holds after (insert_msg w q)
  pub pid_after : after.mqh_pid ≡ pid
  pub nwait : after.mqh_nwait ≡ h.mqh_nwait
  pub event : after.mqh_event ≡ h.mqh_event
  pub maxmsg : after.mqh_attr.mq_maxmsg ≡ h.mqh_attr.mq_maxmsg
  pub msgsize : after.mqh_attr.mq_msgsize ≡ h.mqh_attr.mq_msgsize

-- A call that is rejected or that blocks leaves the file as it was.
abbrev pub Meets : Verdict → Message → MqHdr → List Message → Outcome MqHdr ℕ → Type 0
Meets (rejected e) w h q o = o ≡ returns (fail e) h []
Meets blocked w h q o = o ≡ waits h
Meets accepted w h q o = Accepted w h q (effects h q) (if notifies h q then 0 else h.mqh_pid) o

abbrev at_work : MqHdr → ℕ → MqHdr
at_work h pid = record h { mqh_pid = pid; mqh_lock = true }

Accepted-Enqueued :
    (w : Message) (h : MqHdr) (q : List Message) (s : Holds h q) (fx : List Effect) (pid : ℕ)
    (o : Outcome MqHdr ℕ)
    → Enqueued w fx (at_work h pid) s.used s.frees o
    → Accepted w h q (if length q == 0 then fx ++ cond_signal ∷ [] else fx) pid o
Accepted-Enqueued w h q s fx pid o e = record {
  after = e.after;
  run =
      e.run
      ∙ ap (λ n. returns (value 0) e.after (if n == 0 then fx ++ cond_signal ∷ [] else fx))
          (curmsgs-Holds s);
  holds = record {
    used = e.used';
    frees = e.frees';
    valid = e.valid;
    seen = e.seen ∙ ap (insert_msg w) s.seen;
    free_lock = ap (λ (g : MqHdr). g.mqh_lock) e.rest;
  };
  pid_after = ap (λ (g : MqHdr). g.mqh_pid) e.rest;
  nwait = ap (λ (g : MqHdr). g.mqh_nwait) e.rest;
  event = ap (λ (g : MqHdr). g.mqh_event) e.rest;
  maxmsg = ap (λ (g : MqHdr). g.mqh_attr.mq_maxmsg) e.rest;
  msgsize = ap (λ (g : MqHdr). g.mqh_attr.mq_msgsize) e.rest;
}

module _ (mqinfo : MqInfo) (ptr : List ℕ) (len prio : ℕ) (h : MqHdr) (q : List Message)
    (open_handle : mqinfo.mqi_magic ≡ mqi_magic_open) (s : Holds h q) where
  abbrev pid' : ℕ
  pid' = if notifies h q then 0 else h.mqh_pid

  room-run :
      ltb h.mqh_attr.mq_msgsize len ≡ false
      → leb h.mqh_attr.mq_maxmsg (length q) ≡ false
      → mq_send 0 mqinfo ptr len prio h
        ≡ send_enqueue (if notifies h q then notification h else []) ptr len prio (at_work h pid')
  unfolding mq_send send_locked send_wait notify_arrival
  room-run small room = ground (arith, curmsgs-Holds s)

  reject-run :
      ltb h.mqh_attr.mq_msgsize len ≡ true
      → mq_send 0 mqinfo ptr len prio h ≡ returns (fail Errno.emsgsize) h []
  unfolding mq_send send_locked
  reject-run big = ground (arith, s.free_lock)

  full-run :
      ltb h.mqh_attr.mq_msgsize len ≡ false
      → leb h.mqh_attr.mq_maxmsg (length q) ≡ true
      → mq_send 0 mqinfo ptr len prio h
        ≡ (if mqinfo.mqi_flags then returns (fail Errno.eagain) h [] else waits h)
  unfolding mq_send send_locked send_wait notify_arrival
  full-run small full = ground (arith, curmsgs-Holds s, s.free_lock, s.valid.positive)

  accept :
      len ≤ length ptr
      → ltb h.mqh_attr.mq_msgsize len ≡ false
      → leb h.mqh_attr.mq_maxmsg (length q) ≡ false
      → Meets accepted (sent ptr len prio) h q (mq_send 0 mqinfo ptr len prio h)
  accept enough small room = rw (room-run small room) (
      Accepted-Enqueued (sent ptr len prio) h q s _ pid' _ (
        enqueue-Enqueued ptr len prio _ (at_work h pid') s.used s.frees
          (IsQueue-header pid' h.mqh_nwait true s.valid) (ground (arith, curmsgs-Holds s))
          (not_ltb→le _ _ small) enough))

  full :
      (nonblock : Bool)
      → mqinfo.mqi_flags ≡ nonblock
      → ltb h.mqh_attr.mq_msgsize len ≡ false
      → leb h.mqh_attr.mq_maxmsg (length q) ≡ true
      → Meets
          (if nonblock then rejected Errno.eagain else blocked)
          (sent ptr len prio)
          h
          q
          (mq_send 0 mqinfo ptr len prio h)
  full true e small fill = full-run small fill ∙ rw e refl
  full false e small fill = full-run small fill ∙ rw e refl

  -- On an open handle, a mutex that can be had, a file between two calls and a buffer of at least
  -- `len` bytes, `mq_send` does what `send_verdict` says: it fails with EMSGSIZE or EAGAIN, or
  -- blocks, and leaves the file as it was; or it puts the message behind all those of its priority
  -- or above and before all others, and sends the signal and the wake-up that `effects` says.
  pub mq_send-Meets :
      len ≤ length ptr
      → Meets
          (send_verdict mqinfo.mqi_flags h.mqh_attr.mq_msgsize h.mqh_attr.mq_maxmsg len (length q))
          (sent ptr len prio)
          h
          q
          (mq_send 0 mqinfo ptr len prio h)
  mq_send-Meets enough = elim (Bool-cases (ltb h.mqh_attr.mq_msgsize len)) [
    | inl big ↦ rw big (reject-run big)
    | inr small ↦ rw small (elim (Bool-cases (leb h.mqh_attr.mq_maxmsg (length q))) [
      | inl fill ↦ rw fill (full mqinfo.mqi_flags refl small fill)
      | inr room ↦ rw room (accept enough small room)
    ])
  ]

-- A sender that comes back from `pthread_cond_wait`.
module _ (ptr : List ℕ) (len prio : ℕ) (h : MqHdr) (q : List Message) (s : Holds h q) where
  resume-run :
      leb h.mqh_attr.mq_maxmsg (length q) ≡ false
      → send_resume ptr len prio h ≡ send_enqueue [] ptr len prio (at_work h h.mqh_pid)
  unfolding send_resume send_wait
  resume-run room = ground (arith, curmsgs-Holds s)

  -- A sender that comes back from `pthread_cond_wait`, with a message that fits: while the queue is
  -- full it waits again and the file stays as it is; else its message is put in its place.
  pub send_resume-Meets :
      len ≤ h.mqh_attr.mq_msgsize
      → len ≤ length ptr
      → if leb h.mqh_attr.mq_maxmsg (length q)
        then send_resume ptr len prio h ≡ waits h
        else Accepted
            (sent ptr len prio)
            h
            q
            (if length q == 0 then cond_signal ∷ [] else [])
            h.mqh_pid
            (send_resume ptr len prio h)
  unfolding send_resume send_wait
  send_resume-Meets fits enough = elim (Bool-cases (leb h.mqh_attr.mq_maxmsg (length q))) [
    | inl fill ↦ rw fill (ground (arith, curmsgs-Holds s, s.free_lock))
    | inr room ↦
        rw (room, resume-run room)
          (Accepted-Enqueued (sent ptr len prio) h q s [] h.mqh_pid _ (
            enqueue-Enqueued ptr len prio [] (at_work h h.mqh_pid) s.used s.frees
              (IsQueue-header h.mqh_pid h.mqh_nwait true s.valid) (ground (arith, curmsgs-Holds s))
              fits enough))
  ]
