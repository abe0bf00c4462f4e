-- ===== src/Mqueue/System/Keeps.antt =====
-- What each stretch of a call leaves of the file and of the count of waiting receivers.
use interprocess_comm.Prelude.{
  ℕ, ◌+◌, ◌-◌, ◌≤◌, ◌≡◌, refl, ap, subst, ◌∙◌, ◌⊎◌, ◌&&◌, inl, inr, Bool, true, false, Option, List,
  [], ◌∷◌, arith, if◌then◌else◌, ◌==◌, ltb, leb, length, Bool-cases,
}
use interprocess_comm.Posix.{fail, cond_signal, Effect, Outcome, returns, waits, out_of_fuel}
use interprocess_comm.Posix.Errno
use interprocess_comm.Mqueue.Handle.{notify-SameQueue}
use interprocess_comm.Mqueue.{MqAttr, SigEvent, MqHdr, MqInfo, mqi_magic_open}
use interprocess_comm.Mqueue.Chain.{Message}
use interprocess_comm.Mqueue.Spec.{insert_msg}
use interprocess_comm.Mqueue.Inv.{Holds, IsQueue-header}
use interprocess_comm.Mqueue.Send.{mq_send, send_resume}
use interprocess_comm.Mqueue.Send.Enqueue.{sent}
use interprocess_comm.Mqueue.Send.Refine.{
  Verdict, rejected, blocked, accepted, Meets, Accepted, mq_send-Meets, send_resume-Meets,
}
use interprocess_comm.Mqueue.Receive.{Received, mq_receive, receive_resume}
use interprocess_comm.Mqueue.Receive.Dequeue.{Delivered}
use interprocess_comm.Mqueue.Receive.Refine.{
  Meets as RMeets, mq_receive-Meets, receive_resume-empty, receive_resume-Delivered,
}
use interprocess_comm.Mqueue.Notify.{mq_notify}

-- A call gets past its first two tests, or not.
entry-cases :
    (n : ℕ) (info : MqInfo)
    → ((n ≡ 0) × (info.mqi_magic ≡ mqi_magic_open))
      ⊎ ((info.mqi_magic == mqi_magic_open) && (n == 0) ≡ false)
entry-cases n info = ground arith

-- The error of a call that does not get past them.
abbrev refusal : ℕ → MqInfo → ℕ
refusal n info = if info.mqi_magic == mqi_magic_open then n else Errno.ebadf

module _ (n : ℕ) (info : MqInfo) where
  send-refused :
      (ptr : List ℕ) (len prio : ℕ) (h : MqHdr)
      → (info.mqi_magic == mqi_magic_open) && (n == 0) ≡ false
      → mq_send n info ptr len prio h ≡ returns (fail (refusal n info)) h []
  unfolding mq_send
  send-refused ptr len prio h e = ground arith

  receive-refused :
      (maxlen : ℕ) (want_prio : Bool) (h : MqHdr)
      → (info.mqi_magic == mqi_magic_open) && (n == 0) ≡ false
      → mq_receive n info maxlen want_prio h ≡ returns (fail (refusal n info)) h []
  unfolding mq_receive
  receive-refused maxlen want_prio h e = ground arith

-- The file after a stretch of a call: in order, with `w` receivers counted as waiting.
pub record InOrder (msgsize w : ℕ) (h : MqHdr) : Type 0 where
  pub queue : List Message
  pub holds : Holds h queue
  pub nwait : h.mqh_nwait ≡ w
  pub size : h.mqh_attr.mq_msgsize ≡ msgsize

-- A call returns with `w` receivers waiting, or waits with `w'`; it never fails to end.
abbrev pub Keeps : {A : Type 0} → (msgsize w w' : ℕ) → Outcome MqHdr A → Type 0
Keeps k w w' (returns r h fx) = InOrder k w h
Keeps k w w' (waits h) = InOrder k w' h
Keeps k w w' out_of_fuel = ⊥

module _ {k w : ℕ} {h : MqHdr} (o : InOrder k w h) where
  Keeps-Accepted :
      {m : Message} {fx : List Effect} {pid : ℕ} (r : Outcome MqHdr ℕ)
      → Accepted m h o.queue fx pid r
      → Keeps k w w r
  Keeps-Accepted {m} r a = rw a.run (record {
    queue = insert_msg m o.queue;
    holds = a.holds;
    nwait = a.nwait ∙ o.nwait;
    size = a.msgsize ∙ o.size;
  })

  Keeps-Meets :
      (v : Verdict) (m : Message) (r : Outcome MqHdr ℕ) → Meets v m h o.queue r → Keeps k w w r
  Keeps-Meets (rejected e) m r e' = rw e' o
  Keeps-Meets blocked m r e' = rw e' o
  Keeps-Meets accepted m r a = Keeps-Accepted r a

  open_send :
      (info : MqInfo) (ptr : List ℕ) (len prio : ℕ)
      → len ≤ length ptr
      → info.mqi_magic ≡ mqi_magic_open
      → Keeps k w w (mq_send 0 info ptr len prio h)
  open_send info ptr len prio enough m =
      Keeps-Meets _ _ _ (mq_send-Meets info ptr len prio h o.queue m o.holds enough)

  pub send-Keeps :
      (n : ℕ) (info : MqInfo) (ptr : List ℕ) (len prio : ℕ)
      → len ≤ length ptr
      → Keeps k w w (mq_send n info ptr len prio h)
  send-Keeps n info ptr len prio enough = elim (entry-cases n info) [
    | inl e ↦ rw e.0 (open_send info ptr len prio enough e.1)
    | inr e ↦ rw (send-refused n info ptr len prio h e) o
  ]

  pub resume_send-Keeps :
      (ptr : List ℕ) (len prio : ℕ)
      → len ≤ k
      → len ≤ length ptr
      → Keeps k w w (send_resume ptr len prio h)
  resume_send-Keeps ptr len prio fits enough =
      elim (Bool-cases (leb h.mqh_attr.mq_maxmsg (length o.queue))) [
        | inl full ↦ rw (rw full at woken) o
        | inr room ↦ Keeps-Accepted _ (rw room at woken)
      ]
    where
      woken :
          if leb h.mqh_attr.mq_maxmsg (length o.queue)
          then send_resume ptr len prio h ≡ waits h
          else Accepted
              (sent ptr len prio)
              h
              o.queue
              (if length o.queue == 0 then cond_signal ∷ [] else [])
              h.mqh_pid
              (send_resume ptr len prio h)
      woken = send_resume-Meets ptr len prio h o.queue o.holds (omega (arith, o.size)) enough

  Keeps-Delivered :
      {want_prio : Bool} {v : Message} {q : List Message} {w₁ : ℕ} (w₂ : ℕ)
      (r : Outcome MqHdr Received)
      → Delivered want_prio h v q w₁ r
      → Keeps k w₁ w₂ r
  Keeps-Delivered {q = q} w₂ r d =
      rw d.run
        (record { queue = q; holds = d.holds; nwait = d.nwait_after; size = d.msgsize ∙ o.size })

  Holds-counted : (q : List Message) (m : ℕ) → Holds h q → Holds (record h { mqh_nwait = m }) q
  Holds-counted q m s = record {
    used = s.used;
    frees = s.frees;
    valid = IsQueue-header h.mqh_pid m h.mqh_lock s.valid;
    seen = s.seen;
    free_lock = s.free_lock;
  }

  Keeps-RMeets :
      (nonblock want_prio : Bool) (maxlen : ℕ) (q : List Message) (r : Outcome MqHdr Received)
      → Holds h q
      → RMeets nonblock want_prio maxlen h q r
      → Keeps k w (w + 1) r
  Keeps-RMeets nonblock want_prio maxlen (v ∷ q) r s m =
      elim (Bool-cases (ltb maxlen h.mqh_attr.mq_msgsize)) [
        | inl small ↦ rw (rw small at m) o
        | inr large ↦ rw o.nwait at (Keeps-Delivered (w + 1) r (rw large at m))
      ]
  Keeps-RMeets true want_prio maxlen [] r s m =
      elim (Bool-cases (ltb maxlen h.mqh_attr.mq_msgsize)) [
        | inl small ↦ rw (rw small at m) o
        | inr large ↦ rw (rw large at m) o
      ]
  Keeps-RMeets false want_prio maxlen [] r s m =
      elim (Bool-cases (ltb maxlen h.mqh_attr.mq_msgsize)) [
        | inl small ↦ rw (rw small at m) o
        | inr large ↦ rw (rw large at m) (record {
          queue = [];
          holds = Holds-counted [] (h.mqh_nwait + 1) s;
          nwait = ap (λ (n : ℕ). n + 1) o.nwait;
          size = o.size;
        })
      ]

  open_receive :
      (info : MqInfo) (maxlen : ℕ) (want_prio : Bool)
      → info.mqi_magic ≡ mqi_magic_open
      → Keeps k w (w + 1) (mq_receive 0 info maxlen want_prio h)
  open_receive info maxlen want_prio m =
      Keeps-RMeets info.mqi_flags want_prio maxlen o.queue _ o.holds
        (mq_receive-Meets info maxlen want_prio h m o.queue o.holds)

  pub receive-Keeps :
      (n : ℕ) (info : MqInfo) (maxlen : ℕ) (want_prio : Bool)
      → Keeps k w (w + 1) (mq_receive n info maxlen want_prio h)
  receive-Keeps n info maxlen want_prio = elim (entry-cases n info) [
    | inl e ↦ rw e.0 (open_receive info maxlen want_prio e.1)
    | inr e ↦ rw (receive-refused n info maxlen want_prio h e) o
  ]

  woken_receive :
      (want_prio : Bool) (q : List Message)
      → Holds h q
      → Keeps k (w - 1) w (receive_resume want_prio h)
  woken_receive want_prio [] s = rw (receive_resume-empty want_prio h s) o
  woken_receive want_prio (v ∷ q) s =
      let d = receive_resume-Delivered want_prio h v q s in
      subst (λ n. Keeps k (n - 1) w (receive_resume want_prio h)) o.nwait
        (Keeps-Delivered w (receive_resume want_prio h) d)

  pub resume_receive-Keeps : (want_prio : Bool) → Keeps k (w - 1) w (receive_resume want_prio h)
  resume_receive-Keeps want_prio = woken_receive want_prio o.queue o.holds

  blocked-Meets :
      (v : Verdict) (m : Message) (r : Outcome MqHdr ℕ) (h' : MqHdr)
      → Meets v m h o.queue r
      → r ≡ waits h'
      → v ≡ blocked
  blocked-Meets (rejected e) m r h' e₁ e₂ = absurd (ground arith)
  blocked-Meets blocked m r h' e₁ e₂ = refl
  blocked-Meets accepted m r h' a e = absurd (ground (arith, a.run))

  -- A call that blocks has passed the test of its length.
  pub blocked-fits :
      (n : ℕ) (info : MqInfo) (ptr : List ℕ) (len prio : ℕ) (h' : MqHdr)
      → len ≤ length ptr
      → mq_send n info ptr len prio h ≡ waits h'
      → len ≤ k
  blocked-fits n info ptr len prio h' enough e = elim (entry-cases n info) [
    | inl e' ↦
        let e₂ : mq_send 0 info ptr len prio h ≡ waits h' =
          subst (λ j. mq_send j info ptr len prio h ≡ waits h') e'.0 e in
        let b =
          blocked-Meets _ _ _ h' (mq_send-Meets info ptr len prio h o.queue e'.1 o.holds enough)
            e₂ in
        ground (arith, o.size, b)
    | inr e' ↦ absurd (ground (arith, send-refused n info ptr len prio h e'))
  ]

  pub notify-Keeps :
      (n pid : ℕ) (kill : ℕ → Option ℕ) (info : MqInfo) (e : Option SigEvent)
      → Keeps k w w (mq_notify n kill pid info e h)
  notify-Keeps n pid kill info e =
      let m = notify-SameQueue n kill pid info e h o.queue o.holds in
      rw m.run (record {
        queue = o.queue;
        holds = m.holds;
        nwait = m.nwait ∙ o.nwait;
        size = ap (λ (a : MqAttr). a.mq_msgsize) m.attr ∙ o.size;
      })
