-- ===== src/Mqueue/Receive/Dequeue.antt =====
-- `receive_dequeue` beside the queue as a list of messages (mq_receive.c).
use interprocess_comm.Prelude.{
  ℕ, suc, ◌-◌, ◌≡◌, refl, ◌∙◌, ap, ap₂, sym, subst, Bool, true, false, none, some, List, [], ◌∷◌,
  arith, if◌then◌else◌, ◌==◌, length, take, has,
}
use interprocess_comm.Posix.{value, cond_signal, Outcome, returns}
use interprocess_comm.Mqueue.{MsgHdr, MqHdr, unlock, set_curmsgs}
use interprocess_comm.Mqueue.Chain.{
  Chain, Message, message_of, contents, Chain-frame, contents-frame, sizes-frame,
}
use interprocess_comm.Mqueue.Inv.{IsQueue, Holds, IsQueue-header, length-contents}
use interprocess_comm.Mqueue.Receive.{Received, give_back, receive_dequeue}

-- What the caller is given of a message.
abbrev pub delivery : (want_prio : Bool) → Message → Received
delivery want_prio v = record {
  len = length v.bytes;
  bytes = v.bytes;
  prio = if want_prio then some v.prio else none;
}

-- The first message has been given out, and the queue holds the others.
pub record Delivered (want_prio : Bool) (h : MqHdr) (v : Message) (q : List Message) (nwait : ℕ)
    (o : Outcome MqHdr Received) : Type 0 where
  pub after : MqHdr
  pub run :
      o
      ≡ returns
          (value (delivery want_prio v))
          after
          (if suc (length q) == h.mqh_attr.mq_maxmsg then cond_signal ∷ [] else [])
  pub holds : Holds after q
  pub nwait_after : after.mqh_nwait ≡ nwait
  pub pid : after.mqh_pid ≡ h.mqh_pid
  pub event : after.mqh_event ≡ h.mqh_event
  pub maxmsg : after.mqh_attr.mq_maxmsg ≡ h.mqh_attr.mq_maxmsg
  pub msgsize : after.mqh_attr.mq_msgsize ≡ h.mqh_attr.mq_msgsize

abbrev pub at_work : MqHdr → ℕ → MqHdr
at_work h nwait = record h { mqh_nwait = nwait; mqh_lock = true }

abbrev finished : MqHdr → MqHdr
finished h = unlock (set_curmsgs (h.mqh_attr.mq_curmsgs - 1) (give_back h.mqh_head h))

module _ (h : MqHdr) (xs frees : List ℕ) (v : IsQueue h (h.mqh_head ∷ xs) frees) where
  abbrev index : ℕ
  index = h.mqh_head

  index-xs : has index xs ≡ false
  index-xs = v.used_distinct.0

  index-frees : has index frees ≡ false
  index-frees = v.apart index (ground arith)

  valid : IsQueue (finished h) xs (index ∷ frees)
  valid = record {
    used_chain =
        Chain-frame h.msgs (finished h).msgs _ xs (λ a i. ground (arith, index-xs)) v.used_chain.2;
    free_chain = (
      refl,
      v.used_chain.1,
      Chain-frame h.msgs (finished h).msgs _ frees (λ a i. ground (arith, index-frees))
          (subst (λ p. Chain h.msgs p frees) (ground arith) v.free_chain),
    );
    used_distinct = v.used_distinct.1;
    free_distinct = (index-frees, v.free_distinct);
    apart = λ a i. ground (arith, v.apart a, index-xs);
    counted = omega (arith, v.counted);
    total = omega (arith, v.total);
    positive = v.positive;
    sorted = rw same v.sorted.1;
    sizes = sizes-frame h.msgs (finished h).msgs _ xs (λ a i. ground arith) v.sizes.1;
  }
    where
      same : contents (finished h).msgs xs ≡ contents h.msgs xs
      same = contents-frame h.msgs (finished h).msgs xs (λ a i. ground arith)

module _ (want_prio : Bool) (w : Message) (q : List Message) where
  copied :
      (c : MsgHdr)
      → length (take c.msg_len c.body) ≡ c.msg_len
      → record {
        len = c.msg_len;
        bytes = take c.msg_len c.body;
        prio = if want_prio then some c.msg_prio else none;
      }
        ≡ delivery want_prio (message_of c)
  copied c e = ground arith

  dequeue-cons :
      (h : MqHdr) (xs frees : List ℕ)
      → IsQueue h (h.mqh_head ∷ xs) frees
      → contents h.msgs (h.mqh_head ∷ xs) ≡ w ∷ q
      → Delivered want_prio h w q h.mqh_nwait (receive_dequeue want_prio h)
  unfolding receive_dequeue
  dequeue-cons h xs frees v e =
      let front : message_of (h.msgs h.mqh_head) ≡ w = ground arith in
      let rest : contents h.msgs xs ≡ q = ground arith in
      let nz : (h.mqh_head == 0) ≡ false = ground (arith, v.used_chain.1) in
      record {
        after = finished h;
        run = rw nz (
            ap₂
              (λ r n.
                returns (value r) (finished h)
                  (if n == h.mqh_attr.mq_maxmsg then cond_signal ∷ [] else []))
              (copied (h.msgs h.mqh_head) v.sizes.0.1 ∙ ap (delivery want_prio) front)
              (omega (arith, v.counted, length-contents h.msgs xs, ap length rest)));
        holds = record {
          used = xs;
          frees = h.mqh_head ∷ frees;
          valid = valid h xs frees v;
          seen = contents-frame h.msgs (finished h).msgs xs (λ a i. ground arith) ∙ rest;
          free_lock = refl;
        };
        nwait_after = refl;
        pid = refl;
        event = refl;
        maxmsg = refl;
        msgsize = refl;
      }

  dequeue-Delivered :
      (h : MqHdr) (used frees : List ℕ)
      → IsQueue h used frees
      → contents h.msgs used ≡ w ∷ q
      → Delivered want_prio h w q h.mqh_nwait (receive_dequeue want_prio h)
  dequeue-Delivered h [] frees v e = absurd (ground arith)
  dequeue-Delivered h (x ∷ xs) frees v e =
      dequeue-cons h xs frees (subst (λ a. IsQueue h (a ∷ xs) frees) (sym v.used_chain.0) v)
        (subst (λ a. contents h.msgs (a ∷ xs) ≡ w ∷ q) (sym v.used_chain.0) e)

module _ (want_prio : Bool) (h : MqHdr) where
  -- A file with a message, while the call holds the mutex.
  pub taken :
      (w : Message) (q : List Message) (nwait : ℕ)
      → Holds h (w ∷ q)
      → Delivered want_prio h w q nwait (receive_dequeue want_prio (at_work h nwait))
  taken w q nwait s =
      let d =
        dequeue-Delivered want_prio w q (at_work h nwait) s.used s.frees
          (IsQueue-header h.mqh_pid nwait true s.valid) s.seen in
      record {
        after = d.after;
        run = d.run;
        holds = d.holds;
        nwait_after = d.nwait_after;
        pid = d.pid;
        event = d.event;
        maxmsg = d.maxmsg;
        msgsize = d.msgsize;
      }
