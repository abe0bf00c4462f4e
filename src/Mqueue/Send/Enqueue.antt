-- ===== src/Mqueue/Send/Enqueue.antt =====
-- The part of `mq_send` that fills a slot and links it.
use interprocess_comm.Prelude.{
  ℕ, ◌+◌, ◌≤◌, ◌<◌, ◌≡◌, refl, sym, ap, ap₂, ◌∙◌, ◌≢◌, subst, true, false, ◌||◌, some, List, [],
  ◌∷◌, ◌++◌, arith, has, All, if◌then◌else◌, ◌==◌, length, take, drop, take-take_append,
  length-take,
}
use interprocess_comm.Posix.{value, Effect, cond_signal, Outcome, returns}
use interprocess_comm.Mqueue.{MqHdr, unlock, set_curmsgs}
use interprocess_comm.Mqueue.Chain.{
  Chain, Message, message_of, contents, Chain-frame, contents-frame, Sized, sizes-frame,
}
use interprocess_comm.Mqueue.Spec.{insert_msg, insert_msg-IsSorted}
use interprocess_comm.Mqueue.Inv.{IsQueue}
use interprocess_comm.Mqueue.Send.{at_head, store, link, send_finish, send_enqueue}
use interprocess_comm.Mqueue.Send.Link.{Linked, place, link-Linked}
use interprocess_comm.Mqueue.Send.Place.{
  length-place, has-place, Distinct-place, All-place, contents-place,
}

-- The message of a call `mq_send(mqd, ptr, len, prio)`.
abbrev pub sent : (ptr : List ℕ) (len prio : ℕ) → Message
sent ptr len prio = record { prio = prio; bytes = take len ptr }

-- The count and the mutex, at the end of the call.
abbrev finished : MqHdr → MqHdr → MqHdr
finished h r = unlock (set_curmsgs (h.mqh_attr.mq_curmsgs + 1) r)

finish-finished :
    (fx : List Effect) (h r : MqHdr)
    → r.mqh_attr ≡ h.mqh_attr
    → send_finish fx r
      ≡ returns
          (value 0)
          (finished h r)
          (if h.mqh_attr.mq_curmsgs == 0 then fx ++ cond_signal ∷ [] else fx)
finish-finished fx h r e = ground arith

module _ (ptr : List ℕ) (len prio : ℕ) (h : MqHdr) (used fs : List ℕ)
    (v : IsQueue h used (h.mqh_free ∷ fs)) (fits : len ≤ h.mqh_attr.mq_msgsize)
    (enough : len ≤ length ptr) where
  abbrev new : ℕ
  new = h.mqh_free

  abbrev h₁ : MqHdr
  h₁ = store ptr len prio h

  abbrev used' : List ℕ
  used' = place h₁.msgs prio new used

  new-used : has new used ≡ false
  new-used = ground (arith, v.apart new)

  searched :
      (r : MqHdr) × (link (h.mqh_attr.mq_maxmsg + 1) prio new h.mqh_head at_head h₁ ≡ some r)
      × Linked prio new at_head used h₁ r
  searched =
      link-Linked (h.mqh_attr.mq_maxmsg + 1) prio new h₁ at_head h.mqh_head used v.free_chain.1
        (Chain-frame h.msgs h₁.msgs h.mqh_head used (λ a i. ground (arith, new-used)) v.used_chain)
        refl (omega (arith, v.total)) new-used v.used_distinct tt

  module _ (r : MqHdr) (l : Linked prio new at_head used h₁ r) where
    frees-Chain : Chain r.msgs r.mqh_free fs
    frees-Chain = rw (ap (λ (g : MqHdr). g.mqh_free) l.rest) (
        Chain-frame h.msgs r.msgs _ fs
          (λ a i. l.same a (ground (arith, v.apart a)) ∙ ground (arith, v.free_distinct))
          v.free_chain.2)

    message : message_of (h₁.msgs new) ≡ sent ptr len prio
    message = ground (arith, take-take_append len ptr (drop len (h.msgs new).body))

    seen : contents r.msgs used' ≡ insert_msg (sent ptr len prio) (contents h.msgs used)
    seen =
        contents-frame h₁.msgs r.msgs used' (λ a i. ground (arith, l.payload a))
        ∙ contents-place h₁.msgs prio new used (ground arith)
        ∙ ap₂ insert_msg message
            (contents-frame h.msgs h₁.msgs used (λ a i. ground (arith, new-used)))

    sizes : All (λ a. Sized h.mqh_attr.mq_msgsize (r.msgs a)) used'
    sizes =
        sizes-frame h₁.msgs r.msgs _ used' (λ a i. l.payload a)
          (All-place h₁.msgs prio new (λ a. Sized h.mqh_attr.mq_msgsize (h₁.msgs a)) used
            (ground
              (arith, take-take_append len ptr (drop len (h.msgs new).body), length-take len ptr))
            (sizes-frame h.msgs h₁.msgs _ used (λ a i. ground (arith, new-used)) v.sizes))

    used'-apart : (a : ℕ) → has a used' ≡ true → has a fs ≡ false
    used'-apart a i = ground (arith, v.apart a, v.free_distinct, has-place h₁.msgs prio new a used)

    attr : r.mqh_attr ≡ h.mqh_attr
    attr = ap (λ (g : MqHdr). g.mqh_attr) l.rest

    valid : IsQueue (finished h r) used' fs
    valid = record {
      used_chain = l.chain;
      free_chain = frees-Chain;
      used_distinct = Distinct-place h₁.msgs prio new used new-used v.used_distinct;
      free_distinct = v.free_distinct.1;
      apart = used'-apart;
      counted = omega (arith, v.counted, length-place h₁.msgs prio new used);
      total = rw attr (omega (arith, v.total, length-place h₁.msgs prio new used));
      positive = rw attr v.positive;
      sorted = rw seen (insert_msg-IsSorted (sent ptr len prio) _ v.sorted);
      sizes = rw attr sizes;
    }

-- What the call leaves: the message in its place, in the first free slot; the count; the mutex
-- released; everything else in the header as it was.
pub record Enqueued (w : Message) (fx : List Effect) (h : MqHdr) (used frees : List ℕ)
    (o : Outcome MqHdr ℕ) : Type 0 where
  pub after : MqHdr
  pub used' : List ℕ
  pub frees' : List ℕ
  pub run :
      o
      ≡ returns (value 0) after (if h.mqh_attr.mq_curmsgs == 0 then fx ++ cond_signal ∷ [] else fx)
  pub valid : IsQueue after used' frees'
  pub seen : contents after.msgs used' ≡ insert_msg w (contents h.msgs used)
  pub slots : (a : ℕ) → (has a used' || has a frees') ≡ (has a used || has a frees)
  pub rest : after ≡ record h {
    mqh_attr = record (h.mqh_attr) { mq_curmsgs = h.mqh_attr.mq_curmsgs + 1 };
    mqh_head = after.mqh_head;
    mqh_free = after.mqh_free;
    mqh_lock = false;
    msgs = after.msgs;
  }

module _ (ptr : List ℕ) (len prio : ℕ) (fx : List Effect) (h : MqHdr) where
  enqueue-run :
      (r : MqHdr)
      → h.mqh_free ≢ 0
      → link (h.mqh_attr.mq_maxmsg + 1) prio h.mqh_free h.mqh_head at_head (store ptr len prio h)
        ≡ some r
      → send_enqueue fx ptr len prio h ≡ send_finish fx r
  unfolding send_enqueue
  enqueue-run r nz run = let e : (h.mqh_free == 0) ≡ false = ground arith in rw (e, run) refl

  enqueue-cons :
      (used fs : List ℕ)
      → IsQueue h used (h.mqh_free ∷ fs)
      → len ≤ h.mqh_attr.mq_msgsize
      → len ≤ length ptr
      → Enqueued (sent ptr len prio) fx h used (h.mqh_free ∷ fs) (send_enqueue fx ptr len prio h)
  enqueue-cons used fs v fits enough =
      let (r, run, l) = searched ptr len prio h used fs v fits enough in
      let same = attr ptr len prio h used fs v fits enough r l in
      record {
        after = finished h r;
        used' = place (store ptr len prio h).msgs prio h.mqh_free used;
        frees' = fs;
        run = enqueue-run r v.free_chain.1 run ∙ finish-finished fx h r same;
        valid = valid ptr len prio h used fs v fits enough r l;
        seen = seen ptr len prio h used fs v fits enough r l;
        slots = λ a. ground (arith, has-place (store ptr len prio h).msgs prio h.mqh_free a used);
        rest = rest_lem r l.rest;
      }
    where
      rest_lem :
          (r : MqHdr)
          → r ≡ record (store ptr len prio h) { mqh_head = r.mqh_head; msgs = r.msgs }
          → finished h r ≡ record h {
            mqh_attr = record (h.mqh_attr) { mq_curmsgs = h.mqh_attr.mq_curmsgs + 1 };
            mqh_head = r.mqh_head;
            mqh_free = r.mqh_free;
            mqh_lock = false;
            msgs = r.msgs;
          }
      rest_lem r e = ground arith

  -- A queue with room has a free slot.
  pub enqueue-Enqueued :
      (used frees : List ℕ)
      → IsQueue h used frees
      → h.mqh_attr.mq_curmsgs < h.mqh_attr.mq_maxmsg
      → len ≤ h.mqh_attr.mq_msgsize
      → len ≤ length ptr
      → Enqueued (sent ptr len prio) fx h used frees (send_enqueue fx ptr len prio h)
  enqueue-Enqueued used [] v room fits enough = absurd (omega (arith, v.total, v.counted))
  enqueue-Enqueued used (f ∷ fs) v room fits enough =
      subst (λ a. Enqueued (sent ptr len prio) fx h used (a ∷ fs) (send_enqueue fx ptr len prio h))
        v.free_chain.0
        (enqueue-cons used fs (subst (λ a. IsQueue h used (a ∷ fs)) (sym v.free_chain.0) v) fits
          enough)
