-- ===== src/Mqueue/Inv.antt =====
-- The state of a queue file between two calls.
use interprocess_comm.Prelude.{
  ℕ, suc, ◌+◌, ◌<◌, ◌≡◌, refl, ap, sym, ◌∙◌, Bool, true, false, List, [], ◌∷◌, has, Distinct, All,
  length,
}
use interprocess_comm.Mqueue.{MsgHdr, MqHdr}
use interprocess_comm.Mqueue.Chain.{Chain, Message, contents, Sized}
use interprocess_comm.Mqueue.Spec.{IsSorted}

-- The slots `used` carry messages, the slots `frees` none, and the header counts them.
pub record IsQueue (h : MqHdr) (used frees : List ℕ) : Type 0 where
  pub used_chain : Chain h.msgs h.mqh_head used
  pub free_chain : Chain h.msgs h.mqh_free frees
  pub used_distinct : Distinct used
  pub free_distinct : Distinct frees
  pub apart : (a : ℕ) → has a used ≡ true → has a frees ≡ false
  pub counted : h.mqh_attr.mq_curmsgs ≡ length used
  pub total : length used + length frees ≡ h.mqh_attr.mq_maxmsg
  pub positive : 0 < h.mqh_attr.mq_maxmsg
  pub sorted : IsSorted (contents h.msgs used)
  pub sizes : All (λ a. Sized h.mqh_attr.mq_msgsize (h.msgs a)) used

-- The file holds the messages `q`, and no other call is under way in it.
pub record Holds (h : MqHdr) (q : List Message) : Type 0 where
  pub used : List ℕ
  pub frees : List ℕ
  pub valid : IsQueue h used frees
  pub seen : contents h.msgs used ≡ q
  pub free_lock : h.mqh_lock ≡ false

-- The fields that the lists do not depend on.
pub IsQueue-header :
    {h : MqHdr} {used frees : List ℕ} (pid nwait : ℕ) (held : Bool)
    → IsQueue h used frees
    → IsQueue (record h { mqh_pid = pid; mqh_nwait = nwait; mqh_lock = held }) used frees
IsQueue-header pid nwait held v = record {
  used_chain = v.used_chain;
  free_chain = v.free_chain;
  used_distinct = v.used_distinct;
  free_distinct = v.free_distinct;
  apart = v.apart;
  counted = v.counted;
  total = v.total;
  positive = v.positive;
  sorted = v.sorted;
  sizes = v.sizes;
}

pub length-contents : (m : ℕ → MsgHdr) (xs : List ℕ) → length (contents m xs) ≡ length xs
length-contents m [] = refl
length-contents m (x ∷ xs) = ap suc (length-contents m xs)

pub curmsgs-Holds : {h : MqHdr} {q : List Message} → Holds h q → h.mqh_attr.mq_curmsgs ≡ length q
curmsgs-Holds {h} s = s.valid.counted ∙ sym (length-contents h.msgs s.used) ∙ ap length s.seen
