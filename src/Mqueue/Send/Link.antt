-- ===== src/Mqueue/Send/Link.antt =====
-- The search of `mq_send` for the place of a new message, and the two links that it writes.
use interprocess_comm.Prelude.{
  ℕ, zero, suc, ◌<◌, ◌≡◌, refl, ◌≢◌, inl, inr, true, false, some, List, [], ◌∷◌, arith, has,
  Distinct, if◌then◌else◌, ◌==◌, ltb, length, ◌∙◌, Bool-cases, Bool, ◌||◌,
}
use interprocess_comm.Mqueue.{MsgHdr, MqHdr, set_next}
use interprocess_comm.Mqueue.Chain.{Chain, SamePayload, Chain-frame}
use interprocess_comm.Mqueue.Send.{Prev, at_head, at_msg, set_prev, link}

abbrev pub next_of : Prev → MqHdr → ℕ
next_of at_head h = h.mqh_head
next_of (at_msg a) h = (h.msgs a).msg_next

abbrev pub is_prev : ℕ → Prev → Bool
is_prev a at_head = false
is_prev a (at_msg b) = a == b

abbrev pub Apart : Prev → List ℕ → Type 0
Apart at_head ys = Unit
Apart (at_msg a) ys = has a ys ≡ false

-- The slots in order, with the new one before the first of a lower priority.
abbrev pub place : (ℕ → MsgHdr) → (prio new : ℕ) → List ℕ → List ℕ
place m prio new [] = new ∷ []
place m prio new (x ∷ xs) =
    if ltb (m x).msg_prio prio then new ∷ x ∷ xs else x ∷ place m prio new xs

pub record Linked (prio new : ℕ) (pmsg : Prev) (xs : List ℕ) (h h' : MqHdr) : Type 0 where
  pub chain : Chain h'.msgs (next_of pmsg h') (place h.msgs prio new xs)
  pub payload : SamePayload h.msgs h'.msgs
  pub same :
      (a : ℕ)
      → is_prev a pmsg || has a (new ∷ xs) ≡ false
      → (h'.msgs a).msg_next ≡ (h.msgs a).msg_next
  pub same_head : pmsg ≢ at_head → h'.mqh_head ≡ h.mqh_head
  pub rest : h' ≡ record h { mqh_head = h'.mqh_head; msgs = h'.msgs }

module _ (prio new : ℕ) (ne : new ≢ 0) (h : MqHdr) (xs : List ℕ) (out : has new xs ≡ false) where
  -- The new slot goes before a list that is left as it is.
  Chain-front :
      (h' : MqHdr) (pmsg : Prev) (index : ℕ)
      → Chain h.msgs index xs
      → next_of pmsg h' ≡ new
      → (h'.msgs new).msg_next ≡ index
      → ((a : ℕ) → has a xs ≡ true → (h'.msgs a).msg_next ≡ (h.msgs a).msg_next)
      → Chain h'.msgs (next_of pmsg h') (new ∷ xs)
  Chain-front h' pmsg index c first second same =
      (first, ne, rw second (Chain-frame h.msgs h'.msgs index xs same c))

  Linked-front :
      (pmsg : Prev) (index : ℕ)
      → Chain h.msgs index xs
      → Apart pmsg (new ∷ xs)
      → place h.msgs prio new xs ≡ new ∷ xs
      → Linked prio new pmsg xs h (set_prev pmsg new (set_next new index h))
  Linked-front at_head index c apart e = record {
    chain = rw e (
        Chain-front (set_prev at_head new (set_next new index h)) at_head index c refl
          (ground arith) (λ a i. ground arith));
    payload = λ a. ground arith;
    same = λ a i. ground arith;
    same_head = λ f. absurd (f refl);
    rest = refl;
  }
  Linked-front (at_msg b) index c apart e = record {
    chain = rw e (
        Chain-front (set_prev (at_msg b) new (set_next new index h)) (at_msg b) index c
          (ground arith) (ground arith) (λ a i. ground arith));
    payload = λ a. ground arith;
    same = λ a i. ground arith;
    same_head = λ f. refl;
    rest = refl;
  }

module _ (prio new : ℕ) (ne : new ≢ 0) (h : MqHdr) where
  Linked-end :
      (pmsg : Prev)
      → Apart pmsg (new ∷ [])
      → Linked prio new pmsg [] h (set_next new 0 (set_prev pmsg new h))
  Linked-end at_head apart = record {
    chain = (refl, ne, ground arith);
    payload = λ a. ground arith;
    same = λ a i. ground arith;
    same_head = λ f. absurd (f refl);
    rest = refl;
  }
  Linked-end (at_msg b) apart = record {
    chain = (ground arith, ne, ground arith);
    payload = λ a. ground arith;
    same = λ a i. ground arith;
    same_head = λ f. refl;
    rest = refl;
  }

  -- The search goes on behind `x`.
  Linked-next :
      (pmsg : Prev) (x : ℕ) (xs : List ℕ) (h' : MqHdr)
      → next_of pmsg h ≡ x
      → x ≢ 0
      → Apart pmsg (new ∷ x ∷ xs)
      → ltb (h.msgs x).msg_prio prio ≡ false
      → Linked prio new (at_msg x) xs h h'
      → Linked prio new pmsg (x ∷ xs) h h'
  Linked-next at_head x xs h' first nz apart low l = record {
    chain = rw low (l.same_head (λ e. ground arith) ∙ first, nz, l.chain);
    payload = l.payload;
    same = λ a i. l.same a (ground arith);
    same_head = λ f. absurd (f refl);
    rest = l.rest;
  }
  Linked-next (at_msg b) x xs h' first nz apart low l = record {
    chain = rw low (l.same b (ground arith) ∙ first, nz, l.chain);
    payload = l.payload;
    same = λ a i. l.same a (ground arith);
    same_head = λ f. l.same_head (λ e. ground arith);
    rest = l.rest;
  }

link-end :
    (fuel prio new : ℕ) (h : MqHdr) (pmsg : Prev)
    → link (suc fuel) prio new 0 pmsg h ≡ some (set_next new 0 (set_prev pmsg new h))
unfolding link
link-end fuel prio new h pmsg = refl

link-hit :
    (fuel prio new : ℕ) (h : MqHdr) (pmsg : Prev) (x : ℕ)
    → x ≢ 0
    → ltb (h.msgs x).msg_prio prio ≡ true
    → link (suc fuel) prio new x pmsg h ≡ some (set_prev pmsg new (set_next new x h))
unfolding link
link-hit fuel prio new h pmsg x nz high = ground arith

link-miss :
    (fuel prio new : ℕ) (h : MqHdr) (pmsg : Prev) (x : ℕ)
    → x ≢ 0
    → ltb (h.msgs x).msg_prio prio ≡ false
    → link (suc fuel) prio new x pmsg h ≡ link fuel prio new (h.msgs x).msg_next (at_msg x) h
unfolding link
link-miss fuel prio new h pmsg x nz low = ground arith

-- With enough fuel the search ends, and the new slot stands where `place` puts it.
pub link-Linked :
    (fuel prio new : ℕ) (h : MqHdr) (pmsg : Prev) (index : ℕ) (xs : List ℕ)
    → new ≢ 0
    → Chain h.msgs index xs
    → next_of pmsg h ≡ index
    → length xs < fuel
    → has new xs ≡ false
    → Distinct xs
    → Apart pmsg (new ∷ xs)
    → (h' : MqHdr) × (link fuel prio new index pmsg h ≡ some h') × Linked prio new pmsg xs h h'
link-Linked zero prio new h pmsg index xs ne c first f out d apart = absurd (omega arith)
link-Linked (suc fuel) prio new h pmsg index [] ne c first f out d apart = (
  set_next new 0 (set_prev pmsg new h),
  rw c (link-end fuel prio new h pmsg),
  Linked-end prio new ne h pmsg apart,
)
link-Linked (suc fuel) prio new h pmsg index (x ∷ xs) ne c first f out d apart =
    elim (Bool-cases (ltb (h.msgs x).msg_prio prio)) [
      | inl high ↦ (
        set_prev pmsg new (set_next new x h),
        rw c.0 (link-hit fuel prio new h pmsg x c.1 high),
        Linked-front prio new ne h (x ∷ xs) out pmsg x (refl, c.1, c.2) apart (rw high refl),
      )
      | inr low ↦
          let (h', run, l) =
            link-Linked fuel prio new h (at_msg x) (h.msgs x).msg_next xs ne c.2 refl (omega arith)
              (ground arith) d.1 (ground arith) in
          (
            h',
            rw c.0 (link-miss fuel prio new h pmsg x c.1 low ∙ run),
            Linked-next prio new ne h pmsg x xs h' (first ∙ c.0) c.1 apart low l,
          )
    ]
