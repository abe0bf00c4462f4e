-- ===== src/Mqueue/Chain.antt =====
-- The two linked lists of a queue file, as lists of byte offsets, and the messages on them.
use interprocess_comm.Prelude.{
  ℕ, ◌≡◌, refl, ◌≢◌, ap, ap₂, sym, ◌∙◌, length, true, List, [], ◌∷◌, arith, has, take, All, ◌≤◌,
}
use interprocess_comm.Mqueue.{MsgHdr}

-- From `p` the `msg_next` fields lead through the slots `xs` to 0.
abbrev pub Chain : (ℕ → MsgHdr) → ℕ → List ℕ → Type 0
Chain m p [] = p ≡ 0
Chain m p (x ∷ xs) = (p ≡ x) × (x ≢ 0) × Chain m (m x).msg_next xs

-- What a client sees of a message.
pub record Message : Type 0 where
  pub prio : ℕ
  pub bytes : List ℕ

abbrev pub message_of : MsgHdr → Message
message_of c = record { prio = c.msg_prio; bytes = take c.msg_len c.body }

abbrev pub contents : (ℕ → MsgHdr) → List ℕ → List Message
contents m [] = []
contents m (x ∷ xs) = message_of (m x) ∷ contents m xs

-- The slots `m` and `m'` differ in `msg_next` alone.
abbrev pub SamePayload : (ℕ → MsgHdr) → (ℕ → MsgHdr) → Type 0
SamePayload m m' = (a : ℕ) → m' a ≡ record (m a) { msg_next = (m' a).msg_next }

-- A list survives any change that spares the `msg_next` of its own slots.
pub Chain-frame :
    (m m' : ℕ → MsgHdr) (p : ℕ) (xs : List ℕ)
    → ((a : ℕ) → has a xs ≡ true → (m' a).msg_next ≡ (m a).msg_next)
    → Chain m p xs
    → Chain m' p xs
Chain-frame m m' p [] same c = c
Chain-frame m m' p (x ∷ xs) same c =
    let e : (m' x).msg_next ≡ (m x).msg_next = same x (ground arith) in
    (c.0, c.1, rw e (Chain-frame m m' _ xs (λ a i. same a (ground arith)) c.2))

pub contents-frame :
    (m m' : ℕ → MsgHdr) (xs : List ℕ)
    → ((a : ℕ) → has a xs ≡ true → message_of (m' a) ≡ message_of (m a))
    → contents m' xs ≡ contents m xs
contents-frame m m' [] same = refl
contents-frame m m' (x ∷ xs) same =
    ap₂ ◌∷◌ (same x (ground arith)) (contents-frame m m' xs (λ a i. same a (ground arith)))

-- The recorded length fits the queue's `mq_msgsize`, and the body has as many bytes.
abbrev pub Sized : ℕ → MsgHdr → Type 0
Sized k c = (c.msg_len ≤ k) × (length (take c.msg_len c.body) ≡ c.msg_len)

-- Sizes survive a change that keeps lengths and bodies.
pub sizes-frame :
    (m m' : ℕ → MsgHdr) (k : ℕ) (xs : List ℕ)
    → ((a : ℕ) → has a xs ≡ true → m' a ≡ record (m a) { msg_next = (m' a).msg_next })
    → All (λ a. Sized k (m a)) xs
    → All (λ a. Sized k (m' a)) xs
sizes-frame m m' k [] same all = tt
sizes-frame m m' k (x ∷ xs) same all =
    let e = same x (ground arith) in
    (
      (
        rw (ap (λ (c : MsgHdr). c.msg_len) e) all.0.0,
        ap (λ (c : MsgHdr). length (take c.msg_len c.body)) e
            ∙ all.0.1
            ∙ sym (ap (λ (c : MsgHdr). c.msg_len) e),
      ),
      sizes-frame m m' k xs (λ a i. same a (ground arith)) all.1,
    )
