-- ===== src/Mqueue/Open/Free.antt =====
-- The queue file that `mq_open` makes, and the slots in it (mq_open.c).
use interprocess_comm.Prelude.{
  ℕ, zero, suc, ◌+◌, ◌-◌, ◌*◌, ◌≤◌, ◌<◌, ◌≡◌, refl, ap, ◌∙◌, true, false, List, [], ◌∷◌, arith, has,
  Distinct, length,
}
use interprocess_comm.Mqueue.{MsgHdr, SigEvent, MqHdr, Sizes, round_msgsize, update}
use native.Mathlib.Nat.{div-add-mod', mod-lt}
use interprocess_comm.Mqueue.Attr.{filesize_of}
use interprocess_comm.Mqueue.Chain.{Chain}
use interprocess_comm.Mqueue.Inv.{Holds}
use interprocess_comm.Mqueue.Open.{init_free, stride_of, init_header}

-- `n` slots from offset `lo` on.
abbrev pub slots : (n lo stride : ℕ) → List ℕ
slots zero lo stride = []
slots (suc n) lo stride = lo ∷ slots n (lo + stride) stride

length-slots : (n lo stride : ℕ) → length (slots n lo stride) ≡ n
length-slots zero lo stride = refl
length-slots (suc n) lo stride = ap suc (length-slots n (lo + stride) stride)

init_free-below :
    (k lo stride : ℕ) (m : ℕ → MsgHdr) (a : ℕ) → a < lo → init_free k lo stride m a ≡ m a
unfolding init_free
init_free-below zero lo stride m a lt = ground arith
init_free-below (suc k) lo stride m a lt =
    init_free-below k (lo + stride) stride _ a (omega arith) ∙ ground arith

not-has-slots : (n lo stride a : ℕ) → a < lo → has a (slots n lo stride) ≡ false
not-has-slots zero lo stride a lt = refl
not-has-slots (suc n) lo stride a lt =
    ground (arith, not-has-slots n (lo + stride) stride a (omega arith))

Distinct-slots : (n lo stride : ℕ) → 0 < stride → Distinct (slots n lo stride)
Distinct-slots zero lo stride p = tt
Distinct-slots (suc n) lo stride p =
    (not-has-slots n (lo + stride) stride lo (omega arith), Distinct-slots n (lo + stride) stride p)

-- The loop over `msg_next` links the slots in their order.
Chain-init_free :
    (k lo stride : ℕ) (m : ℕ → MsgHdr)
    → 0 < lo
    → 0 < stride
    → Chain (init_free k lo stride m) lo (slots (suc k) lo stride)
unfolding init_free
Chain-init_free zero lo stride m p q = (refl, omega arith, ground arith)
Chain-init_free (suc k) lo stride m p q =
    let m' = update m lo (record (m lo) { msg_next = lo + stride }) in
    let e : (init_free k (lo + stride) stride m' lo).msg_next ≡ lo + stride =
      ap (λ (c : MsgHdr). c.msg_next) (init_free-below k (lo + stride) stride m' lo (omega arith))
      ∙ ground arith in
    (refl, omega arith, rw e (Chain-init_free k (lo + stride) stride m' (omega arith) q))

in-slots :
    (n lo stride a : ℕ)
    → has a (slots n lo stride) ≡ true
    → (lo ≤ a) × (a + stride ≤ lo + n * stride)
in-slots zero lo stride a i = absurd (ground arith)
in-slots (suc n) lo stride a i = ground (arith, in-slots n (lo + stride) stride a)

apart-slots :
    (n lo stride a b : ℕ)
    → has a (slots n lo stride) ≡ true
    → has b (slots n lo stride) ≡ true
    → a < b
    → a + stride ≤ b
apart-slots zero lo stride a b i j lt = absurd (ground arith)
apart-slots (suc n) lo stride a b i j lt = ground (
  arith,
  in-slots n (lo + stride) stride a,
  in-slots n (lo + stride) stride b,
  apart-slots n (lo + stride) stride a b,
)

-- A slot, with its header and room for a message of `mq_msgsize` bytes, lies behind the header of the
-- queue and inside the file, and slots do not overlap.
pub record Laid (z : Sizes) (h : MqHdr) (frees : List ℕ) : Type 0 where
  pub inside :
      (a : ℕ)
      → has a frees ≡ true
      → (z.sizeof_mq_hdr ≤ a)
        × (a + z.sizeof_msg_hdr + h.mqh_attr.mq_msgsize ≤ filesize_of z h.mqh_attr)
  pub separate :
      (a b : ℕ)
      → has a frees ≡ true
      → has b frees ≡ true
      → a < b
      → a + z.sizeof_msg_hdr + h.mqh_attr.mq_msgsize ≤ b

-- MSGSIZE rounds up.
round_msgsize-le : (z : Sizes) (i : ℕ) → 0 < z.sizeof_long → i ≤ round_msgsize z i
unfolding round_msgsize
round_msgsize-le z i some =
    omega (
      arith,
      div-add-mod' (i + z.sizeof_long - 1) z.sizeof_long,
      mod-lt (i + z.sizeof_long - 1) some,
    )

module _ (z : Sizes) (maxmsg msgsize : ℕ) (m : ℕ → MsgHdr) (event : SigEvent)
    (header : 0 < z.sizeof_mq_hdr) (slot : 0 < z.sizeof_msg_hdr) (long : 0 < z.sizeof_long) where
  abbrev h : MqHdr
  h = init_header z maxmsg msgsize m event

  abbrev frees : List ℕ
  frees = slots maxmsg z.sizeof_mq_hdr (stride_of z msgsize)

  frees-Chain : (n : ℕ) → maxmsg ≡ suc n → Chain h.msgs h.mqh_free frees
  unfolding init_header
  frees-Chain n e =
      let e' : maxmsg - 1 ≡ n = omega arith in
      rw (e', e) (Chain-init_free n z.sizeof_mq_hdr (stride_of z msgsize) m header (omega arith))

  -- A queue file as `mq_open` makes it, for at least one message, is empty, with all its slots free,
  -- each with room for its header and `mq_msgsize` bytes, inside the file and apart from the others.
  pub init_header-Holds : 0 < maxmsg → (s : Holds h []) × (s.used ≡ []) × Laid z h s.frees
  unfolding init_header filesize_of
  init_header-Holds some_room = (
    record {
      used = [];
      frees = frees;
      valid = record {
        used_chain = refl;
        free_chain = frees-Chain (maxmsg - 1) (omega arith);
        used_distinct = tt;
        free_distinct = Distinct-slots maxmsg _ _ (omega arith);
        apart = λ a i. absurd (ground arith);
        counted = refl;
        total = omega (arith, length-slots maxmsg z.sizeof_mq_hdr (stride_of z msgsize));
        positive = some_room;
        sorted = tt;
        sizes = tt;
      };
      seen = refl;
      free_lock = refl;
    },
    refl,
    record {
      inside = λ a i.
          let (behind, before) = in-slots maxmsg z.sizeof_mq_hdr (stride_of z msgsize) a i in
          (behind, omega (arith, round_msgsize-le z msgsize long));
      separate = λ a b i j lt. omega (
        arith,
        apart-slots maxmsg z.sizeof_mq_hdr (stride_of z msgsize) a b i j lt,
        round_msgsize-le z msgsize long,
      );
    },
  )
