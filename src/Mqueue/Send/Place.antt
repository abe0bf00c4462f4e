-- ===== src/Mqueue/Send/Place.antt =====
-- What `place` does to the list of slots in use.
use interprocess_comm.Prelude.{
  ℕ, suc, ◌≡◌, refl, false, List, [], ◌∷◌, ◌||◌, arith, has, Distinct, All, length, ◌==◌,
}
use interprocess_comm.Mqueue.{MsgHdr}
use interprocess_comm.Mqueue.Chain.{message_of, contents}
use interprocess_comm.Mqueue.Spec.{insert_msg}
use interprocess_comm.Mqueue.Send.Link.{place}

module _ (m : ℕ → MsgHdr) (prio new : ℕ) where
  pub length-place : (xs : List ℕ) → length (place m prio new xs) ≡ suc (length xs)
  length-place [] = refl
  length-place (x ∷ xs) = ground (arith, length-place xs)

  pub has-place : (a : ℕ) (xs : List ℕ) → has a (place m prio new xs) ≡ (a == new) || has a xs
  has-place a [] = refl
  has-place a (x ∷ xs) = ground (arith, has-place a xs)

  pub Distinct-place :
      (xs : List ℕ) → has new xs ≡ false → Distinct xs → Distinct (place m prio new xs)
  Distinct-place [] out d = (refl, tt)
  Distinct-place (x ∷ xs) out d = ground (arith, Distinct-place xs, has-place x xs)

  pub All-place {κ} :
      (P : ℕ → Type κ) (xs : List ℕ) → P new → All P xs → All P (place m prio new xs)
  All-place P [] p all = (p, tt)
  All-place P (x ∷ xs) p all = ground (arith, All-place P xs p all.1)

  -- As messages, the list is that of `insert_msg`.
  pub contents-place :
      (xs : List ℕ)
      → (m new).msg_prio ≡ prio
      → contents m (place m prio new xs) ≡ insert_msg (message_of (m new)) (contents m xs)
  unfolding insert_msg
  contents-place [] e = refl
  contents-place (x ∷ xs) e = ground (arith, contents-place xs e)
