-- ===== src/Mqueue/Spec.antt =====
-- What a message queue promises: messages in the order of falling priority, and of arrival among
-- equals. The queue file is not seen here.
use interprocess_comm.Prelude.{
  ℕ, suc, ◌≤◌, ◌≡◌, refl, List, [], ◌∷◌, ◌++◌, arith, if◌then◌else◌, ltb, length, All, ◌<◌, ◌==◌,
  ==_iff, Bool-cases, inl, inr,
}
use interprocess_comm.Mqueue.Chain.{Message}

-- A new message stands before the first one of a lower priority.
unfoldable pub insert_msg : Message → List Message → List Message
insert_msg v [] = v ∷ []
insert_msg v (w ∷ ws) = if ltb w.prio v.prio then v ∷ w ∷ ws else w ∷ insert_msg v ws

-- No message is followed by one of a higher priority.
abbrev pub IsSorted : List Message → Type 0
IsSorted [] = Unit
IsSorted (v ∷ vs) = All (λ (w : Message). w.prio ≤ v.prio) vs × IsSorted vs

-- The messages of one priority, in their order.
abbrev pub of_prio : ℕ → List Message → List Message
of_prio p [] = []
of_prio p (v ∷ vs) = if v.prio == p then v ∷ of_prio p vs else of_prio p vs

All-insert_msg :
    (k : ℕ) (v : Message) (ws : List Message)
    → v.prio ≤ k
    → All (λ (w : Message). w.prio ≤ k) ws
    → All (λ (w : Message). w.prio ≤ k) (insert_msg v ws)
unfolding insert_msg
All-insert_msg k v [] le all = (le, tt)
All-insert_msg k v (w ∷ ws) le all = ground (arith, All-insert_msg k v ws le all.1)

All-le :
    (j k : ℕ) (ws : List Message)
    → j ≤ k
    → All (λ (w : Message). w.prio ≤ j) ws
    → All (λ (w : Message). w.prio ≤ k) ws
All-le j k [] le all = tt
All-le j k (w ∷ ws) le all = (omega arith, All-le j k ws le all.1)

pub insert_msg-IsSorted :
    (v : Message) (ws : List Message) → IsSorted ws → IsSorted (insert_msg v ws)
unfolding insert_msg
insert_msg-IsSorted v [] s = (tt, tt)
insert_msg-IsSorted v (w ∷ ws) s =
    ground
      (arith, insert_msg-IsSorted v ws s.1, All-insert_msg w.prio v ws, All-le w.prio v.prio ws)

pub length-insert_msg :
    (v : Message) (ws : List Message) → length (insert_msg v ws) ≡ suc (length ws)
unfolding insert_msg
length-insert_msg v [] = refl
length-insert_msg v (w ∷ ws) = ground (arith, length-insert_msg v ws)

All-lt :
    (k p : ℕ) (ws : List Message) → k < p → All (λ (w : Message). w.prio ≤ k) ws → of_prio p ws ≡ []
All-lt k p [] lt all = refl
All-lt k p (w ∷ ws) lt all = ground (arith, All-lt k p ws lt all.1)

of_prio-front :
    (p : ℕ) (v : Message) (ws : List Message)
    → (v.prio ≡ p → of_prio p ws ≡ [])
    → of_prio p (v ∷ ws) ≡ (if v.prio == p then of_prio p ws ++ v ∷ [] else of_prio p ws)
of_prio-front p v ws none_left = elim (Bool-cases (v.prio == p)) [
  | inl e ↦ rw e (rw (none_left ((==_iff v.prio p).0 e)) refl)
  | inr e ↦ rw e refl
]

of_prio-behind :
    (p : ℕ) (v w : Message) (ws us : List Message)
    → of_prio p us ≡ (if v.prio == p then of_prio p ws ++ v ∷ [] else of_prio p ws)
    → of_prio p (w ∷ us)
      ≡ (if v.prio == p then of_prio p (w ∷ ws) ++ v ∷ [] else of_prio p (w ∷ ws))
of_prio-behind p v w ws us e = elim (Bool-cases (w.prio == p)) [
  | inl t ↦ rw (t, e) (elim (Bool-cases (v.prio == p)) [ inl u ↦ rw u refl | inr u ↦ rw u refl ])
  | inr t ↦ rw (t, e) refl
]

-- The messages of the new message's priority keep their order, and it comes last among them; the
-- messages of another priority are as before.
pub of_prio-insert_msg :
    (p : ℕ) (v : Message) (ws : List Message)
    → IsSorted ws
    → of_prio p (insert_msg v ws) ≡ (if v.prio == p then of_prio p ws ++ v ∷ [] else of_prio p ws)
unfolding insert_msg
of_prio-insert_msg p v [] s = ground arith
of_prio-insert_msg p v (w ∷ ws) s = elim (Bool-cases (ltb w.prio v.prio)) [
  | inl higher ↦
      rw higher
        (of_prio-front p v (w ∷ ws) λ e. All-lt w.prio p (w ∷ ws) (ground arith) (omega arith, s.0))
  | inr lower ↦ rw lower (of_prio-behind p v w ws (insert_msg v ws) (of_prio-insert_msg p v ws s.1))
]
