-- ===== src/OneConsumer/Safety.antt =====
-- pxsem/prodcons1.c to prodcons3.c: what the consumer prints.
use interprocess_comm.Prelude.{
  ℕ, ◌+◌, ◌≤◌, ◌≡◌, refl, Bool, true, false, Bool-cases, ltb, inl, inr, ◌⊎◌, length, weigh,
  weigh-zero, arith,
}
use interprocess_comm.OneConsumer.{System, next_item, start_system, Reach, threads}
use interprocess_comm.OneConsumer.Balance.{
  locks, empties, stores, uncounted, ahead, leaves, countdown, itself, IsSound, next-HasPrinted,
  next-idle,
}
use interprocess_comm.OneConsumer.Moves.{Reach-IsSound}

-- What a producer that starts does not have yet.
first_item-facts :
    (alone : Bool) (nitems : ℕ)
    → let p = next_item alone nitems 0 in
      (locks p ≡ 0)
      × (empties p ≡ 0)
      × (stores p ≡ 0)
      × (uncounted p ≡ 0)
      × (alone ≡ true → ahead p ≤ nitems)
      × ((leaves p ≡ 0) ⊎ (nitems ≡ 0))
unfolding next_item
first_item-facts true nitems = elim (Bool-cases (ltb 0 nitems)) [
  | inl more ↦ rw more (refl, refl, refl, refl, (λ b. ground arith), inl refl)
  | inr done ↦ rw done (refl, refl, refl, refl, (λ b. omega arith), inr (ground arith))
]
first_item-facts false nitems = (refl, refl, refl, refl, (λ b. absurd (ground arith)), inl refl)

first_room :
    (alone : Bool) (nitems nproduces : ℕ)
    → alone ≡ true
    → weigh ahead (threads alone nproduces) (λ i. next_item alone nitems 0) + 0 ≤ nitems
unfolding weigh
first_room true nitems nproduces e =
    let (m, e', o, u, a, x) = first_item-facts true nitems in omega (arith, a refl)
first_room false nitems nproduces e = absurd (ground arith)

pub start-IsSound :
    (alone : Bool) (nitems nproduces : ℕ)
    → IsSound alone nitems (threads alone nproduces) (start_system alone nitems)
start-IsSound alone nitems nproduces =
    let n = threads alone nproduces in
    let p = next_item alone nitems 0 in
    let (m, e, o, u, a, x) = first_item-facts alone nitems in
    let (cm, co, ce) = next-idle nitems 0 in
    record {
      mutex = omega (arith, weigh-zero locks n (λ i. p) λ i h. m);
      nempty = omega (arith, weigh-zero empties n (λ i. p) λ i h. e);
      nstored = omega (arith, weigh-zero stores n (λ i. p) λ i h. o);
      counted = λ b. omega (
        arith,
        weigh-zero uncounted n (λ i. p) (λ i h. u),
        weigh-zero itself n (λ i. 0) λ i h. refl,
      );
      within = omega arith;
      room = first_room alone nitems nproduces;
      full = λ b. elim x [
        | inl z ↦ absurd (omega (arith, weigh-zero leaves n (λ i. p) λ i h. z))
        | inr z ↦ omega arith
      ];
      nputval = refl;
      buff = λ j lo hi. absurd (omega arith);
      index = next-HasPrinted nitems 0 (omega arith);
      printed = refl;
    }

pub single : (alone : Bool) (nproduces : ℕ) → alone ≡ true → threads alone nproduces ≡ 1
single true nproduces e = refl
single false nproduces e = absurd (ground arith)

-- In whatever order the threads run, with one producer or with any number: the consumer has printed
-- exactly 0, 1, 2, … in order, never an item that has not been stored; at most 10 items are stored
-- ahead of it, and no more than `nitems` in all.
pub prints_items :
    (alone : Bool) (nitems nproduces : ℕ) {s : System}
    → Reach alone nitems (threads alone nproduces) (start_system alone nitems) s
    → (s.printed ≡ countdown (length s.printed))
      × (length s.printed ≤ s.nput)
      × (s.nput ≤ length s.printed + 10)
      × (s.nput ≤ nitems)
prints_items alone nitems nproduces r =
    let n = threads alone nproduces in
    let v =
      Reach-IsSound alone nitems n (single alone nproduces) (start-IsSound alone nitems nproduces)
        r in
    (v.printed, omega (arith, v.nstored), omega (arith, v.nempty), v.within)
