-- ===== src/OneConsumer/Producing.antt =====
-- pxsem/prodcons1.c to prodcons3.c: the steps of a producer, and the balance.
use interprocess_comm.Prelude.{
  ℕ, zero, suc, ◌+◌, ◌%◌, ◌≤◌, ◌<◌, ◌≡◌, refl, ap, Bool, true, false, Bool-cases, inl, inr, ◌⊎◌,
  ltb, leb, ◌==◌, put, weigh, weigh-put, weigh-one, arith,
}
use interprocess_comm.OneConsumer.{
  Producer, wants_empty, producing, stored_one, leaving, counting, returned, System, next_item,
  moves, store, produce_locked, after_post, count_item, At,
}
use interprocess_comm.OneConsumer.Balance.{
  locks, empties, stores, uncounted, ahead, leaves, itself, IsSound, change, same-slot,
}

module _ {alone : Bool} {nitems n : ℕ} {s : System} (v : IsSound alone nitems n s) {i : ℕ}
    {p : Producer} (h : At n s i p) where
  -- A step of a producer that changes the semaphores only, by what it has before and after it.
  pub produces :
      (q : Producer) (mutex nempty nstored : ℕ)
      → mutex + locks q ≡ s.mutex + locks p
      → nempty + empties q ≡ s.nempty + empties p
      → nstored + stores q ≡ s.nstored + stores p
      → (alone ≡ false → uncounted q ≡ uncounted p)
      → (alone ≡ true → weigh ahead n (put s.producers i q) + s.nput ≤ nitems)
      → (leaves q ≡ leaves p) ⊎ (nitems ≤ s.nput)
      → IsSound alone nitems n
          (record (moves s i q) { mutex = mutex; nempty = nempty; nstored = nstored })
  produces q mutex nempty nstored m e o u r x =
      let c = change q h in
      record {
        mutex = omega (arith, v.mutex);
        nempty = omega (arith, v.nempty);
        nstored = omega (arith, v.nstored);
        counted = λ b. omega (arith, v.counted b, u b);
        within = v.within;
        room = r;
        full = λ b. elim x [ inl same ↦ v.full (omega arith) | inr full ↦ full ];
        nputval = v.nputval;
        buff = v.buff;
        index = v.index;
        printed = v.printed;
      }

  -- The items that are still to be stored have room, if the producer has none more.
  pub same_room :
      (q : Producer)
      → ahead q ≤ ahead p
      → alone ≡ true
      → weigh ahead n (put s.producers i q) + s.nput ≤ nitems
  same_room q le b = let c = change q h in omega (arith, v.room b)

module _ (alone : Bool) {nitems n : ℕ} {s : System} (v : IsSound alone nitems n s) (i : ℕ)
    (h : At n s i producing) where
  stores_item : s.nput < nitems → IsSound alone nitems n (store s i)
  stores_item more =
      let c = change stored_one h in
      record {
        mutex = omega (arith, v.mutex);
        nempty = omega (arith, v.nempty);
        nstored = omega (arith, v.nstored);
        counted = λ b. omega (arith, v.counted b);
        within = omega arith;
        room = λ b. omega (arith, v.room b);
        full = λ b. omega (arith, v.full (omega arith));
        nputval = omega (arith, v.nputval);
        buff = λ j lo hi. elim (Bool-cases (j % 10 == s.nput % 10)) [
          | inl same ↦ ground (
            arith,
            same-slot j s.nput (omega arith) (omega (arith, v.nempty)) (ground arith),
            v.nputval,
          )
          | inr other ↦ ground (arith, v.buff j)
        ];
        index = v.index;
        printed = v.printed;
      }

pub produce_locked-IsSound :
    (alone : Bool) (nitems n : ℕ) {s : System}
    → IsSound alone nitems n s
    → (i : ℕ) → At n s i producing
    → IsSound alone nitems n (produce_locked alone nitems s i)
unfolding produce_locked
produce_locked-IsSound true nitems n {s} v i h =
    let one = weigh-one ahead returned refl n i s.producers h.present in
    stores_item true v i h (omega (arith, v.room refl, ap ahead h.state))
produce_locked-IsSound false nitems n {s} v i h = elim (Bool-cases (leb nitems s.nput)) [
  | inl full ↦ rw full (
      produces v h leaving s.mutex (s.nempty + 1) s.nstored refl (omega arith) refl (λ b. refl)
        (same_room v h leaving (omega arith)) (inr (ground arith)))
  | inr more ↦ rw more (stores_item false v i h (ground arith))
]

-- The producer that is alone goes on only while there is room.
abbrev GoesOn : (nitems nput : ℕ) → (q : Producer) → Type 0
GoesOn nitems nput q =
    (locks q ≡ 0)
    × (empties q ≡ 0)
    × (stores q ≡ 0)
    × (nput ≤ nitems → ahead q + nput ≤ nitems)
    × ((leaves q ≡ 0) ⊎ (nitems ≤ nput))

next_item-GoesOn : (nitems nput : ℕ) → GoesOn nitems nput (next_item true nitems nput)
unfolding next_item
next_item-GoesOn nitems nput = elim (Bool-cases (ltb nput nitems)) [
  | inl more ↦ rw more (refl, refl, refl, (λ h. ground arith), inl refl)
  | inr done ↦ rw done (refl, refl, refl, (λ h. omega arith), inr (ground arith))
]

-- Nobody else has an item to store.
ahead_alone :
    {n : ℕ} (s : System) (i : ℕ) (q : Producer)
    → n ≡ 1
    → i < n
    → weigh ahead n (put s.producers i q) ≡ ahead q
unfolding weigh
ahead_alone s zero q one h = rw one (omega arith)
ahead_alone s (suc i) q one h = absurd (omega arith)

pub post_stored-IsSound :
    (alone : Bool) (nitems n : ℕ) {s : System}
    → (alone ≡ true → n ≡ 1)
    → IsSound alone nitems n s
    → (i : ℕ) → At n s i stored_one
    → IsSound alone nitems n
        (record (moves s i (after_post alone nitems s)) { nstored = s.nstored + 1 })
unfolding after_post
post_stored-IsSound true nitems n {s} single v i h =
    let (m, e, o, a, x) = next_item-GoesOn nitems s.nput in
    let q = next_item true nitems s.nput in
    produces v h q s.mutex s.nempty (s.nstored + 1) (omega arith) (omega arith) (omega arith)
      (λ b. absurd (ground arith))
      (λ b. omega (arith, ahead_alone s i q (single refl) h.present, a v.within)) x
post_stored-IsSound false nitems n {s} single v i h =
    produces v h counting s.mutex s.nempty (s.nstored + 1) refl refl (omega arith) (λ b. refl)
      (λ b. absurd (ground arith)) (inl refl)

pub count_item-IsSound :
    (alone : Bool) (nitems n : ℕ) {s : System}
    → IsSound alone nitems n s
    → (i : ℕ) → At n s i counting
    → IsSound alone nitems n (count_item s i)
count_item-IsSound alone nitems n {s} v i h =
    let c = change wants_empty h in
    record {
      mutex = omega (arith, v.mutex);
      nempty = omega (arith, v.nempty);
      nstored = omega (arith, v.nstored);
      counted =
          λ b. omega (arith, v.counted b, weigh-put itself n s.count i (s.count i + 1) h.present);
      within = v.within;
      room = λ b. omega (arith, v.room b);
      full = λ b. v.full (omega arith);
      nputval = v.nputval;
      buff = v.buff;
      index = v.index;
      printed = v.printed;
    }
