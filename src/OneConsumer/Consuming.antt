-- ===== src/OneConsumer/Consuming.antt =====
-- pxsem/prodcons1.c to prodcons3.c: the steps of the consumer, and the balance.
use interprocess_comm.Prelude.{
  ℕ, suc, ◌+◌, ◌%◌, ◌<◌, ◌≡◌, ap, ap₂, subst, ◌∙◌, Bool, ◌∷◌, length, arith,
}
use interprocess_comm.OneConsumer.{Consumer, printing, freed, System, next, print_locked}
use interprocess_comm.OneConsumer.Balance.{
  c_locks, c_stores, c_frees, HasPrinted, IsSound, next-HasPrinted, next-idle,
}

-- A step of the consumer that changes the semaphores only.
module _ (alone : Bool) (nitems n : ℕ) {s : System} (v : IsSound alone nitems n s) where
  pub consumes :
      {d : Consumer} (c : Consumer) (mutex nempty nstored : ℕ)
      → s.consumer ≡ d
      → mutex + c_locks c ≡ s.mutex + c_locks d
      → nempty + c_frees c ≡ s.nempty + c_frees d
      → nstored + c_stores c ≡ s.nstored + c_stores d
      → (HasPrinted nitems (length s.printed) d → HasPrinted nitems (length s.printed) c)
      → IsSound alone nitems n
          (record s { consumer = c; mutex = mutex; nempty = nempty; nstored = nstored })
  consumes c mutex nempty nstored at m e o k = record {
    mutex = omega (arith, v.mutex, ap c_locks at);
    nempty = omega (arith, v.nempty, ap c_frees at);
    nstored = omega (arith, v.nstored, ap c_stores at);
    counted = v.counted;
    within = v.within;
    room = v.room;
    full = v.full;
    nputval = v.nputval;
    buff = v.buff;
    index = k (subst (HasPrinted nitems (length s.printed)) at v.index);
    printed = v.printed;
  }

  pub print_locked-IsSound :
      (i : ℕ) → s.consumer ≡ printing i → IsSound alone nitems n (print_locked s i)
  print_locked-IsSound i at =
      let (here, more) = subst (HasPrinted nitems (length s.printed)) at v.index in
      let there : length s.printed < s.nput = omega (arith, v.nstored, ap c_stores at) in
      let item : s.buff (i % 10) ≡ length s.printed =
        ap (λ j. s.buff (j % 10)) here ∙ v.buff (length s.printed) (omega arith) there in
      record {
        mutex = omega (arith, v.mutex, ap c_locks at);
        nempty = omega (arith, v.nempty, ap c_frees at);
        nstored = omega (arith, v.nstored, ap c_stores at);
        counted = v.counted;
        within = v.within;
        room = v.room;
        full = v.full;
        nputval = v.nputval;
        buff = λ j lo hi. v.buff j (omega arith) hi;
        index = (ap suc here, omega arith);
        printed = ap₂ ◌∷◌ item v.printed;
      }

  pub post_empty-IsSound :
      (i : ℕ)
      → s.consumer ≡ freed i
      → IsSound alone nitems n (record s { consumer = next nitems (i + 1); nempty = s.nempty + 1 })
  post_empty-IsSound i at =
      let (here, le) = subst (HasPrinted nitems (length s.printed)) at v.index in
      let (k, o, f) = next-idle nitems (i + 1) in
      let same : i + 1 ≡ length s.printed = omega arith in
      consumes (next nitems (i + 1)) s.mutex (s.nempty + 1) s.nstored at (omega arith) (omega arith)
        (omega arith)
        (λ z.
          subst (λ j. HasPrinted nitems j (next nitems (i + 1))) same
            (next-HasPrinted nitems (i + 1) (omega arith)))
