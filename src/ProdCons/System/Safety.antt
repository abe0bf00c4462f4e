-- ===== src/ProdCons/System/Safety.antt =====
-- The items that the threads of prodcons4.c pass on.
use interprocess_comm.Prelude.{ℕ, ◌+◌, ◌≤◌, ◌≡◌, refl, arith, weigh-zero}
use interprocess_comm.ProdCons.System.{System, main_threads, main, Reach}
use interprocess_comm.ProdCons.System.Balance.{
  locks, empties, stores, extras, finishes, countdown, IsSound,
}
use interprocess_comm.ProdCons.System.Moves.{Reach-IsSound}

module _ (nitems nproducers nconsumers : ℕ) where
  abbrev n : ℕ
  n = nproducers + nconsumers

  pub main-IsSound : IsSound nitems nproducers n (main nproducers nconsumers)
  main-IsSound =
      let f = main_threads nproducers in
      let m = weigh-zero locks n f λ i h. ground arith in
      let e = weigh-zero empties n f λ i h. ground arith in
      let s = weigh-zero stores n f λ i h. ground arith in
      let x = weigh-zero extras n f λ i h. ground arith in
      let c = weigh-zero finishes n f λ i h. ground arith in
      record {
        balanced = record {
          mutex = omega (arith, m);
          nempty = omega (arith, e);
          nstored = omega (arith, s, x);
          full = λ h. absurd (omega (arith, x));
          within = omega arith;
          finished = λ h. absurd (omega (arith, c));
          ahead = omega arith;
          nputval = refl;
          buff = λ j lo hi. absurd (omega arith);
          printed = refl;
        };
        kinds = λ i. ground arith;
      }

  -- However many producers and consumers `main` creates, and in whatever order they run: the consumers
  -- have printed exactly the items 0, 1, 2, … in order, as many as `nget` counts; never an item that
  -- has not been stored; no more than 10 items are stored ahead of them, and no more than `nitems` in
  -- all.
  pub prints_in_order :
      {t : System}
      → Reach nitems n (main nproducers nconsumers) t
      → (t.shared.printed ≡ countdown t.shared.nget)
        × (t.shared.nget ≤ t.shared.nput)
        × (t.shared.nput ≤ t.shared.nget + 10)
        × (t.shared.nput ≤ nitems)
  prints_in_order r =
      let b = (Reach-IsSound main-IsSound r).balanced in
      (b.printed, b.ahead, omega (arith, b.nempty), b.within)
