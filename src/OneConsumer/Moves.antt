-- ===== src/OneConsumer/Moves.antt =====
-- pxsem/prodcons1.c to prodcons3.c: the steps of the threads, and the balance.
use interprocess_comm.Prelude.{ℕ, ◌+◌, ◌≡◌, refl, Bool, true, inl, arith}
use interprocess_comm.OneConsumer.{
  has_empty, producing, returned, has_stored, printing, System, Step, wait_empty, lock_producer,
  produce, post_stored, count_one, leave, wait_stored, lock_consumer, print, post_empty, Reach,
  start, later,
}
use interprocess_comm.OneConsumer.Balance.{IsSound}
use interprocess_comm.OneConsumer.Producing.{
  produces, same_room, produce_locked-IsSound, post_stored-IsSound, count_item-IsSound,
}
use interprocess_comm.OneConsumer.Consuming.{consumes, print_locked-IsSound, post_empty-IsSound}

pub Step-IsSound :
    (alone : Bool) (nitems n : ℕ) {s t : System}
    → (alone ≡ true → n ≡ 1)
    → IsSound alone nitems n s
    → Step alone nitems n s t
    → IsSound alone nitems n t
Step-IsSound alone nitems n {s = s} single v (wait_empty i k h q) =
    produces v h has_empty s.mutex k s.nstored refl (omega arith) refl (λ b. refl)
      (same_room v h has_empty (omega arith)) (inl refl)
Step-IsSound alone nitems n {s = s} single v (lock_producer i k h q) =
    produces v h producing k s.nempty s.nstored (omega arith) refl refl (λ b. refl)
      (same_room v h producing (omega arith)) (inl refl)
Step-IsSound alone nitems n single v (produce i h) = produce_locked-IsSound alone nitems n v i h
Step-IsSound alone nitems n single v (post_stored i h) =
    post_stored-IsSound alone nitems n single v i h
Step-IsSound alone nitems n single v (count_one i h) = count_item-IsSound alone nitems n v i h
Step-IsSound alone nitems n {s = s} single v (leave i h) =
    produces v h returned (s.mutex + 1) s.nempty s.nstored (omega arith) refl refl (λ b. refl)
      (same_room v h returned (omega arith)) (inl refl)
Step-IsSound alone nitems n {s = s} single v (wait_stored i k at q) =
    consumes alone nitems n v (has_stored i) s.mutex s.nempty k at refl refl (omega arith) (λ z. z)
Step-IsSound alone nitems n {s = s} single v (lock_consumer i k at q) =
    consumes alone nitems n v (printing i) k s.nempty s.nstored at (omega arith) refl refl (λ z. z)
Step-IsSound alone nitems n single v (print i at) = print_locked-IsSound alone nitems n v i at
Step-IsSound alone nitems n single v (post_empty i at) = post_empty-IsSound alone nitems n v i at

pub Reach-IsSound :
    (alone : Bool) (nitems n : ℕ) {s t : System}
    → (alone ≡ true → n ≡ 1)
    → IsSound alone nitems n s
    → Reach alone nitems n s t
    → IsSound alone nitems n t
Reach-IsSound alone nitems n single v start = v
Reach-IsSound alone nitems n single v (later r st) =
    Step-IsSound alone nitems n single (Reach-IsSound alone nitems n single v r) st
