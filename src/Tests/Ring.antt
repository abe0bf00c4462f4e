-- ===== src/Tests/Ring.antt =====
-- pxsem/prodcons1.c: the producer and the consumer pass on one item, and return.
use interprocess_comm.Prelude.{
  ℕ, zero, suc, ◌+◌, ◌≤◌, ◌<◌, ◌≡◌, refl, ap, true, [], ◌∷◌, length, arith,
}
use interprocess_comm.OneConsumer.{
  Producer, returned, Consumer, finished, System, next, next_item, start_system, produce_locked,
  after_post, Step, wait_empty, lock_producer, produce, post_stored, count_one, leave, wait_stored,
  lock_consumer, print, post_empty, Reach, start, later,
}
use interprocess_comm.OneConsumer.Balance.{countdown}
use interprocess_comm.OneConsumer.Safety.{prints_items}
use interprocess_comm.OneConsumer.Progress.{all_printed}

abbrev run : (s : System) × Reach true 1 1 (start_system true 1) s
unfolding next next_item produce_locked after_post
run = (
  _,
  later
      (later
        (later
          (later
            (later
              (later
                (later
                  (later start
                    (wait_empty 0 9 (record { present = omega arith; state = refl }) refl))
                  (lock_producer 0 0 (record { present = omega arith; state = refl }) refl))
                (produce 0 (record { present = omega arith; state = refl })))
              (post_stored 0 (record { present = omega arith; state = refl })))
            (wait_stored 0 0 refl refl))
          (lock_consumer 0 0 refl refl))
        (print 0 refl))
      (post_empty 0 refl),
)

abbrev passed : System
passed = run.0

prints_items_example :
    (passed.printed ≡ countdown (length passed.printed))
    × (length passed.printed ≤ passed.nput)
    × (passed.nput ≤ length passed.printed + 10)
    × (passed.nput ≤ 1)
prints_items_example = prints_items true 1 1 (run.1)

abbrev is_returned : Producer → ℕ
is_returned returned = 1
is_returned _ = 0

abbrev is_finished : Consumer → ℕ
is_finished finished = 1
is_finished _ = 0

passed-returned : (i : ℕ) → i < 1 → is_returned (passed.producers i) ≡ 1
unfolding next next_item produce_locked after_post
passed-returned zero h = refl
passed-returned (suc i) h = absurd (omega arith)

passed-finished : is_finished passed.consumer ≡ 1
unfolding next next_item produce_locked after_post
passed-finished = refl

passed-stuck : (u : System) → Step true 1 1 passed u → ⊥
passed-stuck u (wait_empty i k a q) =
    omega (arith, ap is_returned a.state, passed-returned i a.present)
passed-stuck u (lock_producer i k a q) =
    omega (arith, ap is_returned a.state, passed-returned i a.present)
passed-stuck u (produce i a) = omega (arith, ap is_returned a.state, passed-returned i a.present)
passed-stuck u (post_stored i a) =
    omega (arith, ap is_returned a.state, passed-returned i a.present)
passed-stuck u (count_one i a) = omega (arith, ap is_returned a.state, passed-returned i a.present)
passed-stuck u (leave i a) = omega (arith, ap is_returned a.state, passed-returned i a.present)
passed-stuck u (wait_stored i k e q) = omega (arith, ap is_finished e, passed-finished)
passed-stuck u (lock_consumer i k e q) = omega (arith, ap is_finished e, passed-finished)
passed-stuck u (print i e) = omega (arith, ap is_finished e, passed-finished)
passed-stuck u (post_empty i e) = omega (arith, ap is_finished e, passed-finished)

all_printed_example :
    ((i : ℕ) → i < 1 → passed.producers i ≡ returned)
    × (passed.consumer ≡ finished)
    × (passed.printed ≡ 0 ∷ [])
all_printed_example = all_printed true 1 1 (run.1) (omega arith) passed-stuck
