-- ===== src/Tests/Items.antt =====
-- pxsem/prodcons4.c: one producer and one consumer pass on one item, and return.
use interprocess_comm.Prelude.{ℕ, zero, suc, ◌+◌, ◌≤◌, ◌<◌, ◌≡◌, refl, ap, [], ◌∷◌, arith, ◌⊎◌}
use interprocess_comm.ProdCons.{
  Thread, wants_empty, has_empty, producing, leaving_mutex, produced, wants_stored, has_stored,
  consuming, consumed, produce_locked, consume_locked,
}
use interprocess_comm.ProdCons.System.{
  System, moves, main, Step, wait_empty, lock_producer, produce, post_stored, leave_empty,
  leave_mutex, wait_stored, lock_consumer, consume, post_empty, stop, Reach, start, later,
}
use interprocess_comm.ProdCons.System.Safety.{prints_in_order}
use interprocess_comm.ProdCons.System.Progress.{no_deadlock}

abbrev s0 : System
s0 = main 1 1

abbrev s1 : System
s1 = moves s0 0 (has_empty, record (s0.shared) { nempty = 9 })

abbrev s2 : System
s2 = moves s1 0 (producing, record (s1.shared) { mutex = 0 })

abbrev s3 : System
s3 = moves s2 0 (produce_locked 1 s2.shared)

abbrev s4 : System
s4 = moves s3 0 (wants_empty, record (s3.shared) { nstored = s3.shared.nstored + 1 })

abbrev s5 : System
s5 = moves s4 1 (has_stored, record (s4.shared) { nstored = 0 })

abbrev s6 : System
s6 = moves s5 1 (consuming, record (s5.shared) { mutex = 0 })

abbrev s7 : System
s7 = moves s6 1 (consume_locked 1 s6.shared)

abbrev s8 : System
s8 = moves s7 1 (wants_stored, record (s7.shared) { nempty = s7.shared.nempty + 1 })

abbrev s9 : System
s9 = moves s8 0 (has_empty, record (s8.shared) { nempty = 9 })

abbrev s10 : System
s10 = moves s9 0 (producing, record (s9.shared) { mutex = 0 })

abbrev s11 : System
s11 = moves s10 0 (produce_locked 1 s10.shared)

abbrev s12 : System
s12 = moves s11 0 (leaving_mutex, record (s11.shared) { nempty = s11.shared.nempty + 1 })

abbrev s13 : System
s13 = moves s12 0 (produced, record (s12.shared) { mutex = s12.shared.mutex + 1 })

abbrev s14 : System
s14 = moves s13 1 (has_stored, record (s13.shared) { nstored = 0 })

abbrev s15 : System
s15 = moves s14 1 (consuming, record (s14.shared) { mutex = 0 })

abbrev s16 : System
s16 = moves s15 1 (consume_locked 1 s15.shared)

abbrev s17 : System
s17 = moves s16 1 (consumed, record (s16.shared) { mutex = s16.shared.mutex + 1 })

s1-Reach : Reach 1 2 s0 s1
unfolding produce_locked consume_locked
s1-Reach = later start (wait_empty 0 9 (record { present = omega arith; state = refl }) refl)

s2-Reach : Reach 1 2 s0 s2
unfolding produce_locked consume_locked
s2-Reach = later s1-Reach (lock_producer 0 0 (record { present = omega arith; state = refl }) refl)

s3-Reach : Reach 1 2 s0 s3
unfolding produce_locked consume_locked
s3-Reach = later s2-Reach (produce 0 (record { present = omega arith; state = refl }))

s4-Reach : Reach 1 2 s0 s4
unfolding produce_locked consume_locked
s4-Reach = later s3-Reach (post_stored 0 (record { present = omega arith; state = refl }))

s5-Reach : Reach 1 2 s0 s5
unfolding produce_locked consume_locked
s5-Reach = later s4-Reach (wait_stored 1 0 (record { present = omega arith; state = refl }) refl)

s6-Reach : Reach 1 2 s0 s6
unfolding produce_locked consume_locked
s6-Reach = later s5-Reach (lock_consumer 1 0 (record { present = omega arith; state = refl }) refl)

s7-Reach : Reach 1 2 s0 s7
unfolding produce_locked consume_locked
s7-Reach = later s6-Reach (consume 1 (record { present = omega arith; state = refl }))

s8-Reach : Reach 1 2 s0 s8
unfolding produce_locked consume_locked
s8-Reach = later s7-Reach (post_empty 1 (record { present = omega arith; state = refl }))

s9-Reach : Reach 1 2 s0 s9
unfolding produce_locked consume_locked
s9-Reach = later s8-Reach (wait_empty 0 9 (record { present = omega arith; state = refl }) refl)

s10-Reach : Reach 1 2 s0 s10
unfolding produce_locked consume_locked
s10-Reach = later s9-Reach (lock_producer 0 0 (record { present = omega arith; state = refl }) refl)

s11-Reach : Reach 1 2 s0 s11
unfolding produce_locked consume_locked
s11-Reach = later s10-Reach (produce 0 (record { present = omega arith; state = refl }))

s12-Reach : Reach 1 2 s0 s12
unfolding produce_locked consume_locked
s12-Reach = later s11-Reach (leave_empty 0 (record { present = omega arith; state = refl }))

s13-Reach : Reach 1 2 s0 s13
unfolding produce_locked consume_locked
s13-Reach = later s12-Reach (leave_mutex 0 (record { present = omega arith; state = refl }))

s14-Reach : Reach 1 2 s0 s14
unfolding produce_locked consume_locked
s14-Reach = later s13-Reach (wait_stored 1 0 (record { present = omega arith; state = refl }) refl)

s15-Reach : Reach 1 2 s0 s15
unfolding produce_locked consume_locked
s15-Reach =
    later s14-Reach (lock_consumer 1 0 (record { present = omega arith; state = refl }) refl)

s16-Reach : Reach 1 2 s0 s16
unfolding produce_locked consume_locked
s16-Reach = later s15-Reach (consume 1 (record { present = omega arith; state = refl }))

s17-Reach : Reach 1 2 s0 s17
unfolding produce_locked consume_locked
s17-Reach = later s16-Reach (stop 1 (record { present = omega arith; state = refl }))

prints_in_order_example : (s7.shared.printed ≡ 0 ∷ []) × (1 ≤ 1) × (1 ≤ 11) × (1 ≤ 1)
unfolding produce_locked consume_locked
prints_in_order_example = prints_in_order 1 1 1 s7-Reach

abbrev returned : Thread → ℕ
returned produced = 1
returned consumed = 1
returned _ = 0

all_returned : (i : ℕ) → i < 2 → returned (s17.threads i) ≡ 1
unfolding produce_locked consume_locked
all_returned zero h = refl
all_returned (suc zero) h = refl
all_returned (suc (suc i)) h = absurd (omega arith)

no_step : (u : System) → Step 1 2 s17 u → ⊥
no_step u (wait_empty i k a q) = omega (arith, ap returned a.state, all_returned i a.present)
no_step u (lock_producer i k a q) = omega (arith, ap returned a.state, all_returned i a.present)
no_step u (produce i a) = omega (arith, ap returned a.state, all_returned i a.present)
no_step u (post_stored i a) = omega (arith, ap returned a.state, all_returned i a.present)
no_step u (leave_empty i a) = omega (arith, ap returned a.state, all_returned i a.present)
no_step u (leave_mutex i a) = omega (arith, ap returned a.state, all_returned i a.present)
no_step u (wait_stored i k a q) = omega (arith, ap returned a.state, all_returned i a.present)
no_step u (lock_consumer i k a q) = omega (arith, ap returned a.state, all_returned i a.present)
no_step u (consume i a) = omega (arith, ap returned a.state, all_returned i a.present)
no_step u (post_empty i a) = omega (arith, ap returned a.state, all_returned i a.present)
no_step u (stop i a) = omega (arith, ap returned a.state, all_returned i a.present)

no_deadlock_example :
    ((i : ℕ) → i < 2 → (s17.threads i ≡ produced) ⊎ (s17.threads i ≡ consumed))
    × (s17.shared.printed ≡ 0 ∷ [])
no_deadlock_example = no_deadlock 1 1 1 s17-Reach (omega arith) (omega arith) no_step
