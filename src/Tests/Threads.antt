-- ===== src/Tests/Threads.antt =====
-- mutex: one producer and one consumer with one item, until both have returned.
use interprocess_comm.Prelude.{ℕ, zero, suc, ◌≤◌, ◌<◌, ◌≡◌, refl, ap, [], arith, weigh, false}
use interprocess_comm.Mutex.{least, itself, maxnitems, maxnthreads}
use interprocess_comm.Mutex.Ready.{
  Producer, putting, readying, returned, Consumer, checking, waiting, finished, System, next,
  start_system, moves, put_locked, signal, ready_locked, count_item, check_locked, compare_item,
  Move, lock_put, put_item, lock_ready, make_ready, count_one, lock_check, check, compare_with,
  moved, Reach, start, later, Runs,
}
use interprocess_comm.Mutex.Ready.Progress.{prints_nothing, no_lost_signal}
use interprocess_comm.Mutex.Polled
use interprocess_comm.Mutex.Polled.Safety.{compares_equal, counts_all}

abbrev s0 : System
s0 = start_system 1

-- The consumer looks first, and waits.
abbrev s1 : System
s1 = record s0 { consumer = checking 0; ready_mutex = 0 }

abbrev s2 : System
s2 = record s1 { consumer = waiting 0; ready_mutex = 1 }

abbrev s3 : System
s3 = record (moves s2 0 putting) { put_mutex = 0 }

abbrev s4 : System
s4 = put_locked 1 s3 0

abbrev s5 : System
s5 = record (moves s4 0 readying) { ready_mutex = 0 }

abbrev s6 : System
s6 = ready_locked s5 0

abbrev s7 : System
s7 = count_item s6 0

abbrev s8 : System
s8 = record (moves s7 0 putting) { put_mutex = 0 }

abbrev s9 : System
s9 = put_locked 1 s8 0

abbrev s10 : System
s10 = record s9 { consumer = checking 0; ready_mutex = 0 }

abbrev s11 : System
s11 = check_locked s10 0

abbrev s12 : System
s12 = compare_item 1 s11 0

s6-Reach : Reach 1 1 s0 s6
unfolding next put_locked ready_locked check_locked compare_item signal
s6-Reach =
    later
      (later
        (later
          (later (later (later start (moved (lock_check 0 0 refl refl))) (moved (check 0 refl)))
            (moved (lock_put 0 0 (record { present = omega arith; state = refl }) refl)))
          (moved (put_item 0 (record { present = omega arith; state = refl }))))
        (moved (lock_ready 0 0 (record { present = omega arith; state = refl }) refl)))
      (moved (make_ready 0 (record { present = omega arith; state = refl })))

s12-Reach : Reach 1 1 s0 s12
unfolding next put_locked ready_locked check_locked compare_item signal
s12-Reach =
    later
      (later
        (later
          (later
            (later
              (later s6-Reach
                (moved (count_one 0 (record { present = omega arith; state = refl }))))
              (moved (lock_put 0 0 (record { present = omega arith; state = refl }) refl)))
            (moved (put_item 0 (record { present = omega arith; state = refl }))))
          (moved (lock_check 0 0 refl refl)))
        (moved (check 0 refl)))
      (moved (compare_with 0 refl))

s12-Runs : Runs 1 1 s12
unfolding least
s12-Runs = s12-Reach

prints_nothing_example : (s12.printed ≡ []) × (s12.items.nput ≤ 1) × (s12.items.nput ≤ 1000000)
prints_nothing_example = prints_nothing 1 1 s12-Runs

abbrev is_returned : Producer → ℕ
is_returned returned = 1
is_returned _ = 0

abbrev is_finished : Consumer → ℕ
is_finished finished = 1
is_finished _ = 0

one_thread : least 1 maxnthreads ≡ 1
unfolding least
one_thread = refl

s12-returned : (i : ℕ) → i < least 1 maxnthreads → is_returned (s12.producers i) ≡ 1
unfolding put_locked compare_item check_locked ready_locked
s12-returned zero h = refl
s12-returned (suc i) h = absurd (omega (arith, one_thread))

s12-finished : is_finished s12.consumer ≡ 1
unfolding compare_item next
s12-finished = refl

s12-stuck : (u : System) → Move (least 1 maxnitems) (least 1 maxnthreads) s12 u → ⊥
s12-stuck u (lock_put i k a h) = omega (arith, ap is_returned a.state, s12-returned i a.present)
s12-stuck u (put_item i a) = omega (arith, ap is_returned a.state, s12-returned i a.present)
s12-stuck u (lock_ready i k a h) = omega (arith, ap is_returned a.state, s12-returned i a.present)
s12-stuck u (make_ready i a) = omega (arith, ap is_returned a.state, s12-returned i a.present)
s12-stuck u (count_one i a) = omega (arith, ap is_returned a.state, s12-returned i a.present)
s12-stuck u (lock_check i k e h) = omega (arith, ap is_finished e, s12-finished)
s12-stuck u (check i e) = omega (arith, ap is_finished e, s12-finished)
s12-stuck u (compare_with i e) = omega (arith, ap is_finished e, s12-finished)

no_lost_signal_example :
    ((i : ℕ) → i < least 1 maxnthreads → s12.producers i ≡ returned)
    × (s12.consumer ≡ finished)
    × (weigh itself (least 1 maxnthreads) s12.count ≡ least 1 maxnitems)
no_lost_signal_example = no_lost_signal 1 1 s12-Runs (omega arith) s12-stuck

abbrev p0 : Polled.System
p0 = Polled.start_system false 1

abbrev p1 : Polled.System
p1 = record (Polled.moves p0 0 Polled.locked) { mutex = 0 }

abbrev p2 : Polled.System
p2 = Polled.produce_locked 1 p1 0

abbrev p3 : Polled.System
p3 = Polled.count_item p2 0

abbrev p4 : Polled.System
p4 = record (Polled.moves p3 0 Polled.locked) { mutex = 0 }

abbrev p5 : Polled.System
p5 = Polled.produce_locked 1 p4 0

-- The consumer starts, and compares the one item.
abbrev p6 : Polled.System
p6 = record p5 { consumer = Polled.comparing 0 }

abbrev p7 : Polled.System
p7 = Polled.compare_item false 1 p6 0

p5-Joined : Polled.Joined 1 p5
unfolding Polled.produce_locked
p5-Joined zero h = refl
p5-Joined (suc i) h = absurd (omega arith)

p5-Reach : Polled.Reach false 1 1 p0 p5
unfolding Polled.produce_locked
p5-Reach =
    Polled.later
      (Polled.later
        (Polled.later
          (Polled.later
            (Polled.later Polled.start
              (Polled.lock 0 0 (record { present = omega arith; state = refl }) refl))
            (Polled.produce 0 (record { present = omega arith; state = refl })))
          (Polled.count_one 0 (record { present = omega arith; state = refl })))
        (Polled.lock 0 0 (record { present = omega arith; state = refl }) refl))
      (Polled.produce 0 (record { present = omega arith; state = refl }))

p7-Reach : Polled.Reach false 1 1 p0 p7
unfolding Polled.produce_locked Polled.next Polled.first_consumer Polled.compare_item
p7-Reach =
    Polled.later (Polled.later p5-Reach (Polled.start_consumer refl refl p5-Joined))
      (Polled.compare_with 0 refl)

p7-Runs : Polled.Runs false 1 1 p7
unfolding least
p7-Runs = p7-Reach

p7-Joined : Polled.Joined (least 1 maxnthreads) p7
unfolding least Polled.compare_item
p7-Joined = p5-Joined

compares_equal_example : (p7.printed ≡ []) × (p7.items.nput ≤ 1) × (p7.items.nput ≤ 1000000)
compares_equal_example = compares_equal false 1 1 (omega arith) p7-Runs

counts_all_example : weigh itself (least 1 maxnthreads) p7.count ≡ least 1 maxnitems
counts_all_example = counts_all false 1 1 (omega arith) p7-Runs p7-Joined
