-- ===== src/Tests/Copying.antt =====
-- pxsem/mycat2.c: a file of one byte.
use interprocess_comm.Prelude.{
  ℕ, ◌+◌, ◌≤◌, ◌<◌, ◌≡◌, refl, ap, true, false, [], ◌∷◌, length, ◌==◌, if◌then◌else◌, arith,
}
use interprocess_comm.Mycat.{
  Piece, bytes, ends, advance, Producer, returned, Consumer, finished, System, main, read_into,
  write_from, Step, wait_empty, lock_producer, unlock_producer, read, post_stored, post_last,
  wait_stored, lock_consumer, unlock_consumer, write, post_empty, Reach, start, later,
}
use interprocess_comm.Mycat.Balance.{firsts}
use interprocess_comm.Mycat.Progress.{writes_in_order, copies_all}

abbrev one_byte : ℕ → Piece
one_byte k = if k == 0 then bytes (104 ∷ []) else bytes []

-- The producer reads to the end of the file.
abbrev read_run : (s : System) × Reach one_byte main s
unfolding read_into advance
read_run = (
  _,
  later
      (later
        (later
          (later
            (later
              (later
                (later
                  (later
                    (later (later start (wait_empty 0 7 refl refl)) (lock_producer 0 0 refl refl))
                    (unlock_producer 0 refl))
                  (read 0 refl))
                (post_stored 1 refl))
              (wait_empty 1 6 refl refl))
            (lock_producer 1 0 refl refl))
          (unlock_producer 1 refl))
        (read 1 refl))
      (post_last refl),
)

-- Then the consumer writes.
abbrev run : (s : System) × Reach one_byte main s
unfolding read_into advance write_from
run = (
  _,
  later
      (later
        (later
          (later
            (later
              (later
                (later
                  (later (later (read_run.1) (wait_stored 0 1 refl refl))
                    (lock_consumer 0 0 refl refl))
                  (unlock_consumer 0 refl))
                (write 0 refl))
              (post_empty 1 refl))
            (wait_stored 1 0 refl refl))
          (lock_consumer 1 0 refl refl))
        (unlock_consumer 1 refl))
      (write 1 refl),
)

abbrev copied : System
copied = run.0

writes_in_order_example :
    (copied.written ≡ firsts one_byte (length copied.written))
    × (length copied.written ≤ copied.calls)
    × (copied.calls ≤ length copied.written + 8)
writes_in_order_example = writes_in_order one_byte (run.1)

one_written : copied.written ≡ bytes (104 ∷ []) ∷ []
unfolding read_into advance write_from
one_written = refl

abbrev is_returned : Producer → ℕ
is_returned returned = 1
is_returned _ = 0

abbrev is_finished : Consumer → ℕ
is_finished finished = 1
is_finished _ = 0

both_over : (is_returned copied.producer ≡ 1) × (is_finished copied.consumer ≡ 1)
unfolding read_into advance write_from
both_over = (refl, refl)

copied-stuck : (u : System) → Step one_byte copied u → ⊥
copied-stuck u (wait_empty i k e h) = omega (arith, ap is_returned e, both_over.0)
copied-stuck u (lock_producer i k e h) = omega (arith, ap is_returned e, both_over.0)
copied-stuck u (unlock_producer i e) = omega (arith, ap is_returned e, both_over.0)
copied-stuck u (read i e) = omega (arith, ap is_returned e, both_over.0)
copied-stuck u (post_stored i e) = omega (arith, ap is_returned e, both_over.0)
copied-stuck u (post_last e) = omega (arith, ap is_returned e, both_over.0)
copied-stuck u (wait_stored i k e h) = omega (arith, ap is_finished e, both_over.1)
copied-stuck u (lock_consumer i k e h) = omega (arith, ap is_finished e, both_over.1)
copied-stuck u (unlock_consumer i e) = omega (arith, ap is_finished e, both_over.1)
copied-stuck u (write i e) = omega (arith, ap is_finished e, both_over.1)
copied-stuck u (post_empty i e) = omega (arith, ap is_finished e, both_over.1)

copies_all_example :
    (copied.producer ≡ returned)
    × (copied.consumer ≡ finished)
    × (copied.written ≡ firsts one_byte (length copied.written))
    × (ends (one_byte (length copied.written)) ≡ true)
    × ((m : ℕ) → m < length copied.written → ends (one_byte m) ≡ false)
copies_all_example = copies_all one_byte (run.1) copied-stuck
