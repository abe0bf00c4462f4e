-- ===== src/Tests/Samples.antt =====
-- The sample programs: the lock of locksvsem.c, and px_ipc.c.
use interprocess_comm.Prelude.{◌≢◌, refl, true, false, none, arith}
use interprocess_comm.LockSvsem.{my_lock, look, take_unit, inside}
use interprocess_comm.LockSvsem.Safety as Lock

-- Process 0 makes the set, sets its value and has the lock; process 1 has looked once, before that.
abbrev locked_once : (s : Lock.System) × Lock.Reach 2 Lock.unused s
unfolding my_lock look
locked_once = (
  _,
  Lock.later
      (Lock.later
        (Lock.later
          (Lock.later
            (Lock.later Lock.start (
              Lock.call 0 none 4 7 (record { initflag = false })
                (record { present = omega arith; state = refl })))
            (Lock.call 1 none 4 7 (record { initflag = false })
              (record { present = omega arith; state = refl })))
          (Lock.initialize 0 _ (record { present = omega arith; state = refl }) refl))
        (Lock.inspect 1 0 _ (record { present = omega arith; state = refl }) refl))
      (Lock.take 0 _ (record { semid = 4; semval = 0; otime = true })
        (record { present = omega arith; state = refl }) refl (unfold take_unit in refl)),
)

lock_excludes_example : locked_once.0.places 1 ≢ inside
unfolding my_lock look
lock_excludes_example =
    Lock.lock_excludes {n = 2} locked_once.1 0 1 (omega arith)
      (record { present = omega arith; state = refl }) (omega arith)
