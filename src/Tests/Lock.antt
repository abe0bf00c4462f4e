-- ===== src/Tests/Lock.antt =====
-- mutex/my_rwlock: a lock with two threads.
use interprocess_comm.Prelude.{ℕ, ◌≡◌, ◌≢◌, ◌⊎◌, refl, true, false, arith, ℤ, pos, negsuc, weigh}
use interprocess_comm.Rwlock.{
  RwLock, rw_magic_open, a_writer, returns, Parts, init, rw_unlock, wrlock, wrlock_loop,
}
use interprocess_comm.Rwlock.Counts.{Counts, unlock-wakes}
use interprocess_comm.Rwlock.Lifetime.{AllParts, init-AllParts}
use interprocess_comm.Rwlock.System.{
  outside, reader, writer, System, becomes, write, Reach, start, later,
}
use interprocess_comm.Rwlock.System.Safety.{IsSound, mutual_exclusion}

abbrev lock_with : (readers_waiting writers_waiting : ℕ) (refcount : ℤ) → RwLock
lock_with qr qw refcount = record {
  held = false;
  rw_magic = rw_magic_open;
  rw_nwaitreaders = qr;
  rw_nwaitwriters = qw;
  rw_refcount = refcount;
}

abbrev unused : RwLock
unused = lock_with 0 0 (pos 0)

abbrev no_parts : Parts
no_parts = record { mutex = false; condreaders = false; condwriters = false }

-- The second condition variable cannot be had.
init-AllParts_example :
    let out = init false 0 0 12 (unused, no_parts) in
    ((out.0 ≡ pos 0) × Counts out.1 0 0 0 0 × AllParts true out.2)
    ⊎ ((out.0 ≢ pos 0) × (out.1 ≡ unused) × AllParts false out.2)
init-AllParts_example = init-AllParts false 0 0 12 unused no_parts (refl, refl, refl)

-- The last of the readers leaves, with a writer and a reader waiting.
unlock-wakes_example :
    (rw' : RwLock) × (z : ℤ) × (rw_unlock 0 0 0 (lock_with 1 1 (pos 1)) ≡ returns z rw' a_writer)
    × Counts rw' 0 0 1 1
unlock-wakes_example =
    unlock-wakes 0 0 (lock_with 1 1 (pos 1)) {r = 1} {w = 0}
      (record {
        magic = refl;
        free = refl;
        readers = refl;
        writers = refl;
        one_writer = omega arith;
        waiting_readers = refl;
        waiting_writers = refl;
      })
      (omega arith)

abbrev at_rest : System
at_rest = record { rw = unused; roles = λ i. outside }

at_rest-IsSound : IsSound 2 at_rest
unfolding weigh
at_rest-IsSound = record {
  counts = record {
    magic = refl;
    free = refl;
    readers = refl;
    writers = refl;
    one_writer = omega arith;
    waiting_readers = refl;
    waiting_writers = refl;
  };
}

abbrev written : System
written = becomes at_rest 1 writer (lock_with 0 0 (negsuc 0))

written-Reach : Reach 2 at_rest written
unfolding wrlock wrlock_loop
written-Reach =
    later start (write 1 0 (record { present = omega arith; state = refl; unheld = refl }) refl)

mutual_exclusion_example : (written.roles 0 ≢ reader) × (written.roles 0 ≢ writer)
mutual_exclusion_example =
    mutual_exclusion at_rest-IsSound written-Reach 1 0 (omega arith) (omega arith) (omega arith)
      refl
