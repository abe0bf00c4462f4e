-- ===== src/Rwlock/Counts.antt =====
-- What each function of the lock does to its four counters (mutex/my_rwlock).
use interprocess_comm.Prelude.{
  ℕ, ◌+◌, ◌-◌, ◌≤◌, ◌<◌, ◌≡◌, ◌≢◌, ◌⊎◌, refl, true, false, arith, ℤ, pos, negsuc, pos_part,
  neg_part, if◌then◌else◌, ◌==◌,
}
use interprocess_comm.Rwlock.{
  RwLock, rw_magic_open, Wake, nobody, a_writer, all_readers, returns, waits, rdlock_loop, rdlock,
  rdlock_resume, wrlock_loop, wrlock, wrlock_resume, tryrdlock, trywrlock, wake_next, rw_unlock,
}

-- `r` readers and `w` writers hold the lock, `qr` and `qw` wait for it.
pub record Counts (rw : RwLock) (r w qr qw : ℕ) : Type 0 where
  pub magic : rw.rw_magic ≡ rw_magic_open
  pub free : rw.held ≡ false
  pub readers : pos_part rw.rw_refcount ≡ r
  pub writers : neg_part rw.rw_refcount ≡ w
  pub one_writer : w ≤ 1
  pub waiting_readers : rw.rw_nwaitreaders ≡ qr
  pub waiting_writers : rw.rw_nwaitwriters ≡ qw

module _ {rw rw' : RwLock} {r w qr qw : ℕ} (c : Counts rw r w qr qw) where
  pub rdlock-had :
      (k : ℕ) {x : Wake} → rdlock k rw ≡ returns (pos 0) rw' x → Counts rw' (r + 1) w qr qw
  unfolding rdlock rdlock_loop
  rdlock-had k e = ground arith

  pub rdlock-waits : (k : ℕ) → rdlock k rw ≡ waits rw' → Counts rw' r w (qr + 1) qw
  unfolding rdlock rdlock_loop
  rdlock-waits k e = ground arith

  pub rdlock_resume-had :
      {x : Wake}
      → 0 < qr
      → rdlock_resume 0 rw ≡ returns (pos 0) rw' x
      → Counts rw' (r + 1) w (qr - 1) qw
  unfolding rdlock_resume rdlock_loop
  rdlock_resume-had some_one e = ground arith

  pub rdlock_resume-waits : 0 < qr → rdlock_resume 0 rw ≡ waits rw' → Counts rw' r w qr qw
  unfolding rdlock_resume rdlock_loop
  rdlock_resume-waits some_one e = ground arith

  pub rdlock_resume-failed :
      (k : ℕ) {z : ℤ} {x : Wake}
      → k ≢ 0
      → rdlock_resume k rw ≡ returns z rw' x
      → Counts rw' r w (qr - 1) qw
  unfolding rdlock_resume
  rdlock_resume-failed k ne e = ground arith

  pub tryrdlock-had :
      (k : ℕ) {x : Wake} → tryrdlock k rw ≡ returns (pos 0) rw' x → Counts rw' (r + 1) w qr qw
  unfolding tryrdlock
  tryrdlock-had k e = ground arith

  pub wrlock-had :
      (k : ℕ) {x : Wake}
      → wrlock k rw ≡ returns (pos 0) rw' x
      → (r ≡ 0) × (w ≡ 0) × Counts rw' 0 1 qr qw
  unfolding wrlock wrlock_loop
  wrlock-had k e = (ground arith, ground arith, ground arith)

  pub wrlock-waits : (k : ℕ) → wrlock k rw ≡ waits rw' → Counts rw' r w qr (qw + 1)
  unfolding wrlock wrlock_loop
  wrlock-waits k e = ground arith

  pub wrlock_resume-had :
      {x : Wake}
      → 0 < qw
      → wrlock_resume 0 rw ≡ returns (pos 0) rw' x
      → (r ≡ 0) × (w ≡ 0) × Counts rw' 0 1 qr (qw - 1)
  unfolding wrlock_resume wrlock_loop
  wrlock_resume-had some_one e = (ground arith, ground arith, ground arith)

  pub wrlock_resume-waits : 0 < qw → wrlock_resume 0 rw ≡ waits rw' → Counts rw' r w qr qw
  unfolding wrlock_resume wrlock_loop
  wrlock_resume-waits some_one e = ground arith

  pub wrlock_resume-failed :
      (k : ℕ) {z : ℤ} {x : Wake}
      → k ≢ 0
      → wrlock_resume k rw ≡ returns z rw' x
      → Counts rw' r w qr (qw - 1)
  unfolding wrlock_resume
  wrlock_resume-failed k ne e = ground arith

  pub trywrlock-had :
      (k : ℕ) {x : Wake}
      → trywrlock k rw ≡ returns (pos 0) rw' x
      → (r ≡ 0) × (w ≡ 0) × Counts rw' 0 1 qr qw
  unfolding trywrlock
  trywrlock-had k e = (ground arith, ground arith, ground arith)

  pub refused-same :
      (k : ℕ) {z : ℤ} {x : Wake}
      → z ≢ pos 0
      → (rdlock k rw ≡ returns z rw' x)
        ⊎ (wrlock k rw ≡ returns z rw' x)
        ⊎ (tryrdlock k rw ≡ returns z rw' x)
        ⊎ (trywrlock k rw ≡ returns z rw' x)
      → Counts rw' r w qr qw
  unfolding rdlock rdlock_loop wrlock wrlock_loop tryrdlock trywrlock
  refused-same k ne e = ground arith

  pub unlock-reader :
      (a b : ℕ) {z : ℤ} {x : Wake}
      → 0 < r
      → rw_unlock 0 a b rw ≡ returns z rw' x
      → Counts rw' (r - 1) w qr qw
  unfolding rw_unlock wake_next
  unlock-reader a b some_one e = ground arith

  pub unlock-writer :
      (a b : ℕ) {z : ℤ} {x : Wake}
      → 0 < w
      → rw_unlock 0 a b rw ≡ returns z rw' x
      → (r ≡ 0) × Counts rw' 0 0 qr qw
  unfolding rw_unlock wake_next
  unlock-writer a b some_one e = (ground arith, ground arith)

-- The threads that an unlock should wake: a writer once the lock is free, else all readers unless a
-- writer waits.
abbrev pub due : (held_by qr qw : ℕ) → Wake
due held_by qr qw =
    if qw == 0
    then (if qr == 0 then nobody else all_readers)
    else if held_by == 0
    then a_writer
    else nobody

-- While somebody holds the lock, and its mutex can be had: an unlock returns, with the mutex free
-- and one holder less, and wakes whom `due` names: a waiting writer once the lock is free, and all
-- waiting readers if no writer waits.
pub unlock-wakes :
    (a b : ℕ) (rw : RwLock) {r w qr qw : ℕ}
    → Counts rw r w qr qw
    → 0 < r + w
    → (rw' : RwLock) × (z : ℤ) × (rw_unlock 0 a b rw ≡ returns z rw' (due (r + w - 1) qr qw))
      × Counts rw' (r - 1) 0 qr qw
unfolding rw_unlock wake_next
unlock-wakes a b rw {r} {w} {qr} {qw} c some_one =
    (record rw { held = false; rw_refcount = pos (r + w - 1) }, answer, ground arith, ground arith)
  where
    answer : ℤ
    answer =
        if qw == 0
        then (if qr == 0 then pos 0 else pos b)
        else if r + w - 1 == 0
        then pos a
        else pos 0

-- With a mutex that can be had, an unlock of a lock that nobody holds returns -1 and leaves the
-- mutex held.
pub unlock-idle :
    (a b : ℕ) (rw : RwLock) {qr qw : ℕ}
    → Counts rw 0 0 qr qw
    → (rw' : RwLock) × (rw_unlock 0 a b rw ≡ returns (negsuc 0) rw' nobody) × (rw'.held ≡ true)
unfolding rw_unlock
unlock-idle a b rw c = (record rw { held = true }, ground arith, refl)
