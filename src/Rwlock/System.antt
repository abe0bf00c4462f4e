-- ===== src/Rwlock/System.antt =====
-- Threads that share one read-write lock. Each call is one step from the mutex to its return or to
-- its wait. A thread unlocks only what it holds.
pub mod Safety
use interprocess_comm.Prelude.{ℕ, ◌<◌, ◌≡◌, ◌≢◌, ◌⊎◌, false, ℤ, pos, put}
use interprocess_comm.Rwlock.{
  RwLock, Wake, returns, waits, rdlock, rdlock_resume, wrlock, wrlock_resume, tryrdlock, trywrlock,
  rw_unlock,
}

pub data Role : Type 0 where
  outside reader writer waits_to_read waits_to_write : Role

pub record System : Type 0 where
  pub rw : RwLock
  pub roles : ℕ → Role

pub record Enters (n : ℕ) (s : System) (i : ℕ) (t : Role) : Type 0 where
  pub present : i < n
  pub state : s.roles i ≡ t
  pub unheld : s.rw.held ≡ false

abbrev pub becomes : System → ℕ → Role → RwLock → System
becomes s i t rw = record { rw = rw; roles = put s.roles i t }

-- A result of 0 says that the lock is had; any other leaves the thread outside.
pub data Step (n : ℕ) (s : System) : System → Type 0 where
  read :
      (i k : ℕ) {rw : RwLock} {w : Wake}
      → Enters n s i outside
      → rdlock k s.rw ≡ returns (pos 0) rw w
      → Step n s (becomes s i reader rw)
  read_waits :
      (i k : ℕ) {rw : RwLock}
      → Enters n s i outside
      → rdlock k s.rw ≡ waits rw
      → Step n s (becomes s i waits_to_read rw)
  read_wakes :
      (i : ℕ) {rw : RwLock} {w : Wake}
      → Enters n s i waits_to_read
      → rdlock_resume 0 s.rw ≡ returns (pos 0) rw w
      → Step n s (becomes s i reader rw)
  read_sleeps :
      (i : ℕ) {rw : RwLock}
      → Enters n s i waits_to_read
      → rdlock_resume 0 s.rw ≡ waits rw
      → Step n s (becomes s i waits_to_read rw)
  read_fails :
      (i result : ℕ) {r : ℤ} {rw : RwLock} {w : Wake}
      → Enters n s i waits_to_read
      → result ≢ 0
      → rdlock_resume result s.rw ≡ returns r rw w
      → Step n s (becomes s i outside rw)
  try_read :
      (i k : ℕ) {rw : RwLock} {w : Wake}
      → Enters n s i outside
      → tryrdlock k s.rw ≡ returns (pos 0) rw w
      → Step n s (becomes s i reader rw)
  write :
      (i k : ℕ) {rw : RwLock} {w : Wake}
      → Enters n s i outside
      → wrlock k s.rw ≡ returns (pos 0) rw w
      → Step n s (becomes s i writer rw)
  write_waits :
      (i k : ℕ) {rw : RwLock}
      → Enters n s i outside
      → wrlock k s.rw ≡ waits rw
      → Step n s (becomes s i waits_to_write rw)
  write_wakes :
      (i : ℕ) {rw : RwLock} {w : Wake}
      → Enters n s i waits_to_write
      → wrlock_resume 0 s.rw ≡ returns (pos 0) rw w
      → Step n s (becomes s i writer rw)
  write_sleeps :
      (i : ℕ) {rw : RwLock}
      → Enters n s i waits_to_write
      → wrlock_resume 0 s.rw ≡ waits rw
      → Step n s (becomes s i waits_to_write rw)
  write_fails :
      (i result : ℕ) {r : ℤ} {rw : RwLock} {w : Wake}
      → Enters n s i waits_to_write
      → result ≢ 0
      → wrlock_resume result s.rw ≡ returns r rw w
      → Step n s (becomes s i outside rw)
  try_write :
      (i k : ℕ) {rw : RwLock} {w : Wake}
      → Enters n s i outside
      → trywrlock k s.rw ≡ returns (pos 0) rw w
      → Step n s (becomes s i writer rw)
  read_ends :
      (i signal broadcast : ℕ) {r : ℤ} {rw : RwLock} {w : Wake}
      → Enters n s i reader
      → rw_unlock 0 signal broadcast s.rw ≡ returns r rw w
      → Step n s (becomes s i outside rw)
  write_ends :
      (i signal broadcast : ℕ) {r : ℤ} {rw : RwLock} {w : Wake}
      → Enters n s i writer
      → rw_unlock 0 signal broadcast s.rw ≡ returns r rw w
      → Step n s (becomes s i outside rw)
  -- A call that fails, or finds the lock busy.
  refused :
      (i k : ℕ) {r : ℤ} {rw : RwLock} {w : Wake}
      → Enters n s i outside
      → r ≢ pos 0
      → (rdlock k s.rw ≡ returns r rw w)
        ⊎ (wrlock k s.rw ≡ returns r rw w)
        ⊎ (tryrdlock k s.rw ≡ returns r rw w)
        ⊎ (trywrlock k s.rw ≡ returns r rw w)
      → Step n s (becomes s i outside rw)

pub data Reach (n : ℕ) (s : System) : System → Type 0 where
  start : Reach n s s
  later : {t u : System} → Reach n s t → Step n t u → Reach n s u
