-- ===== src/SemSvsem/Open/Keys.antt =====
-- What sem_open.c and sem_unlink.c do to the sets of the kernel.
use interprocess_comm.Prelude.{
  ℕ, zero, suc, ◌+◌, ◌≤◌, ◌<◌, ◌≡◌, ◌≢◌, ◌⊎◌, refl, true, false, Option, none, some, arith,
}
use interprocess_comm.Posix.Errno
use interprocess_comm.SemSvsem.{SemSet, semvmx}
use interprocess_comm.SemSvsem.Open.{
  Oflag, Sets, Key, key_of, Stat, stat_ok, Calls, opened, failed, initialize, wait_init, max_tries,
  open_existing, open_create, sem_open, sem_unlink,
}

-- All the calls of an opening succeed.
pub record Fine (c : Calls) : Type 0 where
  pub path : c.open_path ≡ none
  pub get_new : c.semget_new ≡ none
  pub setval : c.setval ≡ none
  pub semop : c.semop ≡ none
  pub get_old : c.semget_old ≡ none
  pub stat : c.stats 0 ≡ stat_ok true
  pub malloc : c.malloc ≡ none

module _ (val : ℕ) (oflag : Oflag) (c : Calls) (sets : Sets) where
  -- When `ftok(pathname, 0)` gives a key, `sem_open` touches no set but the one under that key.
  pub sem_open-others :
      (key other : ℕ)
      → c.ftok 0 ≡ key_of key
      → key ≢ other
      → (sem_open val oflag c sets).1 other ≡ sets other
  unfolding sem_open open_create open_existing initialize
  sem_open-others key other q n = ground arith

  -- Where there was no set under the key of `ftok(pathname, 0)`, a `sem_open` that fails leaves
  -- none.
  pub sem_open-none :
      (key e : ℕ)
      → c.ftok 0 ≡ key_of key
      → sets key ≡ none
      → (sem_open val oflag c sets).0 ≡ failed e
      → (sem_open val oflag c sets).1 key ≡ none
  unfolding sem_open open_create open_existing initialize
  sem_open-none key e q n f = ground arith

wait_init-late :
    (tries i : ℕ) (stats : ℕ → Stat)
    → ((j : ℕ) → j < i + tries → stats j ≡ stat_ok false)
    → wait_init tries i stats ≡ some Errno.etimedout
unfolding wait_init
wait_init-late zero i stats late = refl
wait_init-late (suc tries) i stats late = ground (
  arith,
  late i (omega arith),
  wait_init-late tries (i + 1) stats λ j h. late j (omega (arith, h)),
)

module _ (val : ℕ) (oflag : Oflag) (c : Calls) (sets : Sets) where
  -- When its calls succeed, `sem_open` with O_CREAT makes a set where there was none, with the
  -- value asked for, if that is within SEMVMX; where there is a set that is initialised, `sem_open`
  -- without O_EXCL or without O_CREAT finds it and changes nothing.
  pub sem_open-finds :
      (key : ℕ)
      → Fine c
      → c.ftok 0 ≡ key_of key
      → ((sets key ≡ none
            → oflag.creat ≡ true
            → val ≤ semvmx
            → ((sem_open val oflag c sets).0 ≡ opened c.fresh)
              × ((sem_open val oflag c sets).1 key
                  ≡ some (record { semid = c.fresh; semval = val; otime = true })))
          × ((set : SemSet)
              → sets key ≡ some set
              → (oflag.excl ≡ false) ⊎ (oflag.creat ≡ false)
              → sem_open val oflag c sets ≡ (opened set.semid, sets)))
  unfolding sem_open open_create open_existing initialize wait_init
  sem_open-finds key fine q = (λ n o v. (ground arith, ground arith), λ set s o. ground arith)

  -- Without O_EXCL, when `open` and `semget` succeed, a set that exists and is found uninitialised
  -- in all of the ten tries is removed: `sem_open` fails with ETIMEDOUT, and whoever made the set
  -- has lost it.
  pub sem_open-removes :
      (key : ℕ) (set : SemSet)
      → c.open_path ≡ none
      → c.semget_old ≡ none
      → c.ftok 0 ≡ key_of key
      → sets key ≡ some set
      → oflag.excl ≡ false
      → ((i : ℕ) → i < 10 → c.stats i ≡ stat_ok false)
      → ((sem_open val oflag c sets).0 ≡ failed Errno.etimedout)
        × ((sem_open val oflag c sets).1 key ≡ none)
  unfolding sem_open open_create open_existing
  sem_open-removes key set path old q s o late =
      let timeout = wait_init-late max_tries 0 c.stats late in
      (ground (arith, timeout), ground (arith, timeout))

-- When `ftok` gives the path different keys under 0 and 1, `sem_unlink` does not remove the set that
-- `sem_open` uses, whatever it returns.
pub sem_unlink-keeps :
    (ftok : ℕ → Key) (u g r : Option ℕ) (sets : Sets) (key : ℕ)
    → ftok 0 ≡ key_of key
    → ftok 1 ≢ key_of key
    → (sem_unlink ftok u g r sets).1 key ≡ sets key
unfolding sem_unlink
sem_unlink-keeps ftok u g r sets key q n = ground arith
