-- ===== src/SemMmap/Open/Retry.antt =====
-- What the retries of sem_open.c lead to.
use interprocess_comm.Prelude.{
  ℕ, ◌+◌, ◌≤◌, ◌≡◌, refl, Bool, true, false, Option, none, some, List, [], ◌∷◌, arith, All,
}
use interprocess_comm.Posix.{Action, open_fd, close_fd, map_file}
use interprocess_comm.Posix.Errno
use interprocess_comm.Posix.Tally.{Tally, tally, tally-append}
use interprocess_comm.SemMmap.Open.{
  Oflag, stat_failed, Pass, Ending, opened, failed, go_again, go_exists, Run, init_file,
  create_branch, Waited, ready, gone, broken, max_tries, wait_init, wait_existing, exists_branch,
  one_pass, mapped_after, followed_by, sem_open,
}

-- A pass that finds the file and cannot open it.
pub record Barred (p : Pass) : Type 0 where
  pub found : p.open_excl ≡ some Errno.eexist
  pub errno : ℕ
  pub barred : p.open_rdwr ≡ some errno

abbrev pub creating : Oflag
creating = record { creat = true; excl = false }

module _ (size value : ℕ) where
  Barred-pass :
      (stale : Bool) (p : Pass) → Barred p → one_pass size value creating stale p ≡ (go_again, [])
  unfolding one_pass create_branch exists_branch
  Barred-pass stale p b = ground arith

  -- With O_CREAT and without O_EXCL, on a file that exists and that no pass can open, whatever the
  -- reason, `sem_open` is still trying after any number of passes.
  pub sem_open-never_ends :
      (stale : Bool) (ps : List Pass)
      → All Barred ps
      → (sem_open size value creating stale ps).0 ≡ none
  unfolding sem_open
  sem_open-never_ends stale [] all = refl
  sem_open-never_ends stale (p ∷ ps) all =
      rw (Barred-pass stale p all.0) (sem_open-never_ends stale ps all.1)

  -- Without O_CREAT, when the file cannot be opened, `sem_open` fails with `errno` 0, whatever the
  -- reason was.
  pub sem_open-loses_errno :
      (excl : Bool) (p : Pass) (ps : List Pass) (e : ℕ)
      → p.open_rdwr ≡ some e
      → (sem_open size value (record { creat = false; excl = excl }) false (p ∷ ps)).0
        ≡ some (failed 0)
  unfolding sem_open one_pass exists_branch
  sem_open-loses_errno excl p ps e q = ground arith

-- No more is unmapped than is mapped, and a success keeps a mapping.
abbrev Held : Option Ending → Tally → Type 0
Held (some (opened count)) t = t.unmapped + 1 ≤ t.maps
Held (some go_again) t = t.unmapped ≤ t.maps
Held _ t = Unit

module _ (size value : ℕ) (oflag : Oflag) where
  wait_existing-Held :
      (w : Waited)
      → Held (some (wait_existing size w).0) (tally (map_file size ∷ (wait_existing size w).1))
  wait_existing-Held ready = omega arith
  wait_existing-Held gone = omega arith
  wait_existing-Held (broken e) = tt

  one_pass-Held :
      (stale : Bool) (p : Pass)
      → let r = one_pass size value oflag stale p in Held (some r.0) (tally r.1)
  unfolding one_pass create_branch init_file exists_branch
  one_pass-Held stale p =
      ground (arith, wait_existing-Held (wait_init oflag.creat max_tries 0 p.stats))

  followed_by-Held :
      (r : Run) (rest : Option Ending × List Action)
      → Held (some r.0) (tally r.1)
      → Held rest.0 (tally rest.1)
      → Held (followed_by r rest).0 (tally (followed_by r rest).1)
  followed_by-Held (opened count, done) rest h h' = h
  followed_by-Held (failed e, done) rest h h' = tt
  followed_by-Held (go_exists, done) rest h h' = tt
  followed_by-Held (go_again, done) (some (opened count), more) h h' =
      rw (tally-append done more) (omega arith)
  followed_by-Held (go_again, done) (some go_again, more) h h' =
      rw (tally-append done more) (omega arith)
  followed_by-Held (go_again, done) (some (failed e), more) h h' = tt
  followed_by-Held (go_again, done) (some go_exists, more) h h' = tt
  followed_by-Held (go_again, done) (none, more) h h' = tt

  sem_open-Held :
      (ps : List Pass) (stale : Bool)
      → let r = sem_open size value oflag stale ps in Held r.0 (tally r.1)
  unfolding sem_open
  sem_open-Held [] stale = tt
  sem_open-Held (p ∷ ps) stale =
      followed_by-Held (one_pass size value oflag stale p)
        (sem_open size value oflag (mapped_after stale (one_pass size value oflag stale p).1) ps)
        (one_pass-Held stale p) (sem_open-Held ps _)

-- A pass that maps the file and then finds it unlinked.
pub record Unlinked (p : Pass) : Type 0 where
  pub found : p.open_excl ≡ some Errno.eexist
  pub opens : p.open_rdwr ≡ none
  pub maps : p.mmap_existing ≡ none
  pub vanished : p.stats 0 ≡ stat_failed Errno.enoent

module _ (size value : ℕ) where
  Unlinked-pass :
      (stale : Bool) (p : Pass)
      → Unlinked p
      → one_pass size value creating stale p ≡ (go_again, open_fd ∷ map_file size ∷ close_fd ∷ [])
  unfolding one_pass create_branch exists_branch wait_init
  Unlinked-pass stale p u = ground arith

  again-leaks :
      (r : Option Ending × List Action) (count : Option ℕ)
      → r.0 ≡ some (opened count)
      → Held r.0 (tally r.1)
      → let t = tally (open_fd ∷ map_file size ∷ close_fd ∷ r.1) in t.unmapped + 2 ≤ t.maps
  again-leaks (some (opened c), done) count q h =
      rw (tally-append (open_fd ∷ map_file size ∷ close_fd ∷ []) done) (omega arith)
  again-leaks (some (failed e), done) count q h = cc
  again-leaks (some go_again, done) count q h = cc
  again-leaks (some go_exists, done) count q h = cc
  again-leaks (none, done) count q h = cc

  -- With O_CREAT and without O_EXCL, a pass that maps the semaphore's file, finds it unlinked and
  -- goes round again leaks its mapping: when a later pass opens the semaphore, at least two more
  -- mappings have been made than undone.
  pub sem_open-leaks :
      (p : Pass) (ps : List Pass) (count : Option ℕ)
      → Unlinked p
      → (sem_open size value creating true ps).0 ≡ some (opened count)
      → let t = tally (sem_open size value creating false (p ∷ ps)).1 in t.unmapped + 2 ≤ t.maps
  unfolding sem_open
  sem_open-leaks p ps count u q = rw (Unlinked-pass false p u) (
      again-leaks (sem_open size value creating true ps) count q
        (sem_open-Held size value creating ps true))
