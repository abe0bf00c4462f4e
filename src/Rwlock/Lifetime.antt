-- ===== src/Rwlock/Lifetime.antt =====
-- pthread_rwlock_init.c and pthread_rwlock_destory.c.
use interprocess_comm.Prelude.{
  ℕ, ◌≡◌, ◌≢◌, ◌⊎◌, inl, inr, ◌==◌, Bool-cases, refl, Bool, true, false, arith, pos,
}
use interprocess_comm.Rwlock.{RwLock, Parts, init, destroy}
use interprocess_comm.Rwlock.Counts.{Counts}

-- How many of the three parts are initialised: all of them, or none.
abbrev pub AllParts : Bool → Parts → Type 0
AllParts b p = (p.mutex ≡ b) × (p.condreaders ≡ b) × (p.condwriters ≡ b)

-- When `pthread_rwlock_init` returns 0 the lock is free with nobody waiting, and its three parts
-- are initialised; when it returns anything else the lock is untouched, and none of the three parts
-- is left initialised, if none was before.
pub init-AllParts :
    (attr : Bool) (m r w : ℕ) (l : RwLock) (p : Parts)
    → AllParts false p
    → let out = init attr m r w (l, p) in
      ((out.0 ≡ pos 0) × Counts out.1 0 0 0 0 × AllParts true out.2)
      ⊎ ((out.0 ≢ pos 0) × (out.1 ≡ l) × AllParts false out.2)
unfolding init
init-AllParts true m r w l p none_yet = inr (ground arith, refl, none_yet)
init-AllParts false m r w l p none_yet = elim (Bool-cases (m == 0)) [
  | inr bad ↦ rw bad (inr (ground arith, refl, none_yet))
  | inl good ↦ rw good (elim (Bool-cases (r == 0)) [
    | inr bad ↦ rw bad (inr (ground arith, refl, ground arith))
    | inl good ↦ rw good (elim (Bool-cases (w == 0)) [
      | inr bad ↦ rw bad (inr (ground arith, refl, ground arith))
      | inl good ↦ rw good (inl (refl, ground arith, ground arith))
    ])
  ])
]

-- `pthread_rwlock_destroy` gives the same answer, and leaves the three parts in the same state,
-- however many writers wait for the lock.
pub destroy-ignores_writers :
    (c : Bool) (rw : RwLock) (p : Parts) (m : ℕ)
    → ((destroy c (record rw { rw_nwaitwriters = m }, p)).0 ≡ (destroy c (rw, p)).0)
      × ((destroy c (record rw { rw_nwaitwriters = m }, p)).2 ≡ (destroy c (rw, p)).2)
unfolding destroy
destroy-ignores_writers c rw p m = (ground arith, ground arith)
