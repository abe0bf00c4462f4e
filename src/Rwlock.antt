-- ===== src/Rwlock.antt =====
-- mutex/my_rwlock: a read-write lock from a mutex, two condition variables and four counters
-- (pthread_rwlock.h and the file of each function). The results are the functions' own: 0, an
-- error number, or -1.
pub mod Counts
pub mod Lifetime
pub mod System
use interprocess_comm.Prelude.{
  ℕ, ◌+◌, ◌-◌, Bool, true, false, not, ◌&&◌, ◌||◌, Option, none, some, if◌then◌else◌, ◌==◌, ltb, ℤ,
  pos, negsuc, ◌+ℤ◌, ◌-ℤ◌, ltb_ℤ,
}
use interprocess_comm.Posix.Errno

-- `held` says whether `rw_mutex` is held. The condition variables have no state of their own.
pub record RwLock : Type 0 where
  pub held : Bool
  pub rw_magic : ℕ
  pub rw_nwaitreaders : ℕ
  pub rw_nwaitwriters : ℕ
  pub rw_refcount : ℤ

abbrev pub rw_magic_open : ℕ
rw_magic_open = 0x19283746

-- The threads that a call wakes.
pub data Wake : Type 0 where
  nobody a_writer all_readers : Wake

-- A call returns, or stops in `pthread_cond_wait` with the mutex released.
pub data RwOutcome : Type 0 where
  returns : (result : ℤ) → RwLock → Wake → RwOutcome
  waits : RwLock → RwOutcome

abbrev pub lock : RwLock → RwLock
lock rw = record rw { held = true }

abbrev pub unlock : RwLock → RwLock
unlock rw = record rw { held = false }

abbrev pub done : RwLock → RwOutcome
done rw = returns (pos 0) (unlock rw) nobody

-- `if (rw->rw_magic != RW_MAGIC) return EINVAL;` and the call of `pthread_mutex_lock`, which
-- returns `n`: how each of the five functions begins.
abbrev pub begin : (n : ℕ) → RwLock → (RwLock → RwOutcome) → RwOutcome
begin n rw body =
    if not (rw.rw_magic == rw_magic_open)
    then returns (pos Errno.einval) rw nobody
    else if not (n == 0)
    then returns (pos n) rw nobody
    else body (lock rw)

-- rw->rw_refcount == k
abbrev pub refcount_is : RwLock → ℤ → Bool
refcount_is rw k = not (ltb_ℤ rw.rw_refcount k) && not (ltb_ℤ k rw.rw_refcount)

-- Held by a writer, or a writer waits.
abbrev pub no_readers : RwLock → Bool
no_readers rw = ltb_ℤ rw.rw_refcount (pos 0) || ltb 0 rw.rw_nwaitwriters

abbrev pub add_reader : RwLock → RwLock
add_reader rw = record rw { rw_refcount = rw.rw_refcount +ℤ pos 1 }

-- The `while` of pthread_rwlock_rdlock.c, to the next wait or to the end.
unfoldable pub rdlock_loop : RwLock → RwOutcome
rdlock_loop rw =
    if no_readers rw
    then waits (unlock (record rw { rw_nwaitreaders = rw.rw_nwaitreaders + 1 }))
    else done (add_reader rw)

unfoldable pub rdlock : (n : ℕ) → RwLock → RwOutcome
rdlock n rw = begin n rw rdlock_loop

-- `pthread_cond_wait` returns `result`, with the mutex held again.
unfoldable pub rdlock_resume : (result : ℕ) → RwLock → RwOutcome
rdlock_resume result rw =
    let rw' = lock (record rw { rw_nwaitreaders = rw.rw_nwaitreaders - 1 }) in
    if result == 0 then rdlock_loop rw' else returns (pos result) (unlock rw') nobody

-- The `while` of pthread_rwlock_wrlock.c.
unfoldable pub wrlock_loop : RwLock → RwOutcome
wrlock_loop rw =
    if refcount_is rw (pos 0)
    then done (record rw { rw_refcount = negsuc 0 })
    else waits (unlock (record rw { rw_nwaitwriters = rw.rw_nwaitwriters + 1 }))

unfoldable pub wrlock : (n : ℕ) → RwLock → RwOutcome
wrlock n rw = begin n rw wrlock_loop

unfoldable pub wrlock_resume : (result : ℕ) → RwLock → RwOutcome
wrlock_resume result rw =
    let rw' = lock (record rw { rw_nwaitwriters = rw.rw_nwaitwriters - 1 }) in
    if result == 0 then wrlock_loop rw' else returns (pos result) (unlock rw') nobody

unfoldable pub tryrdlock : (n : ℕ) → RwLock → RwOutcome
tryrdlock n rw =
    begin n rw
      λ l. if no_readers l then returns (pos Errno.ebusy) (unlock l) nobody else done (add_reader l)

unfoldable pub trywrlock : (n : ℕ) → RwLock → RwOutcome
trywrlock n rw = begin n rw λ l.
    if refcount_is l (pos 0)
    then done (record l { rw_refcount = negsuc 0 })
    else returns (pos Errno.ebusy) (unlock l) nobody

-- Waiting writers go before waiting readers. `signal` and `broadcast` are what the two calls return.
unfoldable pub wake_next : (signal broadcast : ℕ) → RwLock → RwOutcome
wake_next signal broadcast rw =
    if ltb 0 rw.rw_nwaitwriters
    then (if refcount_is rw (pos 0) then returns (pos signal) (unlock rw) a_writer else done rw)
    else if ltb 0 rw.rw_nwaitreaders
    then returns (pos broadcast) (unlock rw) all_readers
    else done rw

-- The last branch returns -1 with the mutex held.
unfoldable pub rw_unlock : (n signal broadcast : ℕ) → RwLock → RwOutcome
rw_unlock n signal broadcast rw = begin n rw λ l.
    if ltb_ℤ (pos 0) l.rw_refcount
    then wake_next signal broadcast (record l { rw_refcount = l.rw_refcount -ℤ pos 1 })
    else if refcount_is l (negsuc 0)
    then wake_next signal broadcast (record l { rw_refcount = pos 0 })
    else returns (negsuc 0) l nobody

-- pthread_rwlock_init.c: what the three calls return (0, or an error number), and whether
-- attributes are given. Beside the lock, what is left initialised of the mutex and the two
-- condition variables.
pub record Parts : Type 0 where
  pub mutex : Bool
  pub condreaders : Bool
  pub condwriters : Bool

unfoldable pub init :
    (attr : Bool) (mutex_init readers_init writers_init : ℕ) → RwLock × Parts → ℤ × RwLock × Parts
init attr mutex_init readers_init writers_init (rw, p) =
    if attr
    then (pos Errno.einval, rw, p)
    else if not (mutex_init == 0)
    then (pos mutex_init, rw, p)
    else if not (readers_init == 0)
    then (pos readers_init, rw, record p { mutex = false })
    else if not (writers_init == 0)
    then (pos writers_init, rw, record p { mutex = false; condreaders = false })
    else (
      pos 0,
      record {
        held = false;
        rw_magic = rw_magic_open;
        rw_nwaitreaders = 0;
        rw_nwaitwriters = 0;
        rw_refcount = pos 0;
      },
      record { mutex = true; condreaders = true; condwriters = true },
    )

-- pthread_rwlock_destory.c. The third test reads `rw_condwriters != 0`, where `rw_nwaitwriters` is
-- meant: `cond_nonzero` is what that comparison of the condition variable gives.
unfoldable pub destroy : (cond_nonzero : Bool) → RwLock × Parts → ℤ × RwLock × Parts
destroy cond_nonzero (rw, p) =
    if not (rw.rw_magic == rw_magic_open)
    then (pos Errno.einval, rw, p)
    else if not (refcount_is rw (pos 0)) || not (rw.rw_nwaitreaders == 0) || cond_nonzero
    then (pos Errno.ebusy, rw, p)
    else (
      pos 0,
      record rw { rw_magic = 0 },
      record { mutex = false; condreaders = false; condwriters = false },
    )
