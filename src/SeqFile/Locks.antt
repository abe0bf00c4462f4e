-- ===== src/SeqFile/Locks.antt =====
-- lock/lockfcntl.c, lock/lockopen.c, lock/locknone.c: `my_lock` and `my_unlock`, and what their system
-- calls do.
use interprocess_comm.Prelude.{
  ℕ, ◌+◌, Bool, true, false, not, ◌&&◌, ◌||◌, ltb, leb, ◌==◌, if◌then◌else◌, Option, none, some,
}

-- The three files.
pub data Lock : Type 0 where
  lockfcntl lockopen locknone : Lock

pub data LockType : Type 0 where
  f_rdlck f_wrlck f_unlck : LockType

-- `struct flock`, with `l_whence` SEEK_SET. A length of 0 reaches to the end of the file, however far.
pub record Flock : Type 0 where
  pub l_type : LockType
  pub l_start : ℕ
  pub l_len : ℕ

-- The calls: fcntl with F_SETLKW or F_SETLK, open of LOCKFILE with O_CREAT | O_EXCL until it succeeds,
-- unlink of LOCKFILE, or none.
pub data Call : Type 0 where
  setlkw setlk : Flock → Call
  open_excl unlink no_call : Call

unfoldable pub my_lock : Lock → Call
my_lock lockfcntl = setlkw (record { l_type = f_wrlck; l_start = 0; l_len = 0 })
my_lock lockopen = open_excl
my_lock locknone = no_call

unfoldable pub my_unlock : Lock → Call
my_unlock lockfcntl = setlk (record { l_type = f_unlck; l_start = 0; l_len = 0 })
my_unlock lockopen = unlink
my_unlock locknone = no_call

-- The lock on the file last granted, with its process, and whether LOCKFILE exists.
pub record Kernel : Type 0 where
  pub held : Option (ℕ × Flock)
  pub lock_file : Bool

abbrev ends_before : Flock → Flock → Bool
ends_before a b = ltb 0 a.l_len && leb (a.l_start + a.l_len) b.l_start

abbrev overlap : Flock → Flock → Bool
overlap a b = not (ends_before a b) && not (ends_before b a)

abbrev is_write : LockType → Bool
is_write f_wrlck = true
is_write _ = false

abbrev is_unlock : LockType → Bool
is_unlock f_unlck = true
is_unlock _ = false

-- A lock of another process on some of the same bytes, where one of the two is for writing.
abbrev conflicts : (p : ℕ) → Flock → Option (ℕ × Flock) → Bool
conflicts p l none = false
conflicts p l (some (q, h)) =
    not (p == q) && (is_write l.l_type || is_write h.l_type) && overlap l h

-- An unlock takes the process's own lock off if it covers it.
abbrev released : (p : ℕ) → Flock → Option (ℕ × Flock) → Option (ℕ × Flock)
released p l none = none
released p l (some (q, h)) =
    if (p == q) && leb l.l_start h.l_start && (l.l_len == 0) then none else some (q, h)

-- What a call of process `p` does, if it does not wait.
unfoldable pub perform : (p : ℕ) → Call → Kernel → Option Kernel
perform p (setlkw l) k =
    if is_unlock l.l_type
    then some (record k { held = released p l k.held })
    else (if conflicts p l k.held then none else some (record k { held = some (p, l) }))
perform p (setlk l) k =
    if is_unlock l.l_type
    then some (record k { held = released p l k.held })
    else (if conflicts p l k.held then some k else some (record k { held = some (p, l) }))
perform p open_excl k = if k.lock_file then none else some (record k { lock_file = true })
perform p unlink k = some (record k { lock_file = false })
perform p no_call k = some k
