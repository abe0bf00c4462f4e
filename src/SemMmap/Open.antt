-- ===== src/SemMmap/Open.antt =====
-- pxsem/my_pxsem_mmap/sem_open.c.
pub mod Retry
use interprocess_comm.Prelude.{
  ℕ, zero, suc, ◌+◌, Bool, true, false, not, ◌&&◌, ◌||◌, Option, none, some, List, [], ◌∷◌, ◌++◌,
  if◌then◌else◌, ◌==◌, ltb,
}
use interprocess_comm.Posix.{
  Action, create_file, unlink_file, open_fd, close_fd, map_file, unmap_file, attempt,
}
use interprocess_comm.Posix.Errno
use interprocess_comm.SemMmap.{Sem, sem_magic_open}

pub record Oflag : Type 0 where
  pub creat : Bool
  pub excl : Bool

abbrev pub max_tries : ℕ
max_tries = 10

-- `stat` fails, or says whether the user-execute bit is on.
pub data Stat : Type 0 where
  stat_failed : (errno : ℕ) → Stat
  stat_ok : (executable : Bool) → Stat

-- What the calls of one pass through `again:` return: an error number, or none.
pub record Pass : Type 0 where
  pub open_excl : Option ℕ
  pub write : Option ℕ
  pub mmap : Option ℕ
  pub mutexattr_init : Option ℕ
  pub mutex_init : Option ℕ
  pub condattr_init : Option ℕ
  pub cond_init : Option ℕ
  pub sem_value_max : ℕ
  pub fchmod : Option ℕ
  pub open_rdwr : Option ℕ
  pub mmap_existing : Option ℕ
  pub stats : ℕ → Stat

-- Where a pass ends. Opening a semaphore that exists leaves its value alone: `none`.
pub data Ending : Type 0 where
  opened : (count : Option ℕ) → Ending
  failed : (errno : ℕ) → Ending
  go_again : Ending
  go_exists : Ending

abbrev pub Run : Type 0
Run = Ending × List Action

abbrev pub after : List Action → Run → Run
after done (e, more) = (e, done ++ more)

-- `err:`, where `sem` may be a mapping.
abbrev pub err : (size errno : ℕ) (created mapped : Bool) → Run
err size e created mapped = (
  failed e,
  (if created then unlink_file ∷ [] else [])
      ++ (if mapped then unmap_file size ∷ [] else [])
      ++ close_fd ∷ [],
)

-- The branch that has made the file. `stale` says that `sem` is left over from an earlier pass.
unfoldable pub init_file : (size value : ℕ) (stale : Bool) → Pass → Run
init_file size value stale p =
    attempt p.write (λ e. err size e true stale)
      (attempt p.mmap (λ e. err size e true false)
        (after (map_file size ∷ []) (
          attempt p.mutexattr_init (λ e. err size e true true)
            (attempt p.mutex_init (λ e. err size e true true)
              (attempt p.condattr_init (λ e. err size e true true)
                (attempt p.cond_init (λ e. err size e true true)
                  (if ltb p.sem_value_max value
                    then err size Errno.einval true true
                    else attempt p.fchmod (λ e. err size e true true)
                        (opened (some value), close_fd ∷ []))))))))

-- `if (oflag & O_CREAT) { … }`
unfoldable pub create_branch : (size value : ℕ) → Oflag → (stale : Bool) → Pass → Run
create_branch size value oflag stale p =
    attempt p.open_excl
      (λ e. if e == Errno.eexist && not oflag.excl then (go_exists, []) else (failed e, []))
      (after (create_file ∷ open_fd ∷ []) (init_file size value stale p))

-- The loop over `stat`.
pub data Waited : Type 0 where
  ready gone : Waited
  broken : (errno : ℕ) → Waited

unfoldable pub wait_init : (creat : Bool) → (tries i : ℕ) → (ℕ → Stat) → Waited
wait_init creat zero i stats = broken Errno.etimedout
wait_init creat (suc tries) i stats =
    let next = wait_init creat tries (i + 1) stats in
    elim (stats i) [
      | stat_failed e ↦ if e == Errno.enoent && creat then gone else broken e
      | stat_ok executable ↦ if executable then next else ready
    ]

abbrev pub wait_existing : (size : ℕ) → Waited → Run
wait_existing size ready = (opened none, close_fd ∷ [])
wait_existing size gone = (go_again, close_fd ∷ [])
wait_existing size (broken e) = err size e false true

-- `exists:`. The test of the failed `open` reads `errno = ENOENT && (oflag & O_CREAT)`: it assigns 1
-- or 0 to `errno`, and holds whenever O_CREAT is given.
unfoldable pub exists_branch : (size : ℕ) → Oflag → (stale : Bool) → Pass → Run
exists_branch size oflag stale p =
    attempt p.open_rdwr
      (λ e.
        if oflag.creat
        then (go_again, [])
        else (failed 0, if stale then unmap_file size ∷ [] else []))
      (after (open_fd ∷ []) (
        attempt p.mmap_existing (λ e. err size e false false)
          (after (map_file size ∷ [])
            (wait_existing size (wait_init oflag.creat max_tries 0 p.stats)))))

-- One pass from `again:`.
unfoldable pub one_pass : (size value : ℕ) → Oflag → (stale : Bool) → Pass → Run
one_pass size value oflag stale p =
    if oflag.creat
    then (let (e, done) = create_branch size value oflag stale p in
        elim e [
          | go_exists ↦ after done (exists_branch size oflag stale p)
          | other ↦ (other, done)
        ])
    else exists_branch size oflag stale p

-- `sem` after a pass that goes round again: a mapping if this pass made one, else as before.
abbrev pub mapped_after : Bool → List Action → Bool
mapped_after stale [] = stale
mapped_after stale (map_file size ∷ as') = mapped_after true as'
mapped_after stale (a ∷ as') = mapped_after stale as'

-- A pass that ends in `goto again` is followed by the others.
abbrev pub followed_by : Run → Option Ending × List Action → Option Ending × List Action
followed_by (opened count, done) rest = (some (opened count), done)
followed_by (failed e, done) rest = (some (failed e), done)
followed_by (go_exists, done) rest = (some go_exists, done)
followed_by (go_again, done) rest = (rest.0, done ++ rest.1)

-- The passes in a row. `none` says that the call still tries when the listed passes are used up.
unfoldable pub sem_open :
    (size value : ℕ) → Oflag → (stale : Bool) → List Pass → Option Ending × List Action
sem_open size value oflag stale [] = (none, [])
sem_open size value oflag stale (p ∷ ps) =
    let r = one_pass size value oflag stale p in
    followed_by r (sem_open size value oflag (mapped_after stale r.1) ps)
