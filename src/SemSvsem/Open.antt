-- ===== src/SemSvsem/Open.antt =====
-- pxsem/my_pxsem_svsem/sem_open.c and sem_unlink.c.
pub mod Keys
use interprocess_comm.Prelude.{
  ℕ, zero, suc, ◌+◌, Bool, true, false, not, ◌&&◌, Option, none, some, if◌then◌else◌, ◌==◌, ltb,
  put,
}
use interprocess_comm.Posix.{Ret, value, fail, attempt}
use interprocess_comm.Posix.Errno
use interprocess_comm.SemSvsem.{SemSet, semvmx}

pub record Oflag : Type 0 where
  pub creat : Bool
  pub excl : Bool

abbrev pub max_tries : ℕ
max_tries = 10

-- The kernel's sets, by key.
abbrev pub Sets : Type 0
Sets = ℕ → Option SemSet

-- What `ftok` returns.
pub data Key : Type 0 where
  key_of : (key : ℕ) → Key
  no_key : (errno : ℕ) → Key

-- `semctl` with IPC_STAT fails, or says whether `sem_otime` is other than 0.
pub data Stat : Type 0 where
  stat_failed : (errno : ℕ) → Stat
  stat_ok : (otime : Bool) → Stat

-- What the calls return: an error number, or none. `ftok` is applied to the number that it is given
-- with the path. `fresh` is the identifier that `semget` gives a new set. That `semget` fails because
-- a set exists, or does not exist, is computed.
pub record Calls : Type 0 where
  pub open_path : Option ℕ
  pub ftok : ℕ → Key
  pub semget_new : Option ℕ
  pub fresh : ℕ
  pub setval : Option ℕ
  pub semop : Option ℕ
  pub semget_old : Option ℕ
  pub stats : ℕ → Stat
  pub malloc : Option ℕ

-- The identifier of the set, or SEM_FAILED.
pub data Ending : Type 0 where
  opened : (semid : ℕ) → Ending
  failed : (errno : ℕ) → Ending

abbrev pub Run : Type 0
Run = Ending × Sets

-- `err:` once `semid` is known: the set is removed.
abbrev pub err_remove : (key errno : ℕ) → Sets → Run
err_remove key e sets = (failed e, put sets key none)

-- `finish:`
abbrev pub finish : (key semid : ℕ) → Calls → Sets → Run
finish key semid c sets = attempt c.malloc (λ e. err_remove key e sets) (opened semid, sets)

-- The set has just been made.
unfoldable pub initialize : (val key : ℕ) → Calls → Sets → Run
initialize val key c sets =
    attempt c.setval (λ e. err_remove key e sets)
      (if ltb semvmx val
        then err_remove key Errno.einval sets
        else attempt c.semop (λ e. err_remove key e sets)
            (finish key c.fresh c
              (put sets key (some (record { semid = c.fresh; semval = val; otime = true })))))

-- The loop over IPC_STAT: `none` is `goto finish`.
unfoldable pub wait_init : (tries i : ℕ) → (ℕ → Stat) → Option ℕ
wait_init zero i stats = some Errno.etimedout
wait_init (suc tries) i stats =
    let next = wait_init tries (i + 1) stats in
    elim (stats i) [ stat_failed e ↦ some e | stat_ok otime ↦ if otime then none else next ]

-- From the second `ftok` on.
unfoldable pub open_existing : Calls → Sets → Run
open_existing c sets = elim (c.ftok 0) [
  | no_key e ↦ (failed e, sets)
  | key_of key ↦ elim (sets key) [
    | none ↦ (failed Errno.enoent, sets)
    | some set ↦
        attempt c.semget_old (λ e. (failed e, sets))
          (attempt (wait_init max_tries 0 c.stats) (λ e. err_remove key e sets)
            (finish key set.semid c sets))
  ]
]

abbrev pub make_set : (val key : ℕ) → Calls → Sets → Run
make_set val key c sets =
    attempt c.semget_new (λ e. (failed e, sets))
      (initialize val key c
        (put sets key (some (record { semid = c.fresh; semval = 0; otime = false }))))

-- `if (oflag & O_CREAT) { … }`, and what it falls through to.
unfoldable pub open_create : (val : ℕ) → (excl : Bool) → Calls → Sets → Run
open_create val excl c sets =
    attempt c.open_path (λ e. (failed e, sets))
      (elim (c.ftok 0) [
        | no_key e ↦ (failed e, sets)
        | key_of key ↦ elim (sets key) [
          | some set ↦ if excl then (failed Errno.eexist, sets) else open_existing c sets
          | none ↦ make_set val key c sets
        ]
      ])

unfoldable pub sem_open : (val : ℕ) → Oflag → Calls → Sets → Run
sem_open val oflag c sets =
    if oflag.creat then open_create val oflag.excl c sets else open_existing c sets

-- `unlink_result`, `semget_result` and `rmid` are the error numbers of the calls, if they fail on a
-- set that exists. The key is that of `ftok(pathname, 1)`.
unfoldable pub sem_unlink :
    (ftok : ℕ → Key) (unlink_result semget_result rmid : Option ℕ) → Sets → Ret ℕ × Sets
sem_unlink ftok unlink_result semget_result rmid sets = elim (ftok 1) [
  | no_key e ↦ (fail e, sets)
  | key_of key ↦
      attempt unlink_result (λ e. (fail e, sets))
        (elim (sets key) [
          | none ↦ (fail Errno.enoent, sets)
          | some set ↦
              attempt semget_result (λ e. (fail e, sets))
                (attempt rmid (λ e. (fail e, sets)) (value 0, put sets key none))
        ])
]
