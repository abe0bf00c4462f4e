-- ===== src/Tests/Opening.antt =====
-- mq_open.c and the three versions of sem_open.c.
use interprocess_comm.Prelude.{
  ℕ, ◌+◌, ◌≤◌, ◌≡◌, ◌⊎◌, refl, Bool, true, false, Option, none, some, [], ◌∷◌, arith, put,
}
use interprocess_comm.Posix.Errno
use interprocess_comm.Posix.Tally.{tally}
use interprocess_comm.Mqueue.{MsgHdr, sigev_signal, SigEvent, Sizes}
use interprocess_comm.Mqueue.Open
use interprocess_comm.Mqueue.Open.Cleanup
use interprocess_comm.SemMmap.Open as Mmap
use interprocess_comm.SemMmap.Open.Retry
use interprocess_comm.SemFifo.Open as Fifo
use interprocess_comm.SemFifo.Open.Cleanup as FifoCleanup
use interprocess_comm.SemSvsem.{SemSet}
use interprocess_comm.SemSvsem.Open as Svsem
use interprocess_comm.SemSvsem.Open.Keys

abbrev sizes : Sizes
sizes = record { sizeof_long = 8; sizeof_mq_hdr = 216; sizeof_msg_hdr = 24 }

abbrev blank : ℕ → MsgHdr
blank a = record { msg_next = 0; msg_len = 0; msg_prio = 0; body = [] }

abbrev event : SigEvent
event = record { sigev_notify = sigev_signal; sigev_signo = 10; sigev_value = 7 }

-- A pass in which the file does not exist and `cond` fails as given.
abbrev new_queue : (cond : Option ℕ) → Open.Pass
new_queue cond = record {
  open_excl = none;
  lseek = none;
  write = none;
  mmap = none;
  malloc = none;
  mutexattr_init = none;
  mutex_init = none;
  condattr_init = none;
  cond_init = cond;
  fchmod = none;
  open_rdwr = none;
  stats = λ i. Open.stat_ok false 296;
  mmap_existing = none;
  malloc_existing = none;
}

abbrev creating : Open.Oflag
creating = record { creat = true; excl = false; nonblock = false }

mq_open-Tidy_example :
    let r = Open.mq_open sizes creating blank event none (new_queue (some 12) ∷ []) in
    Cleanup.Tidy r.0 (tally r.1)
mq_open-Tidy_example =
    Cleanup.mq_open-Tidy sizes creating blank event none (new_queue (some 12) ∷ [])

-- A pass of the memory-mapped semaphore that finds the file.
abbrev old_sem : (open_rdwr : Option ℕ) (stat : Mmap.Stat) → Mmap.Pass
old_sem open_rdwr stat = record {
  open_excl = some Errno.eexist;
  write = none;
  mmap = none;
  mutexattr_init = none;
  mutex_init = none;
  condattr_init = none;
  cond_init = none;
  sem_value_max = 32767;
  fchmod = none;
  open_rdwr = open_rdwr;
  mmap_existing = none;
  stats = λ i. stat;
}

-- EACCES
abbrev barred : Mmap.Pass
barred = old_sem (some 13) (Mmap.stat_ok false)

sem_open-never_ends_example :
    (Mmap.sem_open 104 1 Retry.creating false (barred ∷ barred ∷ [])).0 ≡ none
sem_open-never_ends_example = Retry.sem_open-never_ends 104 1 false (barred ∷ barred ∷ []) (
  record { found = refl; errno = 13; barred = refl },
  (record { found = refl; errno = 13; barred = refl }, tt),
)

abbrev steady : Mmap.Pass
steady = old_sem none (Mmap.stat_ok false)

steady-run : (Mmap.sem_open 104 1 Retry.creating true (steady ∷ [])).0 ≡ some (Mmap.opened none)
unfolding Mmap.sem_open Mmap.one_pass Mmap.create_branch Mmap.exists_branch Mmap.wait_init
steady-run = refl

-- A FIFO that can take 64 bytes.
abbrev fifo : (mkfifo open_write : Option ℕ) → Fifo.Calls
fifo mkfifo open_write = record {
  mkfifo = mkfifo;
  malloc = none;
  open_read = none;
  open_write = open_write;
  getfl = none;
  setfl = none;
  bytes = 0;
  capacity = 64;
}

abbrev fifo_creating : Fifo.Oflag
fifo_creating = record { creat = true; excl = false }

sem_open-Tidy_example :
    let r = Fifo.sem_open 3 fifo_creating (fifo none (some 6)) in FifoCleanup.Tidy r.0 (tally r.1)
sem_open-Tidy_example = FifoCleanup.sem_open-Tidy 3 fifo_creating (fifo none (some 6)) refl

-- `ftok` gives 500 and 501 for the numbers 0 and 1.
abbrev keys : ℕ → Svsem.Key
keys id = Svsem.key_of (500 + id)

abbrev calls : (malloc : Option ℕ) (otime : Bool) → Svsem.Calls
calls malloc otime = record {
  open_path = none;
  ftok = keys;
  semget_new = none;
  fresh = 9;
  setval = none;
  semop = none;
  semget_old = none;
  stats = λ i. Svsem.stat_ok otime;
  malloc = malloc;
}

abbrev no_sets : Svsem.Sets
no_sets key = none

abbrev one_set : Svsem.Sets
one_set = put no_sets 500 (some (record { semid = 4; semval = 1; otime = true }))

abbrev svsem_creating : Svsem.Oflag
svsem_creating = record { creat = true; excl = false }

failing : (Svsem.sem_open 2 svsem_creating (calls (some 12) true) no_sets).0 ≡ Svsem.failed 12
unfolding Svsem.sem_open Svsem.open_create Svsem.initialize
failing = refl

sem_open-finds_example :
    let c = calls none true in
    let sets = one_set in
    let r = Svsem.sem_open 2 svsem_creating c sets in
    (sets 500 ≡ none
      → svsem_creating.creat ≡ true
      → 2 ≤ 32767
      → (r.0 ≡ Svsem.opened 9) × (r.1 500 ≡ some (record { semid = 9; semval = 2; otime = true })))
    × ((set : SemSet)
        → sets 500 ≡ some set
        → (svsem_creating.excl ≡ false) ⊎ (svsem_creating.creat ≡ false)
        → r ≡ (Svsem.opened set.semid, sets))
sem_open-finds_example =
    Keys.sem_open-finds 2 svsem_creating (calls none true) one_set 500
      (record {
        path = refl;
        get_new = refl;
        setval = refl;
        semop = refl;
        get_old = refl;
        stat = refl;
        malloc = refl;
      })
      refl

sem_unlink-keeps_example : (Svsem.sem_unlink keys none none none one_set).1 500 ≡ one_set 500
sem_unlink-keeps_example = Keys.sem_unlink-keeps keys none none none one_set 500 refl (ground arith)
