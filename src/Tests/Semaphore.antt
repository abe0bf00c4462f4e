-- ===== src/Tests/Semaphore.antt =====
-- The calls on the three versions of the semaphore.
use interprocess_comm.Prelude.{
  ℕ, ◌+◌, ◌≤◌, ◌≡◌, refl, true, false, none, some, List, [], ◌∷◌, arith,
}
use interprocess_comm.Posix.{value, returns}
use interprocess_comm.SemMmap as Mmap
use interprocess_comm.SemMmap.Account as MmapAccount
use interprocess_comm.SemFifo as Fifo
use interprocess_comm.SemFifo.Account as FifoAccount
use interprocess_comm.SemSvsem as Svsem
use interprocess_comm.SemSvsem.Account as SvsemAccount

abbrev mmap_sem : ℕ → Mmap.Sem
mmap_sem n = record { held = false; sem_cond = 0; sem_count = n; sem_magic = Mmap.sem_magic_open }

abbrev mmap_calls : List MmapAccount.Call
mmap_calls = MmapAccount.wait 0 ∷ MmapAccount.post 0 ∷ MmapAccount.post 0 ∷ MmapAccount.try 0 ∷ []

granted-add-count_example :
    MmapAccount.granted mmap_calls (mmap_sem 1)
      + (MmapAccount.run mmap_calls (mmap_sem 1)).sem_count
    ≡ 1
granted-add-count_example = MmapAccount.granted-add-count mmap_calls (mmap_sem 1)

abbrev fifo_sem : ℕ → Fifo.Sem
fifo_sem n = record { sem_magic = Fifo.sem_magic_open; bytes = n; capacity = 2 }

abbrev fifo_calls : List FifoAccount.Call
fifo_calls =
    FifoAccount.post ∷ FifoAccount.post ∷ FifoAccount.wait none ∷ FifoAccount.wait (some 4) ∷ []

taken-add-bytes_example :
    let s' = FifoAccount.run fifo_calls (fifo_sem 1) in
    (s'.bytes + FifoAccount.taken fifo_calls (fifo_sem 1)
      ≡ 1 + FifoAccount.given fifo_calls (fifo_sem 1))
    × (s'.bytes ≤ s'.capacity)
taken-add-bytes_example = FifoAccount.taken-add-bytes fifo_calls (fifo_sem 1) (omega arith)

returns_zero-changes_nothing_example :
    ((s' : Fifo.Sem)
      → Fifo.sem_post (fifo_sem 2) ≡ returns (value 0) s' []
      → (s' ≡ fifo_sem 2) × (2 ≤ 2))
    × ((s' : Fifo.Sem)
        → Fifo.sem_wait (some 4) (fifo_sem 2) ≡ returns (value 0) s' []
        → (s' ≡ fifo_sem 2) × ((e : ℕ) × (some 4 ≡ some e)))
returns_zero-changes_nothing_example =
    FifoAccount.returns_zero-changes_nothing (some 4) (fifo_sem 2) refl

abbrev set_of : ℕ → Svsem.SemSet
set_of n = record { semid = 4; semval = n; otime = true }

abbrev svsem_sem : ℕ → Svsem.Sem
svsem_sem n = record { sem_magic = Svsem.sem_magic_open; set = some (set_of n) }

abbrev svsem_calls : List SvsemAccount.Call
svsem_calls = SvsemAccount.wait ∷ SvsemAccount.try ∷ SvsemAccount.post ∷ SvsemAccount.get ∷ []

taken-add-semval_example :
    let s' = SvsemAccount.run svsem_calls (svsem_sem 1) in
    (SvsemAccount.semval s' + SvsemAccount.taken svsem_calls (svsem_sem 1)
      ≡ 1 + SvsemAccount.given svsem_calls (svsem_sem 1))
    × (SvsemAccount.semval s' ≤ 32767)
taken-add-semval_example = SvsemAccount.taken-add-semval svsem_calls (svsem_sem 1) (omega arith)
