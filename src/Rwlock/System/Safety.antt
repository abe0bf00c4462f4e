-- ===== src/Rwlock/System/Safety.antt =====
-- The counters of the lock and the threads, in the states that these reach.
use interprocess_comm.Prelude.{
  ℕ, ◌+◌, ◌<◌, ◌≡◌, ◌≢◌, refl, ap, subst, inl, inr, arith, put, weigh, weigh-put, weigh-one,
  weigh-two, ◌==◌, ◌⊎◌, Bool-cases, ==_iff,
}
use interprocess_comm.Rwlock.{RwLock}
use interprocess_comm.Rwlock.Counts.{
  Counts, rdlock-had, rdlock-waits, rdlock_resume-had, rdlock_resume-waits, rdlock_resume-failed,
  tryrdlock-had, wrlock-had, wrlock-waits, wrlock_resume-had, wrlock_resume-waits,
  wrlock_resume-failed, trywrlock-had, refused-same, unlock-reader, unlock-writer,
}
use interprocess_comm.Rwlock.System.{
  Role, outside, reader, writer, waits_to_read, waits_to_write, System, Enters, Step, read,
  read_waits, read_wakes, read_sleeps, read_fails, try_read, write, write_waits, write_wakes,
  write_sleeps, write_fails, try_write, read_ends, write_ends, refused, Reach, start, later,
}

abbrev pub reads : Role → ℕ
reads reader = 1
reads _ = 0

abbrev pub writes : Role → ℕ
writes writer = 1
writes _ = 0

abbrev pub read_waiter : Role → ℕ
read_waiter waits_to_read = 1
read_waiter _ = 0

abbrev pub write_waiter : Role → ℕ
write_waiter waits_to_write = 1
write_waiter _ = 0

-- The counters of the lock are the numbers of threads in each role, and not both readers and a
-- writer hold it.
pub record IsSound (n : ℕ) (s : System) : Type 0 where
  pub counts :
      Counts s.rw
        (weigh reads n s.roles)
        (weigh writes n s.roles)
        (weigh read_waiter n s.roles)
        (weigh write_waiter n s.roles)

-- The role of `i` is a variable, so that the weights compute.
record Change (n : ℕ) (s : System) (i : ℕ) (o t : Role) : Type 0 where
  r : weigh reads n (put s.roles i t) + reads o ≡ weigh reads n s.roles + reads t
  w : weigh writes n (put s.roles i t) + writes o ≡ weigh writes n s.roles + writes t
  qr :
      weigh read_waiter n (put s.roles i t) + read_waiter o
      ≡ weigh read_waiter n s.roles + read_waiter t
  qw :
      weigh write_waiter n (put s.roles i t) + write_waiter o
      ≡ weigh write_waiter n s.roles + write_waiter t

change : {n : ℕ} {s : System} {i : ℕ} {o : Role} (t : Role) → Enters n s i o → Change n s i o t
change {n} {s} {i} t e =
    subst (λ o. Change n s i o t) e.state
      (record {
        r = weigh-put reads n s.roles i t e.present;
        w = weigh-put writes n s.roles i t e.present;
        qr = weigh-put read_waiter n s.roles i t e.present;
        qw = weigh-put write_waiter n s.roles i t e.present;
      })

recount :
    {rw : RwLock} {r w qr qw r' w' qr' qw' : ℕ}
    → Counts rw r w qr qw
    → (r ≡ r') × (w ≡ w') × (qr ≡ qr') × (qw ≡ qw')
    → Counts rw r' w' qr' qw'
recount c e = record {
  magic = c.magic;
  free = c.free;
  readers = omega (arith, c.readers);
  writers = omega (arith, c.writers);
  one_writer = omega (arith, c.one_writer);
  waiting_readers = omega (arith, c.waiting_readers);
  waiting_writers = omega (arith, c.waiting_writers);
}

pub Step-IsSound : {n : ℕ} {s t : System} → IsSound n s → Step n s t → IsSound n t
Step-IsSound v (read i k e q) =
    let m = change reader e in record { counts = recount (rdlock-had v.counts k q) (omega arith) }
Step-IsSound v (read_waits i k e q) =
    let m = change waits_to_read e in
    record { counts = recount (rdlock-waits v.counts k q) (omega arith) }
Step-IsSound v (read_wakes i e q) =
    let m = change reader e in
    record { counts = recount (rdlock_resume-had v.counts (omega arith) q) (omega arith) }
Step-IsSound v (read_sleeps i e q) =
    let m = change waits_to_read e in
    let o = change outside e in
    record { counts = recount (rdlock_resume-waits v.counts (omega arith) q) (omega arith) }
Step-IsSound v (read_fails i k e ne q) =
    let m = change outside e in
    record { counts = recount (rdlock_resume-failed v.counts k ne q) (omega arith) }
Step-IsSound v (try_read i k e q) =
    let m = change reader e in
    record { counts = recount (tryrdlock-had v.counts k q) (omega arith) }
Step-IsSound v (write i k e q) =
    let m = change writer e in
    let h = wrlock-had v.counts k q in record { counts = recount h.2 (omega (arith, h.0, h.1)) }
Step-IsSound v (write_waits i k e q) =
    let m = change waits_to_write e in
    record { counts = recount (wrlock-waits v.counts k q) (omega arith) }
Step-IsSound v (write_wakes i e q) =
    let m = change writer e in
    let h = wrlock_resume-had v.counts (omega arith) q in
    record { counts = recount h.2 (omega (arith, h.0, h.1)) }
Step-IsSound v (write_sleeps i e q) =
    let m = change waits_to_write e in
    let o = change outside e in
    record { counts = recount (wrlock_resume-waits v.counts (omega arith) q) (omega arith) }
Step-IsSound v (write_fails i k e ne q) =
    let m = change outside e in
    record { counts = recount (wrlock_resume-failed v.counts k ne q) (omega arith) }
Step-IsSound v (try_write i k e q) =
    let m = change writer e in
    let h = trywrlock-had v.counts k q in record { counts = recount h.2 (omega (arith, h.0, h.1)) }
Step-IsSound v (read_ends i a b e q) =
    let m = change outside e in
    record { counts = recount (unlock-reader v.counts a b (omega arith) q) (omega arith) }
Step-IsSound v (write_ends i a b e q) =
    let m = change outside e in
    let h = unlock-writer v.counts a b (omega arith) q in
    record { counts = recount h.1 (omega (arith, h.0, v.counts.one_writer)) }
Step-IsSound v (refused i k e ne q) =
    let m = change outside e in
    record { counts = recount (refused-same v.counts k ne q) (omega arith) }

pub Reach-IsSound : {n : ℕ} {s t : System} → IsSound n s → Reach n s t → IsSound n t
Reach-IsSound v start = v
Reach-IsSound v (later r st) = Step-IsSound (Reach-IsSound v r) st

sole_holder :
    {n : ℕ} {s t : System}
    → IsSound n s
    → Reach n s t
    → (i j : ℕ) → i < n
    → j < n
    → t.roles i ≡ writer
    → (t.roles j ≡ reader) ⊎ (t.roles j ≡ writer)
    → i ≡ j
sole_holder {n} {t = t} v r i j li lj wi (inl rj) =
    let c = (Reach-IsSound v r).counts in
    absurd (
      ground (
        arith,
        c,
        ap writes wi,
        ap reads rj,
        weigh-one writes outside refl n i t.roles li,
        weigh-one reads outside refl n j t.roles lj,
      ))
sole_holder {n} {t = t} v r i j li lj wi (inr wj) = elim (Bool-cases (i == j)) [
  | inl same ↦ (==_iff i j).0 same
  | inr other ↦
      let c = (Reach-IsSound v r).counts in
      absurd (
        omega (
          arith,
          c.one_writer,
          ap writes wi,
          ap writes wj,
          weigh-two writes outside refl n i j t.roles li lj (ground arith),
        ))
]

-- From a lock whose counters fit its threads, in every state that the threads reach: while a thread
-- holds the lock for writing, no other thread holds it for reading or for writing.
pub mutual_exclusion :
    {n : ℕ} {s t : System}
    → IsSound n s
    → Reach n s t
    → (i j : ℕ) → i < n
    → j < n
    → i ≢ j
    → t.roles i ≡ writer
    → (t.roles j ≢ reader) × (t.roles j ≢ writer)
mutual_exclusion v r i j li lj ne wi = (
  λ rj. ne (sole_holder v r i j li lj wi (inl rj)),
  λ wj. ne (sole_holder v r i j li lj wi (inr wj)),
)
