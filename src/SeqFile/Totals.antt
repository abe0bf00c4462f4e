-- ===== src/SeqFile/Totals.antt =====
-- lock/lockmain.c under the locks of lockfcntl.c and lockopen.c: what the file holds in the end, and what has been printed.
use interprocess_comm.Prelude.{
  ℕ, zero, suc, ◌+◌, ◌*◌, ◌≤◌, ◌<◌, ◌≡◌, ◌≢◌, refl, sym, put, ap, subst, ◌∙◌, weigh, weigh-zero,
  pos, arith,
}
use interprocess_comm.SeqFile.{
  Process, has_lock, has_read, has_written, finished, System, text, scan, long_max, next,
  start_system, Step, lock, read, write, unlock, Reach, start, later,
}
use interprocess_comm.SeqFile.Locks.{Lock, locknone}
use interprocess_comm.SeqFile.Guard.{
  weigh-holding, Guarded, lock-Guarded, keep-Guarded, unlock-Guarded, start-Guarded,
}
use interprocess_comm.SeqFile.Balance.{
  fresh, reading, written, writes, Current, downfrom, IsSound, next-facts, Current-rounds,
}
use interprocess_comm.SeqFile.Moves.{lock-IsSound, read-IsSound, write-IsSound, unlock-IsSound}

-- Each process writes 20 times at most.
weigh-le :
    (n : ℕ) (g : ℕ → Process) → ((p : ℕ) → p < n → writes (g p) ≤ 20) → weigh writes n g ≤ 20 * n
unfolding weigh
weigh-le zero g h = omega arith
weigh-le (suc n) g h = omega (arith, weigh-le n g (λ p lt. h p (omega arith)), h n (omega arith))

weigh-same :
    (n : ℕ) (g : ℕ → Process) → ((p : ℕ) → p < n → writes (g p) ≡ 20) → weigh writes n g ≡ 20 * n
unfolding weigh
weigh-same zero g h = omega arith
weigh-same (suc n) g h =
    omega (arith, weigh-same n g (λ p lt. h p (omega arith)), h n (omega arith))

module _ (l : Lock) (first n : ℕ) (locks : l ≢ locknone) (small : first + 20 * n < long_max) where
  -- The number is sound, and the lock is guarded.
  record IsKept (s : System) : Type 0 where
    pub taken : ℕ
    pub sound : IsSound first n taken s
    pub guard : Guarded l n taken s.kernel s.processes

  -- No process has written more often than it has rounds.
  within : {s : System} → IsKept s → first + weigh writes n s.processes < long_max
  within {s} v = omega (
    arith,
    small,
    weigh-le n s.processes λ j lt. Current-rounds _ (s.processes j) (v.sound.current j lt),
  )

  Step-IsKept : {s t : System} → IsKept s → Step l n s t → IsKept t
  Step-IsKept {s} v (lock p i k h e) =
      let (free, g) = lock-Guarded h l v.taken (has_lock i) locks refl refl v.guard e in
      record { taken = 1; sound = lock-IsSound v.sound p i k h free; guard = g }
  Step-IsKept {s} v (read p i h) = record {
    taken = v.taken;
    sound = read-IsSound v.sound p i h (omega (arith, within v));
    guard = keep-Guarded h l v.taken (has_read i (scan s.contents)) refl v.guard;
  }
  Step-IsKept {s} v (write p i seqno h) = record {
    taken = v.taken;
    sound = write-IsSound v.sound p i seqno h (within v);
    guard = keep-Guarded h l v.taken (has_written i) refl v.guard;
  }
  Step-IsKept {s} v (unlock p i k h e) = record {
    taken = 0;
    sound = unlock-IsSound v.sound p i k h;
    guard =
        unlock-Guarded h l v.taken (put s.processes p (next (i + 1)))
          (omega (arith, weigh-holding n s.processes, v.sound.taken_by, v.sound.one)) (omega arith)
          v.guard e;
  }

  Reach-IsKept : {s t : System} → IsKept s → Reach l n s t → IsKept t
  Reach-IsKept v start = v
  Reach-IsKept v (later r st) = Step-IsKept (Reach-IsKept v r) st

  start-IsSound : IsSound first n 0 (start_system first)
  start-IsSound =
      let (f, r, w, k, c) = next-facts 0 (first + 0) (omega arith) in
      let none = weigh-zero writes n (λ p. next 0) λ p h. k in
      let unread = weigh-zero reading n (λ p. next 0) λ p h. r in
      record {
        taken_by = omega (
          arith,
          weigh-zero fresh n (λ p. next 0) (λ p h. f),
          weigh-zero written n (λ p. next 0) (λ p h. w),
          unread,
        );
        one = omega arith;
        contents = ap (λ j. text (pos j)) (omega (arith, none));
        printed = ap (downfrom first) {x = 0} (omega (arith, none, unread));
        current = λ p lt. subst (λ j. Current (first + j) (next 0)) (sym none) c;
      }

  -- When all processes have gone their 20 rounds, in whatever order, each with the `my_lock` and
  -- `my_unlock` of lockfcntl.c or each with those of lockopen.c: the file holds the text of the number at
  -- the start and 20 more for each process, and the numbers printed are that at the start and those
  -- between, each once and in order. The last number is below 2^63 - 1, the largest long.
  pub counts_every_round :
      {s : System}
      → Reach l n (start_system first) s
      → ((p : ℕ) → p < n → s.processes p ≡ finished)
      → (s.contents ≡ text (pos (first + 20 * n))) × (s.printed ≡ downfrom first (20 * n))
  counts_every_round {s} r over =
      let begin : IsKept (start_system first) = record {
        taken = 0;
        sound = start-IsSound;
        guard = start-Guarded l n (λ p. next 0);
      } in
      let v = (Reach-IsKept begin r).sound in
      let all = weigh-same n s.processes λ p lt. ap writes (over p lt) in
      let unread = weigh-zero reading n s.processes λ p lt. ap reading (over p lt) in
      (
        v.contents ∙ ap (λ k. text (pos (first + k))) all,
        v.printed ∙ ap (downfrom first) (omega (arith, all, unread)),
      )
