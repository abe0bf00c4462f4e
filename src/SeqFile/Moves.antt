-- ===== src/SeqFile/Moves.antt =====
-- lock/lockmain.c under a lock that excludes: the steps of the processes, and the balance.
use interprocess_comm.Prelude.{
  ℕ, suc, ◌+◌, ◌≤◌, ◌<◌, ◌≡◌, ◌≢◌, refl, sym, ap, ap₂, subst, ◌∙◌, Bool-cases, inl, inr, ◌==◌, List,
  ◌∷◌, put, weigh, weigh-one, weigh-two, ℤ, pos, arith,
}
use interprocess_comm.Pipe.{overwrite}
use interprocess_comm.SeqFile.{
  Process, wants_lock, has_lock, has_read, has_written, finished, System, text, scan, next, moves,
  read_number, write_number, At, long_max, increment,
}
use interprocess_comm.SeqFile.Locks.{Kernel}
use interprocess_comm.SeqFile.Texts.{overwrite-text, scan-text}
use interprocess_comm.SeqFile.Balance.{
  fresh, reading, written, writes, Current, downfrom, IsSound, change, next-facts, Current-move,
}

module _ {first n taken : ℕ} {s : System} (v : IsSound first n taken s) {p : ℕ} {a : Process}
    (h : At n s p a) where
  abbrev total : ℕ
  total = weigh writes n s.processes

  -- What the process itself has read, and the others.
  Current-put :
      (k : ℕ) (b : Process)
      → Current (first + k) b
      → ((j : ℕ) → j < n → j ≢ p → Current (first + k) (s.processes j))
      → (j : ℕ) → j < n
      → Current (first + k) (put s.processes p b j)
  Current-put k b own others j lt = elim (Bool-cases (j == p)) [
    | inl same ↦ rw same own
    | inr other ↦ rw other (others j lt (λ e. ground arith))
  ]

  own : Current (first + total) a
  own = subst (Current (first + total)) h.state (v.current p h.present)

  -- A step that leaves the file as it is.
  keeps :
      (b : Process) (after : ℕ) (kernel : Kernel) (printed : List ℤ)
      → after + fresh a + reading a + written a ≡ taken + fresh b + reading b + written b
      → after ≤ 1
      → writes b ≡ writes a
      → printed ≡ downfrom first (total + weigh reading n (put s.processes p b))
      → Current (first + total) b
      → IsSound first n after (record (moves s p b) { kernel = kernel; printed = printed })
  keeps b after kernel printed t o w q c =
      let d = change b h in
      let same : weigh writes n (put s.processes p b) ≡ total = omega arith in
      record {
        taken_by = omega (arith, v.taken_by);
        one = o;
        contents = v.contents ∙ ap (λ k. text (pos (first + k))) (sym same);
        printed =
            q ∙ ap (λ k. downfrom first (k + weigh reading n (put s.processes p b))) (sym same);
        current =
            subst (λ k. (j : ℕ) → j < n → Current (first + k) (put s.processes p b j)) (sym same)
              (Current-put total b c λ j lt ne. v.current j lt);
      }

  -- No number is being counted up but by this process.
  nobody_reads : 1 ≤ fresh a → weigh reading n s.processes ≡ 0
  nobody_reads f =
      let mine = weigh-one fresh finished refl n p s.processes h.present in
      omega (arith, v.taken_by, v.one, ap fresh h.state)

  nobody_else : 1 ≤ reading a → (j : ℕ) → j < n → j ≢ p → reading (s.processes j) ≡ 0
  nobody_else f j lt ne =
      let both = weigh-two reading finished refl n j p s.processes lt h.present ne in
      omega (arith, v.taken_by, v.one, ap reading h.state)

successor : (k : ℕ) → k < long_max → increment (pos k) ≡ pos (k + 1)
unfolding increment
successor k h = ground arith

module _ {first n taken : ℕ} {s : System} (v : IsSound first n taken s) (p i : ℕ) where
  -- The lock is taken.
  pub lock-IsSound :
      (k : Kernel)
      → At n s p (wants_lock i)
      → taken ≡ 0
      → IsSound first n 1 (record (moves s p (has_lock i)) { kernel = k })
  lock-IsSound k h free =
      let d = change (has_lock i) h in
      keeps v h (has_lock i) 1 k s.printed (omega arith) (omega arith) refl
        (v.printed ∙ ap (λ r. downfrom first (total v h + r)) (omega arith)) (own v h)

  pub read-IsSound :
      At n s p (has_lock i)
      → first + weigh writes n s.processes ≤ long_max
      → IsSound first n taken (read_number s p i)
  read-IsSound h small =
      let d = change (has_read i (scan s.contents)) h in
      let number : scan s.contents ≡ pos (first + total v h) =
        ap scan v.contents ∙ scan-text (first + total v h) small in
      let none = nobody_reads v h (omega arith) in
      let before : total v h + weigh reading n s.processes ≡ total v h = omega arith in
      let after : suc (total v h)
          ≡ total v h + weigh reading n (put s.processes p (has_read i (scan s.contents))) =
        omega arith in
      keeps v h (has_read i (scan s.contents)) taken s.kernel (scan s.contents ∷ s.printed)
        (omega arith) v.one refl
        (ap₂ ◌∷◌ number (v.printed ∙ ap (downfrom first) before) ∙ ap (downfrom first) after)
        (own v h, number)

  pub write-IsSound :
      (seqno : ℤ)
      → At n s p (has_read i seqno)
      → first + weigh writes n s.processes < long_max
      → IsSound first n taken (write_number s p i seqno)
  write-IsSound seqno h small =
      let d = change (has_written i) h in
      let k = first + total v h in
      let up : weigh writes n (put s.processes p (has_written i)) ≡ total v h + 1 = omega arith in
      let (lt, number) = own v h in
      record {
        taken_by = omega (arith, v.taken_by);
        one = v.one;
        contents =
            ap₂ (λ z c. overwrite (text (increment z)) c) number v.contents
            ∙ ap (λ z. overwrite (text z) (text (pos k))) (successor k small)
            ∙ overwrite-text k
            ∙ ap (λ j. text (pos j)) (omega (arith, up));
        printed = v.printed ∙ ap (downfrom first) (omega arith);
        current =
            subst (λ t. (j : ℕ) → j < n → Current (first + t) (put s.processes p (has_written i) j))
              (sym up)
              (Current-put v h (total v h + 1) (has_written i) lt λ j below ne.
                Current-move k (first + (total v h + 1)) (s.processes j)
                  (nobody_else v h (omega arith) j below ne) (v.current j below));
      }

  pub unlock-IsSound :
      (k : Kernel)
      → At n s p (has_written i)
      → IsSound first n 0 (record (moves s p (next (i + 1))) { kernel = k })
  unlock-IsSound kernel h =
      let (f, r, w, k, c) = next-facts (i + 1) (first + total v h) (omega (arith, own v h)) in
      let d = change (next (i + 1)) h in
      let mine = weigh-one written finished refl n p s.processes h.present in
      keeps v h (next (i + 1)) 0 kernel s.printed
        (omega (arith, v.taken_by, v.one, ap written h.state)) (omega arith) (omega arith)
        (v.printed ∙ ap (λ r. downfrom first (total v h + r)) (omega arith)) c
