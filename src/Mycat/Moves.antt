-- ===== src/Mycat/Moves.antt =====
-- pxsem/mycat2.c: the steps of the threads, and the balance.
use interprocess_comm.Prelude.{
  ℕ, suc, ◌+◌, ◌%◌, ◌≤◌, ◌<◌, ◌≡◌, refl, sym, ap, subst, ◌∙◌, true, false, Bool-cases, inl, inr,
  ◌==◌, [], ◌∷◌, ◌++◌, length, length-append, arith, if◌then◌else◌,
}
use interprocess_comm.Mycat.{
  Piece, ends, advance, Producer, wants_empty, has_empty, in_mutex, reads, posts, posts_last,
  returned, Consumer, wants_stored, has_stored, locked, writes, frees, finished, System, read_into,
  write_from, Step, wait_empty, lock_producer, unlock_producer, read, post_stored, post_last,
  wait_stored, lock_consumer, unlock_consumer, write, post_empty, Reach, start, later,
}
use interprocess_comm.Mycat.Balance.{
  p_locks, p_empties, p_stores, p_over, c_locks, c_stores, c_frees, c_over, FillsSlot, TakesSlot,
  firsts, IsSound, advance_lem, same-slot,
}

module _ {file : ℕ → Piece} {s : System} (v : IsSound file s) where
  -- A step of the producer that changes the semaphores only, by what it has before and after it.
  produces :
      {o : Producer} (p : Producer) (mutex nempty nstored : ℕ)
      → s.producer ≡ o
      → mutex + p_locks p ≡ s.mutex + p_locks o
      → nempty + p_empties p ≡ s.nempty + p_empties o
      → nstored + p_stores p ≡ s.nstored + p_stores o
      → p_over p ≡ p_over o
      → (FillsSlot s.calls o → FillsSlot s.calls p)
      → IsSound file (record s { producer = p; mutex = mutex; nempty = nempty; nstored = nstored })
  produces p mutex nempty nstored at m e n o f = record {
    mutex = omega (arith, v.mutex, ap p_locks at);
    nempty = omega (arith, v.nempty, ap p_empties at);
    nstored = omega (arith, v.nstored, ap p_stores at);
    fills = f (subst (FillsSlot s.calls) at v.fills);
    takes = v.takes;
    buff = v.buff;
    written = v.written;
    copied = v.copied;
    inner = λ j h. v.inner j (omega (arith, ap p_over at));
    last = λ h. v.last (omega (arith, ap p_over at));
    over = v.over;
  }

  -- The same for the consumer.
  consumes :
      {o : Consumer} (c : Consumer) (mutex nempty nstored : ℕ)
      → s.consumer ≡ o
      → mutex + c_locks c ≡ s.mutex + c_locks o
      → nempty + c_frees c ≡ s.nempty + c_frees o
      → nstored + c_stores c ≡ s.nstored + c_stores o
      → (TakesSlot (length s.written) o → TakesSlot (length s.written) c)
      → (0 < c_over c → ends (file (length s.written)) ≡ true)
      → IsSound file (record s { consumer = c; mutex = mutex; nempty = nempty; nstored = nstored })
  consumes c mutex nempty nstored at m e n t o = record {
    mutex = omega (arith, v.mutex, ap c_locks at);
    nempty = omega (arith, v.nempty, ap c_frees at);
    nstored = omega (arith, v.nstored, ap c_stores at);
    fills = v.fills;
    takes = t (subst (TakesSlot (length s.written)) at v.takes);
    buff = v.buff;
    written = v.written;
    copied = v.copied;
    inner = v.inner;
    last = v.last;
    over = o;
  }

  -- The buffer that is read into is free.
  module _ (i : ℕ) (at : s.producer ≡ reads i) where
    slot : i ≡ s.calls % 8
    slot = subst (FillsSlot s.calls) at v.fills

    room : s.calls < length s.written + 8
    room = omega (arith, v.nempty, ap p_empties at)

    kept :
        (m : ℕ)
        → length s.written ≤ m
        → m < s.calls + 1
        → (if m % 8 == i then file s.calls else s.buff (m % 8)) ≡ file m
    kept m lo hi = elim (Bool-cases (m % 8 == i)) [
      | inl same ↦
          let here : s.calls ≡ m =
            sym (same-slot m s.calls (omega arith) (omega (arith, room)) (ground (arith, slot))) in
          rw same (ap file here)
      | inr other ↦ rw other (v.buff m lo (before other))
    ]
      where
        before : (m % 8 == i) ≡ false → m < s.calls
        before other = ground (arith, slot)

    -- What the producer does next, with what it has found.
    reads_on :
        (p : Producer)
        → p_locks p ≡ 0
        → p_empties p ≡ 0
        → p_stores p ≡ 1
        → FillsSlot (s.calls + 1) p
        → (0 < p_over p → ends (file s.calls) ≡ true)
        → (p_over p ≡ 0 → ends (file s.calls) ≡ false)
        → p_over p ≤ 1
        → IsSound file (record s {
          buff = λ j. if j == i then file s.calls else s.buff j;
          producer = p;
          calls = s.calls + 1;
        })
    reads_on p l e n f at_end more le = record {
      mutex = omega (arith, v.mutex, ap p_locks at);
      nempty = omega (arith, v.nempty, ap p_empties at);
      nstored = omega (arith, v.nstored, ap p_stores at);
      fills = f;
      takes = v.takes;
      buff = kept;
      written = v.written;
      copied = v.copied;
      inner = λ m h. elim (Bool-cases (m == s.calls)) [
        | inl now ↦ subst (λ j. ends (file j) ≡ false) (ground arith) (more (ground arith))
        | inr past ↦ v.inner m (ground (arith, ap p_over at))
      ];
      last = λ h. (omega arith, subst (λ j. ends (file j) ≡ true) (omega arith) (at_end h));
      over = v.over;
    }

    read_into-IsSound : IsSound file (read_into i (file s.calls) s)
    unfolding read_into
    read_into-IsSound = elim (Bool-cases (ends (file s.calls))) [
      | inl e ↦
          rw e (
            reads_on posts_last refl refl refl tt (λ h. e) (λ h. absurd (omega arith))
              (omega arith))
      | inr e ↦ rw e (
          reads_on (posts (advance i)) refl refl refl (advance_lem i s.calls slot)
            (λ h. absurd (omega arith)) (λ h. e) (omega arith))
    ]

  -- The buffer that is written holds what the next call of `read` had put there.
  module _ (i : ℕ) (at : s.consumer ≡ writes i) where
    next_piece : s.buff i ≡ file (length s.written)
    next_piece =
        ap s.buff (subst (TakesSlot (length s.written)) at v.takes)
        ∙ v.buff (length s.written) (omega arith) (omega (arith, v.nstored, ap c_stores at))

    write_on :
        ends (s.buff i) ≡ false
        → IsSound file
            (record s { consumer = frees (advance i); written = s.written ++ (s.buff i ∷ []) })
    write_on more =
        let len = length-append s.written (s.buff i ∷ []) in
        let one : length (s.written ++ (s.buff i ∷ [])) ≡ suc (length s.written) = omega arith in
        record {
          mutex = omega (arith, v.mutex, ap c_locks at);
          nempty = omega (arith, v.nempty, ap c_frees at);
          nstored = omega (arith, v.nstored, ap c_stores at);
          fills = v.fills;
          takes =
              advance_lem i (length s.written) (subst (TakesSlot (length s.written)) at v.takes)
              ∙ ap (λ n. n % 8) (omega arith);
          buff = λ m lo hi. v.buff m (omega arith) hi;
          written =
              ap (λ l. l ++ (s.buff i ∷ [])) v.written
              ∙ ap (λ x. firsts file (length s.written) ++ (x ∷ [])) next_piece
              ∙ ap (firsts file) (sym one);
          copied = λ m h. elim (Bool-cases (m == length s.written)) [
            | inl now ↦
                subst (λ j. ends (file j) ≡ false) (ground arith) (ap ends (sym next_piece) ∙ more)
            | inr past ↦ v.copied m (ground (arith, one))
          ];
          inner = v.inner;
          last = v.last;
          over = λ h. absurd (omega arith);
        }

    write_from-IsSound : IsSound file (write_from i s)
    unfolding write_from
    write_from-IsSound = elim (Bool-cases (ends (s.buff i))) [
      | inl e ↦ rw e (
          consumes finished s.mutex s.nempty s.nstored at refl refl refl (λ t. tt)
            (λ h. ap ends (sym next_piece) ∙ e))
      | inr e ↦ rw e (write_on e)
    ]

pub Step-IsSound :
    {file : ℕ → Piece} {s t : System} → IsSound file s → Step file s t → IsSound file t
Step-IsSound {s = s} v (wait_empty i k e h) =
    produces v (has_empty i) s.mutex k s.nstored e refl (omega arith) refl refl (λ f. f)
Step-IsSound {s = s} v (lock_producer i k e h) =
    produces v (in_mutex i) k s.nempty s.nstored e (omega arith) refl refl refl (λ f. f)
Step-IsSound {s = s} v (unlock_producer i e) =
    produces v (reads i) (s.mutex + 1) s.nempty s.nstored e (omega arith) refl refl refl (λ f. f)
Step-IsSound v (read i e) = read_into-IsSound v i e
Step-IsSound {s = s} v (post_stored i e) =
    produces v (wants_empty i) s.mutex s.nempty (s.nstored + 1) e refl refl (omega arith) refl
      (λ f. f)
Step-IsSound {s = s} v (post_last e) =
    produces v returned s.mutex s.nempty (s.nstored + 1) e refl refl (omega arith) refl (λ f. f)
Step-IsSound {s = s} v (wait_stored i k e h) =
    consumes v (has_stored i) s.mutex s.nempty k e refl refl (omega arith) (λ t. t)
      (λ h. absurd (omega arith))
Step-IsSound {s = s} v (lock_consumer i k e h) =
    consumes v (locked i) k s.nempty s.nstored e (omega arith) refl refl (λ t. t)
      (λ h. absurd (omega arith))
Step-IsSound {s = s} v (unlock_consumer i e) =
    consumes v (writes i) (s.mutex + 1) s.nempty s.nstored e (omega arith) refl refl (λ t. t)
      (λ h. absurd (omega arith))
Step-IsSound v (write i e) = write_from-IsSound v i e
Step-IsSound {s = s} v (post_empty i e) =
    consumes v (wants_stored i) s.mutex (s.nempty + 1) s.nstored e refl (omega arith) refl (λ t. t)
      (λ h. absurd (omega arith))

pub Reach-IsSound :
    {file : ℕ → Piece} {s t : System} → IsSound file s → Reach file s t → IsSound file t
Reach-IsSound v start = v
Reach-IsSound v (later r st) = Step-IsSound (Reach-IsSound v r) st
