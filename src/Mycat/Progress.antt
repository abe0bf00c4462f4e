-- ===== src/Mycat/Progress.antt =====
-- pxsem/mycat2.c: what has been written, and the states in which no thread can make a step.
use interprocess_comm.Prelude.{
  ℕ, ◌+◌, ◌-◌, ◌≤◌, ◌<◌, ◌≡◌, refl, ap, true, false, inl, inr, zero_or_suc, ◌≢◌, length, arith,
}
use interprocess_comm.Mycat.{
  Piece, ends, Producer, wants_empty, has_empty, in_mutex, reads, posts, posts_last, returned,
  Consumer, wants_stored, has_stored, locked, writes, frees, finished, System, main, Step,
  wait_empty, lock_producer, unlock_producer, read, post_stored, post_last, wait_stored,
  lock_consumer, unlock_consumer, write, post_empty, Reach,
}
use interprocess_comm.Mycat.Balance.{
  p_locks, p_empties, p_stores, p_over, c_locks, c_stores, c_frees, c_over, firsts, IsSound,
  main-IsSound,
}
use interprocess_comm.Mycat.Moves.{Reach-IsSound}

-- In every state that the two threads reach: what has been written is what the first calls of `read`
-- gave, in their order, none left out and none twice; and at most 8 buffers are read ahead.
pub writes_in_order :
    (file : ℕ → Piece) {s : System}
    → Reach file main s
    → (s.written ≡ firsts file (length s.written))
      × (length s.written ≤ s.calls)
      × (s.calls ≤ length s.written + 8)
writes_in_order file r =
    let v = Reach-IsSound (main-IsSound file) r in
    (v.written, omega (arith, v.nstored), omega (arith, v.nempty))

-- What a thread that cannot move is, and what it waits for.
abbrev Settled : System → Producer → Type 0
Settled s (wants_empty i) = s.nempty ≡ 0
Settled s (has_empty i) = s.mutex ≡ 0
Settled s returned = Unit
Settled s _ = ⊥

abbrev Still : System → Consumer → Type 0
Still s (wants_stored i) = s.nstored ≡ 0
Still s (has_stored i) = s.mutex ≡ 0
Still s finished = Unit
Still s _ = ⊥

module _ {file : ℕ → Piece} {t : System} (stuck : (u : System) → Step file t u → ⊥) where
  settled : (p : Producer) → t.producer ≡ p → Settled t p
  settled (wants_empty i) e = elim (zero_or_suc t.nempty) [
    | inl z ↦ z
    | inr (p, q) ↦ absurd (stuck _ (wait_empty i p e q))
  ]
  settled (has_empty i) e = elim (zero_or_suc t.mutex) [
    | inl z ↦ z
    | inr (p, q) ↦ absurd (stuck _ (lock_producer i p e q))
  ]
  settled (in_mutex i) e = stuck _ (unlock_producer i e)
  settled (reads i) e = stuck _ (read i e)
  settled (posts i) e = stuck _ (post_stored i e)
  settled posts_last e = stuck _ (post_last e)
  settled returned e = tt

  still : (c : Consumer) → t.consumer ≡ c → Still t c
  still (wants_stored i) e = elim (zero_or_suc t.nstored) [
    | inl z ↦ z
    | inr (p, q) ↦ absurd (stuck _ (wait_stored i p e q))
  ]
  still (has_stored i) e = elim (zero_or_suc t.mutex) [
    | inl z ↦ z
    | inr (p, q) ↦ absurd (stuck _ (lock_consumer i p e q))
  ]
  still (locked i) e = stuck _ (unlock_consumer i e)
  still (writes i) e = stuck _ (write i e)
  still (frees i) e = stuck _ (post_empty i e)
  still finished e = tt

-- The mutex is not what they wait for.
mutex_free :
    {file : ℕ → Piece} (s : System)
    → IsSound file s
    → p_locks s.producer ≡ 0
    → c_locks s.consumer ≡ 0
    → s.mutex ≢ 0
mutex_free s v p c z = omega (arith, v.mutex)

-- Two threads that wait for each other would need more buffers, or fewer, than there are.
ends_both :
    (file : ℕ → Piece) (s : System) (p : Producer) (c : Consumer)
    → IsSound file s
    → s.producer ≡ p
    → s.consumer ≡ c
    → Settled s p
    → Still s c
    → (p ≡ returned) × (c ≡ finished)
ends_both file s returned finished v e d z w = (refl, refl)
ends_both file s (in_mutex i) c v e d z w = elim z [ ]
ends_both file s (reads i) c v e d z w = elim z [ ]
ends_both file s (posts i) c v e d z w = elim z [ ]
ends_both file s posts_last c v e d z w = elim z [ ]
ends_both file s p (locked i) v e d z w = elim w [ ]
ends_both file s p (writes i) v e d z w = elim w [ ]
ends_both file s p (frees i) v e d z w = elim w [ ]
ends_both file s (wants_empty i) (has_stored j) v e d z w =
    absurd (mutex_free s v (ap p_locks e) (ap c_locks d) w)
ends_both file s (has_empty i) (wants_stored j) v e d z w =
    absurd (mutex_free s v (ap p_locks e) (ap c_locks d) z)
ends_both file s (has_empty i) (has_stored j) v e d z w =
    absurd (mutex_free s v (ap p_locks e) (ap c_locks d) z)
ends_both file s (has_empty i) finished v e d z w =
    absurd (mutex_free s v (ap p_locks e) (ap c_locks d) z)
ends_both file s returned (has_stored j) v e d z w =
    absurd (mutex_free s v (ap p_locks e) (ap c_locks d) w)
ends_both file s (wants_empty i) (wants_stored j) v e d z w =
    absurd (
      omega
        (arith, v.nempty, v.nstored, ap p_empties e, ap p_stores e, ap c_stores d, ap c_frees d))
ends_both file s (wants_empty i) finished v e d z w =
    let here = v.over (omega (arith, ap c_over d)) in
    let there =
      v.inner (length s.written)
        (omega (arith, v.nempty, ap p_empties e, ap p_over e, ap c_frees d)) in
    absurd (ground (arith, here, there))
ends_both file s returned (wants_stored j) v e d z w =
    let (some, here) = v.last (omega (arith, ap p_over e)) in
    let there = v.copied (s.calls - 1) (omega (arith, v.nstored, ap p_stores e, ap c_stores d)) in
    absurd (ground (arith, here, there))

-- No deadlock: in a state that the two threads reach and in which neither can make a step, both have
-- returned, and what has been written is all that `read` gave before the end of the file, once and in
-- order.
pub copies_all :
    (file : ℕ → Piece) {s : System}
    → Reach file main s
    → ((u : System) → Step file s u → ⊥)
    → (s.producer ≡ returned)
      × (s.consumer ≡ finished)
      × (s.written ≡ firsts file (length s.written))
      × (ends (file (length s.written)) ≡ true)
      × ((m : ℕ) → m < length s.written → ends (file m) ≡ false)
copies_all file {s} r stuck =
    let v = Reach-IsSound (main-IsSound file) r in
    let (p, c) =
      ends_both file s s.producer s.consumer v refl refl (settled stuck s.producer refl)
        (still stuck s.consumer refl) in
    (p, c, v.written, v.over (omega (arith, ap c_over c)), v.copied)
