-- ===== src/Mycat/Balance.antt =====
-- pxsem/mycat2.c: how the semaphores, the buffers and the threads balance.
use interprocess_comm.Prelude.{
  ℕ, zero, suc, ◌+◌, ◌-◌, ◌%◌, ◌≤◌, ◌<◌, ◌≡◌, refl, true, false, Bool-cases, inl, inr, leb, List,
  [], ◌∷◌, ◌++◌, length, arith,
}
use interprocess_comm.Mycat.{
  Piece, ends, advance, Producer, wants_empty, has_empty, in_mutex, reads, posts, posts_last,
  returned, Consumer, wants_stored, has_stored, locked, writes, frees, finished, System, main,
}

-- The producer has the mutex, has a unit of `nempty`, or has read a buffer that it has not posted.
abbrev pub p_locks : Producer → ℕ
p_locks (in_mutex i) = 1
p_locks _ = 0

abbrev pub p_empties : Producer → ℕ
p_empties (has_empty i) = 1
p_empties (in_mutex i) = 1
p_empties (reads i) = 1
p_empties _ = 0

abbrev pub p_stores : Producer → ℕ
p_stores (posts i) = 1
p_stores posts_last = 1
p_stores _ = 0

-- It has found the end of the file.
abbrev pub p_over : Producer → ℕ
p_over posts_last = 1
p_over returned = 1
p_over _ = 0

-- The consumer has the mutex, has a unit of `nstored`, or has written a buffer that it has not posted.
abbrev pub c_locks : Consumer → ℕ
c_locks (locked i) = 1
c_locks _ = 0

abbrev pub c_stores : Consumer → ℕ
c_stores (has_stored i) = 1
c_stores (locked i) = 1
c_stores (writes i) = 1
c_stores finished = 1
c_stores _ = 0

abbrev pub c_frees : Consumer → ℕ
c_frees (frees i) = 1
c_frees _ = 0

abbrev pub c_over : Consumer → ℕ
c_over finished = 1
c_over _ = 0

-- The producer is at the buffer for call `k`, and the consumer at that for `c`.
abbrev pub FillsSlot : (k : ℕ) → Producer → Type 0
FillsSlot k (wants_empty i) = i ≡ k % 8
FillsSlot k (has_empty i) = i ≡ k % 8
FillsSlot k (in_mutex i) = i ≡ k % 8
FillsSlot k (reads i) = i ≡ k % 8
FillsSlot k (posts i) = i ≡ k % 8
FillsSlot k _ = Unit

abbrev pub TakesSlot : (c : ℕ) → Consumer → Type 0
TakesSlot c (wants_stored i) = i ≡ c % 8
TakesSlot c (has_stored i) = i ≡ c % 8
TakesSlot c (locked i) = i ≡ c % 8
TakesSlot c (writes i) = i ≡ c % 8
TakesSlot c (frees i) = i ≡ c % 8
TakesSlot c finished = Unit

-- What the first `n` calls of `read` give.
abbrev pub firsts : (file : ℕ → Piece) → (n : ℕ) → List Piece
firsts file zero = []
firsts file (suc n) = firsts file n ++ (file n ∷ [])

pub record IsSound (file : ℕ → Piece) (s : System) : Type 0 where
  pub mutex : s.mutex + p_locks s.producer + c_locks s.consumer ≡ 1
  pub nempty : s.nempty + p_empties s.producer + s.calls + c_frees s.consumer ≡ 8 + length s.written
  pub nstored : s.nstored + p_stores s.producer + c_stores s.consumer + length s.written ≡ s.calls
  pub fills : FillsSlot s.calls s.producer
  pub takes : TakesSlot (length s.written) s.consumer
  pub buff : (m : ℕ) → length s.written ≤ m → m < s.calls → s.buff (m % 8) ≡ file m
  pub written : s.written ≡ firsts file (length s.written)
  pub copied : (m : ℕ) → m < length s.written → ends (file m) ≡ false
  pub inner : (m : ℕ) → m + p_over s.producer < s.calls → ends (file m) ≡ false
  pub last : 0 < p_over s.producer → (0 < s.calls) × (ends (file (s.calls - 1)) ≡ true)
  pub over : 0 < c_over s.consumer → ends (file (length s.written)) ≡ true

pub main-IsSound : (file : ℕ → Piece) → IsSound file main
main-IsSound file = record {
  mutex = omega arith;
  nempty = omega arith;
  nstored = omega arith;
  fills = refl;
  takes = refl;
  buff = λ m lo hi. absurd (omega arith);
  written = refl;
  copied = λ m h. absurd (omega arith);
  inner = λ m h. absurd (omega arith);
  last = λ h. absurd (omega arith);
  over = λ h. absurd (omega arith);
}

-- The next buffer is the one of the next call.
pub advance_lem : (i k : ℕ) → i ≡ k % 8 → advance i ≡ (k + 1) % 8
unfolding advance
advance_lem i k h = elim (Bool-cases (leb 8 (i + 1))) [
  | inl round ↦ rw round (ground arith)
  | inr inside ↦ rw inside (ground arith)
]

-- Two calls within one round of the ring use different buffers.
pub same-slot : (a b : ℕ) → a ≤ b → b < a + 8 → a % 8 ≡ b % 8 → a ≡ b
same-slot a b le lt e = omega arith
