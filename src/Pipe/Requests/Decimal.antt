-- ===== src/Pipe/Requests/Decimal.antt =====
-- pipe/fifoclieser: the number of a process, written in decimal and read back by `atol`.
use interprocess_comm.Prelude.{
  ℕ, zero, suc, ◌+◌, ◌-◌, ◌*◌, ◌/◌, ◌%◌, ◌^◌, ◌≤◌, ◌<◌, ◌≡◌, ◌≢◌, refl, ap, ◌∙◌, Bool-cases, inl,
  inr, ltb, List, [], ◌∷◌, ◌++◌, length, All, pos, some, length-append, arith,
}
use interprocess_comm.Pipe.Requests.{
  digits, decimal, read_digits, read_sign, atol, strchr_blank, blank,
}
use interprocess_comm.Pipe.{newline}
use native.Mathlib.Nat.{pow-succ'}

-- A decimal digit.
pub record IsDigit (c : ℕ) : Type 0 where
  pub low : 48 ≤ c
  pub high : c ≤ 57

module _ (P : ℕ → Type 0) where
  All-append : (xs ys : List ℕ) → All P xs → All P ys → All P (xs ++ ys)
  All-append [] ys h k = k
  All-append (x ∷ xs) ys (h, hs) k = (h, All-append xs ys hs k)

pub digits-IsDigit : (fuel n : ℕ) → n < 10 ^ suc fuel → All IsDigit (digits fuel n)
unfolding digits
digits-IsDigit zero n h = (record { low = omega arith; high = omega arith }, tt)
digits-IsDigit (suc fuel) n h = elim (Bool-cases (ltb n 10)) [
  | inl one ↦ rw one (record { low = omega arith; high = ground arith }, tt)
  | inr more ↦ rw more (
      All-append IsDigit (digits fuel (n / 10)) ((48 + n % 10) ∷ [])
        (digits-IsDigit fuel (n / 10) (omega (arith, pow-succ' 10 (suc fuel))))
        (record { low = omega arith; high = omega arith }, tt))
]

-- Digits before a last one.
read_digits-append :
    (acc d : ℕ) (xs : List ℕ)
    → All IsDigit xs
    → IsDigit d
    → read_digits acc (xs ++ (d ∷ [])) ≡ 10 * read_digits acc xs + (d - 48)
unfolding read_digits
read_digits-append acc d [] h k = ground (arith, k.low, k.high)
read_digits-append acc d (x ∷ xs) (h, hs) k =
    ground (arith, h.low, h.high, read_digits-append (10 * acc + (x - 48)) d xs hs k)

pub read_digits-digits : (fuel n : ℕ) → n < 10 ^ suc fuel → read_digits 0 (digits fuel n) ≡ n
unfolding digits
read_digits-digits zero n h = unfold read_digits in ground arith
read_digits-digits (suc fuel) n h = elim (Bool-cases (ltb n 10)) [
  | inl one ↦ rw one (unfold read_digits in ground arith)
  | inr more ↦ rw more (
      let below : n / 10 < 10 ^ suc fuel = omega (arith, pow-succ' 10 (suc fuel)) in
      read_digits-append 0 (48 + n % 10) (digits fuel (n / 10)) (digits-IsDigit fuel (n / 10) below)
        (record { low = omega arith; high = omega arith })
      ∙ omega (arith, read_digits-digits fuel (n / 10) below))
]

-- Digits are no white space and no sign.
pub atol-read_digits :
    (c : ℕ) (cs : List ℕ) → IsDigit c → atol (c ∷ cs) ≡ pos (read_digits 0 (c ∷ cs))
unfolding atol read_sign
atol-read_digits c cs h = ground (arith, h.low, h.high)

pub digits-some : (fuel n : ℕ) → 1 ≤ length (digits fuel n)
unfolding digits
digits-some zero n = omega arith
digits-some (suc fuel) n = elim (Bool-cases (ltb n 10)) [
  | inl one ↦ rw one (omega arith)
  | inr more ↦ rw more (omega (arith, length-append (digits fuel (n / 10)) ((48 + n % 10) ∷ [])))
]

atol-digits : (xs : List ℕ) → 1 ≤ length xs → All IsDigit xs → atol xs ≡ pos (read_digits 0 xs)
atol-digits [] one h = absurd (omega arith)
atol-digits (x ∷ xs) one (h, hs) = atol-read_digits x xs h

-- `atol` gives back the number of a process that has at most ten digits.
pub atol-decimal : (pid : ℕ) → pid < 10 ^ 10 → atol (decimal pid) ≡ pos pid
atol-decimal pid h =
    atol-digits (decimal pid) (digits-some 9 pid) (digits-IsDigit 9 pid h)
    ∙ ap pos (read_digits-digits 9 pid h)

-- The number ends at the first blank.
strchr_blank-digits :
    (xs path : List ℕ) → All IsDigit xs → strchr_blank (xs ++ (blank ∷ path)) ≡ some (xs, path)
unfolding strchr_blank
strchr_blank-digits [] path h = refl
strchr_blank-digits (x ∷ xs) path (h, hs) =
    ground (arith, h.low, h.high, strchr_blank-digits xs path hs)

pub strchr_blank-decimal :
    (pid : ℕ) (path : List ℕ)
    → pid < 10 ^ 10
    → strchr_blank (decimal pid ++ (blank ∷ path)) ≡ some (decimal pid, path)
strchr_blank-decimal pid path h = strchr_blank-digits (decimal pid) path (digits-IsDigit 9 pid h)

-- Bytes that stand inside a line: no NUL, no newline, and not the byte that `readline` takes for EOF.
pub record IsInner (c : ℕ) : Type 0 where
  pub no_nul : c ≢ 0
  pub no_newline : c ≢ newline
  pub no_eof : c ≢ 255

IsDigit-IsInner : (xs : List ℕ) → All IsDigit xs → All IsInner xs
IsDigit-IsInner [] h = tt
IsDigit-IsInner (x ∷ xs) (h, hs) = (
  record {
    no_nul = λ e. omega (arith, h.low, h.high);
    no_newline = λ e. omega (arith, h.low, h.high);
    no_eof = λ e. omega (arith, h.low, h.high);
  },
  IsDigit-IsInner xs hs,
)

pub decimal-IsInner :
    (pid : ℕ) (path : List ℕ)
    → pid < 10 ^ 10
    → All IsInner path
    → All IsInner (decimal pid ++ (blank ∷ path))
decimal-IsInner pid path h inner =
    All-append IsInner (decimal pid) (blank ∷ path)
      (IsDigit-IsInner (decimal pid) (digits-IsDigit 9 pid h))
      (
        record {
          no_nul = λ e. omega arith;
          no_newline = λ e. omega arith;
          no_eof = λ e. omega arith;
        },
        inner,
      )
