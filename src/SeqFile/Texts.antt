-- ===== src/SeqFile/Texts.antt =====
-- lock/lockmain.c: the number in the file, read and written over.
use interprocess_comm.Prelude.{
  ℕ, zero, suc, ◌+◌, ◌-◌, ◌*◌, ◌/◌, ◌%◌, ◌≤◌, ◌≡◌, refl, ap, ◌∙◌, Bool-cases, inl, inr, true, ltb,
  leb, List, [], ◌∷◌, ◌++◌, length, length-append, drop, All, pos, arith,
}
use interprocess_comm.Pipe.{newline, overwrite}
use interprocess_comm.Pipe.Requests.{digits, read_digits, atol}
use interprocess_comm.Pipe.Requests.Decimal.{
  IsDigit, digits-IsDigit, digits-some, read_digits-digits, atol-read_digits,
}
use interprocess_comm.SeqFile.{text, scan, to_long, long_max}
use mathlib.Core.List.{append-nil}

-- A larger number has no fewer digits.
digits_grow : (fuel a b : ℕ) → a ≤ b → length (digits fuel a) ≤ length (digits fuel b)
unfolding digits
digits_grow zero a b h = omega arith
digits_grow (suc fuel) a b h = elim (Bool-cases (ltb b 10)) [
  | inl one ↦ let first : ltb a 10 ≡ true = ground arith in rw (one, first) (omega arith)
  | inr more ↦ elim (Bool-cases (ltb a 10)) [
    | inl one ↦
        rw (more, one) (omega (arith, length-append (digits fuel (b / 10)) ((48 + b % 10) ∷ [])))
    | inr both ↦
        rw (more, both)
          (omega (
            arith,
            length-append (digits fuel (b / 10)) ((48 + b % 10) ∷ []),
            length-append (digits fuel (a / 10)) ((48 + a % 10) ∷ []),
            digits_grow fuel (a / 10) (b / 10) (omega arith),
          ))
  ]
]

drop-all : (n : ℕ) (xs : List ℕ) → length xs ≤ n → drop n xs ≡ []
drop-all zero [] h = refl
drop-all zero (x ∷ xs) h = absurd (omega arith)
drop-all (suc n) [] h = refl
drop-all (suc n) (x ∷ xs) h = drop-all n xs (omega arith)

-- The text of the next number covers that of the last.
pub overwrite-text : (n : ℕ) → overwrite (text (pos (n + 1))) (text (pos n)) ≡ text (pos (n + 1))
unfolding text
overwrite-text n =
    let new = digits 18 (n + 1) ++ (newline ∷ []) in
    let old = digits 18 n ++ (newline ∷ []) in
    let short : length old ≤ length new = omega (
      arith,
      length-append (digits 18 (n + 1)) (newline ∷ []),
      length-append (digits 18 n) (newline ∷ []),
      digits_grow 18 n (n + 1) (omega arith),
    ) in
    ap (λ l. new ++ l) (drop-all (length new) old short) ∙ append-nil new

-- The digits end at the newline.
read_digits-newline :
    (acc : ℕ) (xs : List ℕ)
    → All IsDigit xs
    → read_digits acc (xs ++ (newline ∷ [])) ≡ read_digits acc xs
unfolding read_digits
read_digits-newline acc [] h = refl
read_digits-newline acc (x ∷ xs) (h, hs) =
    ground (arith, h.low, h.high, read_digits-newline (10 * acc + (x - 48)) xs hs)

atol-digits :
    (xs : List ℕ)
    → 1 ≤ length xs
    → All IsDigit xs
    → atol (xs ++ (newline ∷ [])) ≡ pos (read_digits 0 xs)
atol-digits [] one h = absurd (omega arith)
atol-digits (x ∷ xs) one (h, hs) =
    atol-read_digits x (xs ++ (newline ∷ [])) h ∙ ap pos (read_digits-newline 0 (x ∷ xs) (h, hs))

-- What has been written is read back.
pub scan-text : (n : ℕ) → n ≤ long_max → scan (text (pos n)) ≡ pos n
unfolding text to_long
scan-text n h =
    let long : leb n long_max ≡ true = ground arith in
    ap to_long (
      atol-digits (digits 18 n) (digits-some 18 n) (digits-IsDigit 18 n (omega arith))
      ∙ ap pos (read_digits-digits 18 n (omega arith)))
    ∙ rw long refl
