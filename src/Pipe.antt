-- ===== src/Pipe.antt =====
-- pipe: bytes, C strings and buffers, as the programs over pipes and FIFOs use them.
pub mod Line
pub mod Copy
pub mod Mesg
pub mod MesgCopy
pub mod Requests
use interprocess_comm.Prelude.{
  ℕ, zero, suc, ◌+◌, ◌-◌, ◌≤◌, ◌≡◌, refl, ap, Bool, true, false, ◌&&◌, ◌||◌, not, if◌then◌else◌,
  ◌==◌, List, [], ◌∷◌, ◌++◌, length, take, drop, All, take-append, length-append, sym, ◌∙◌, arith,
  Bool-cases, inl, inr, ◌≢◌, has,
}
use mathlib.Core.List.{IsPrefix}

-- A byte is a number below 256.
abbrev pub newline : ℕ
newline = 10

-- #define MAXLINE 256
abbrev pub maxline : ℕ
maxline = 256

-- The string at the start of a buffer: what stands before the first NUL, which `strlen` counts.
abbrev pub c_string : List ℕ → List ℕ
c_string [] = []
c_string (c ∷ cs) = if c == 0 then [] else c ∷ c_string cs

-- What `fgets` stores of `input`, less the NUL: at most `room` bytes, and none behind a newline.
unfoldable pub fgets : (room : ℕ) → (input : List ℕ) → List ℕ
fgets zero input = []
fgets (suc room) [] = []
fgets (suc room) (c ∷ cs) = let rest = fgets room cs in if c == newline then c ∷ [] else c ∷ rest

-- The string without its last byte, if that is a newline.
abbrev pub strip_newline : List ℕ → List ℕ
strip_newline [] = []
strip_newline (c ∷ []) = if c == newline then [] else c ∷ []
strip_newline (c ∷ (d ∷ ds)) = c ∷ strip_newline (d ∷ ds)

-- A buffer of which `read` has set the first bytes.
abbrev pub overwrite : (bytes buff : List ℕ) → List ℕ
overwrite bytes buff = bytes ++ drop (length bytes) buff

unfoldable pub zeros : ℕ → List ℕ
zeros zero = []
zeros (suc n) = 0 ∷ zeros n

abbrev pub join : List (List ℕ) → List ℕ
join [] = []
join (bytes ∷ more) = bytes ++ join more

-- `open`: the text that is to follow the path, :can't open,%s\n with the error, or the results of the calls of `read` up to the end of the file.
pub data Opened : Type 0 where
  cannot_open : (message : List ℕ) → Opened
  file : (reads : List (List ℕ)) → Opened

-- A call of `read` gives at least one byte, and at most as many as were asked for.
pub record IsRead (room : ℕ) (bytes : List ℕ) : Type 0 where
  pub some_bytes : 1 ≤ length bytes
  pub fits : length bytes ≤ room

-- The string in a buffer is a prefix of it.
pub c_string-IsPrefix : (cs : List ℕ) → IsPrefix (c_string cs) cs
c_string-IsPrefix [] = ([], refl)
c_string-IsPrefix (c ∷ cs) = elim (Bool-cases (c == 0)) [
  | inl nul ↦ rw nul (c ∷ cs, refl)
  | inr other ↦ rw other (let (s, p) = c_string-IsPrefix cs in (s, ap (λ l. c ∷ l) p))
]

pub strip_newline-IsPrefix : (cs : List ℕ) → IsPrefix (strip_newline cs) cs
strip_newline-IsPrefix [] = ([], refl)
strip_newline-IsPrefix (c ∷ []) = elim (Bool-cases (c == newline)) [
  | inl last ↦ rw last (c ∷ [], refl)
  | inr other ↦ rw other ([], refl)
]
strip_newline-IsPrefix (c ∷ (d ∷ ds)) =
    let (s, p) = strip_newline-IsPrefix (d ∷ ds) in (s, ap (λ l. c ∷ l) p)

-- No byte of a string is NUL.
abbrev pub NoNul : List ℕ → Type 0
NoNul cs = All (λ c. c ≢ 0) cs

pub c_string-NoNul : (cs : List ℕ) → NoNul (c_string cs)
c_string-NoNul [] = tt
c_string-NoNul (c ∷ cs) = elim (Bool-cases (c == 0)) [
  | inl nul ↦ rw nul tt
  | inr other ↦ rw other ((λ e. ground arith), c_string-NoNul cs)
]

pub strip_newline-NoNul : (cs : List ℕ) → NoNul cs → NoNul (strip_newline cs)
strip_newline-NoNul [] h = h
strip_newline-NoNul (c ∷ []) h = elim (Bool-cases (c == newline)) [
  | inl last ↦ rw last tt
  | inr other ↦ rw other h
]
strip_newline-NoNul (c ∷ (d ∷ ds)) (h, hs) = (h, strip_newline-NoNul (d ∷ ds) hs)

-- A string in front of other bytes.
pub c_string-append : (cs ds : List ℕ) → NoNul cs → c_string (cs ++ ds) ≡ cs ++ c_string ds
c_string-append [] ds h = refl
c_string-append (c ∷ cs) ds (h, hs) =
    let other : (c == 0) ≡ false = ground arith in
    rw other (ap (λ l. c ∷ l) (c_string-append cs ds hs))

pub length-fgets : (room : ℕ) (input : List ℕ) → length (fgets room input) ≤ room
unfolding fgets
length-fgets zero input = omega arith
length-fgets (suc room) [] = omega arith
length-fgets (suc room) (c ∷ cs) = elim (Bool-cases (c == newline)) [
  | inl last ↦ rw last (omega arith)
  | inr other ↦ rw other (omega (arith, length-fgets room cs))
]

-- A NUL ends the string, whatever stands behind.
pub c_string-has : (cs ds : List ℕ) → has 0 cs ≡ true → c_string (cs ++ ds) ≡ c_string cs
c_string-has [] ds h = absurd (ground arith)
c_string-has (c ∷ cs) ds h = elim (Bool-cases (c == 0)) [
  | inl nul ↦ rw nul refl
  | inr other ↦ rw other (ap (λ l. c ∷ l) (c_string-has cs ds (ground arith)))
]

drop_none : (n : ℕ) → drop {A = ℕ} n [] ≡ []
drop_none zero = refl
drop_none (suc n) = refl

-- The bytes behind those that have been set stay.
pub drop-overwrite :
    (n : ℕ) (bytes buff : List ℕ) → length bytes ≤ n → drop n (overwrite bytes buff) ≡ drop n buff
drop-overwrite n [] buff h = refl
drop-overwrite zero (b ∷ bs) buff h = absurd (omega arith)
drop-overwrite (suc n) (b ∷ bs) [] h =
    ap (λ l. drop n (bs ++ l)) (sym (drop_none (length bs)))
    ∙ drop-overwrite n bs [] (omega arith)
    ∙ drop_none n
drop-overwrite (suc n) (b ∷ bs) (c ∷ cs) h = drop-overwrite n bs cs (omega arith)

-- A buffer keeps its size.
pub length-overwrite :
    (bytes buff : List ℕ) → length bytes ≤ length buff → length (overwrite bytes buff) ≡ length buff
length-overwrite [] buff h = refl
length-overwrite (b ∷ bs) [] h = absurd (omega arith)
length-overwrite (b ∷ bs) (c ∷ cs) h = ap suc (length-overwrite bs cs (omega arith))

pub length-zeros : (n : ℕ) → length (zeros n) ≡ n
unfolding zeros
length-zeros zero = refl
length-zeros (suc n) = ap suc (length-zeros n)

pub take-IsPrefix : (a b : List ℕ) → IsPrefix a b → take (length a) b ≡ a
take-IsPrefix a b (s, p) = ap (take (length a)) (sym p) ∙ take-append (length a) a s refl

pub length-IsPrefix : (a b : List ℕ) → IsPrefix a b → length a ≤ length b
length-IsPrefix a b (s, p) = omega (arith, length-append a s, ap length p)
