-- ===== src/Pipe/Line.antt =====
-- pipe/pipemesg/mesg.c, pipe/fifoclieser/mainserver.c, mainclient.c: `readline`.
use interprocess_comm.Prelude.{
  ℕ, zero, suc, ◌+◌, ◌≡◌, Bool, true, false, ◌||◌, if◌then◌else◌, ◌==◌, leb, Bool-cases, inl, inr,
  List, [], ◌∷◌, ◌++◌, length, take, drop, arith,
}
use interprocess_comm.Pipe.{newline}
use mathlib.Core.List.{append_assoc, append-nil}

-- What a call of `readline` leaves: the bytes stored in `buff`, whether a NUL stands behind them, and
-- what is still to be read.
pub record Line : Type 0 where
  pub stored : List ℕ
  pub terminated : Bool
  pub rest : List ℕ

-- c == EOF, where `char` is signed: the byte 255
abbrev pub ends_line : ℕ → Bool
ends_line c = (c == newline) || (c == 255)

unfoldable pub readline_loop : (maxnum count : ℕ) → (stored input : List ℕ) → Line
readline_loop maxnum count stored [] = record { stored = stored; terminated = true; rest = [] }
readline_loop maxnum count stored (c ∷ cs) =
    let more = readline_loop maxnum (count + 1) (stored ++ (c ∷ [])) cs in
    if count == maxnum
    then record { stored = stored; terminated = false; rest = cs }
    else (if ends_line c
        then record { stored = stored ++ (c ∷ []); terminated = true; rest = cs }
        else more)

-- `readline` on an open descriptor, of which `input` is what can be read.
abbrev pub readline : (maxnum : ℕ) → (input : List ℕ) → Line
readline maxnum input = readline_loop maxnum 0 [] input

-- What stands up to the first newline (10) or the first byte 255, with that byte; or everything, if
-- there is none.
abbrev pub first_line : List ℕ → List ℕ
first_line [] = []
first_line (c ∷ cs) =
    let later = first_line cs in
    if c == 10 then c ∷ [] else (if c == 255 then c ∷ [] else c ∷ later)

-- The line in whole, or the first `maxnum` bytes of it; then the byte behind them has been read, too.
abbrev pub cut_line : (maxnum : ℕ) → (line input : List ℕ) → Line
cut_line maxnum line input =
    if leb (length line) maxnum
    then record { stored = line; terminated = true; rest = drop (length line) input }
    else record { stored = take maxnum line; terminated = false; rest = drop (suc maxnum) input }

-- What `cut_line` gives, behind the bytes stored before.
abbrev behind : List ℕ → Line → Line
behind stored l = record l { stored = stored ++ l.stored }

cut_line-step :
    (room c : ℕ) (stored line cs : List ℕ)
    → behind (stored ++ (c ∷ [])) (cut_line room line cs)
      ≡ behind stored (cut_line (suc room) (c ∷ line) (c ∷ cs))
cut_line-step room c stored line cs = elim (Bool-cases (leb (length line) room)) [
  | inl short ↦ ground (arith, append_assoc stored (c ∷ []) line)
  | inr long ↦ ground (arith, append_assoc stored (c ∷ []) (take room line))
]

readline_loop-cut_line :
    (maxnum room count : ℕ) (stored input : List ℕ)
    → count + room ≡ maxnum
    → readline_loop maxnum count stored input
      ≡ behind stored (cut_line room (first_line input) input)
unfolding readline_loop
readline_loop-cut_line maxnum room count stored [] h = ground (arith, append-nil stored)
readline_loop-cut_line maxnum zero count stored (c ∷ cs) h = elim (Bool-cases (ends_line c)) [
  | inl last ↦ ground (arith, append-nil stored)
  | inr inner ↦ ground (arith, append-nil stored)
]
readline_loop-cut_line maxnum (suc room) count stored (c ∷ cs) h = elim (Bool-cases (ends_line c)) [
  | inl last ↦ ground arith
  | inr inner ↦ ground (
    arith,
    readline_loop-cut_line maxnum room (count + 1) (stored ++ (c ∷ [])) cs (omega arith),
    cut_line-step room c stored (first_line cs) cs,
  )
]

-- A line ends with a newline, with the byte 255, or where there is nothing left to read. `readline`
-- stores the first line, with the byte that ends it and a NUL behind it, if it has at most `maxnum`
-- bytes, and leaves what follows it. Of a longer line it stores the first `maxnum` bytes, with no NUL
-- behind them, and the next byte of the line is lost.
pub readline-first_line :
    (maxnum : ℕ) (input : List ℕ) → readline maxnum input ≡ cut_line maxnum (first_line input) input
readline-first_line maxnum input = readline_loop-cut_line maxnum maxnum 0 [] input (omega arith)
