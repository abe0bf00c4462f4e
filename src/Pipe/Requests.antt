-- ===== src/Pipe/Requests.antt =====
-- pipe/fifoclieser: clients that ask for files through the server's well-known FIFO, each of which
-- reads the reply from a FIFO named by its process identifier.
pub mod Decimal
pub mod Service
use interprocess_comm.Prelude.{
  ℕ, zero, suc, ◌+◌, ◌-◌, ◌*◌, ◌/◌, ◌%◌, ◌≤◌, ◌≡◌, Bool, true, false, ◌&&◌, ◌||◌, if◌then◌else◌,
  ltb, leb, ◌==◌, List, [], ◌∷◌, ◌++◌, length, take, drop, Option, none, some, ℤ, pos, negsuc,
  sub_ℕ,
}
use interprocess_comm.Pipe.{
  newline, maxline, c_string, fgets, strip_newline, Opened, cannot_open, file,
}
use interprocess_comm.Pipe.Line.{Line, readline}

abbrev pub blank : ℕ
blank = 32

-- The decimal digits of a number below 10 ^ (fuel + 1), as `printf` writes them.
unfoldable pub digits : (fuel n : ℕ) → List ℕ
digits zero n = (48 + n) ∷ []
digits (suc fuel) n =
    let high = digits fuel (n / 10) in
    if ltb n 10 then (48 + n) ∷ [] else high ++ ((48 + n % 10) ∷ [])

-- A `pid_t` has at most 10 digits.
abbrev pub decimal : ℕ → List ℕ
decimal pid = digits 9 pid

-- What `main` of the client writes to the server's FIFO: its own number, a blank, and the line of its
-- standard input.
unfoldable pub request : (pid : ℕ) → (stdin : List ℕ) → List ℕ
request pid stdin = c_string (decimal pid ++ (blank ∷ fgets (maxline - 1) stdin))

abbrev is_digit : ℕ → Bool
is_digit c = leb 48 c && leb c 57

abbrev is_space : ℕ → Bool
is_space c = (c == blank) || (leb 9 c && leb c 13)

-- `atol`: the digits at the front, behind white space and a sign.
unfoldable pub read_digits : (acc : ℕ) → List ℕ → ℕ
read_digits acc [] = acc
read_digits acc (c ∷ cs) =
    let more = read_digits (10 * acc + (c - 48)) cs in if is_digit c then more else acc

unfoldable pub read_sign : List ℕ → ℤ
read_sign [] = pos 0
read_sign (c ∷ cs) =
    if c == 45
    then sub_ℕ 0 (read_digits 0 cs)
    else (if c == 43 then pos (read_digits 0 cs) else pos (read_digits 0 (c ∷ cs)))

unfoldable pub atol : List ℕ → ℤ
atol [] = pos 0
atol (c ∷ cs) = let rest = atol cs in if is_space c then rest else read_sign (c ∷ cs)

-- strchr(buff, ' ') in a buffer with the NUL behind `cs`: what stands before the first blank of the
-- string, and what stands behind it in the buffer.
unfoldable pub strchr_blank : List ℕ → Option (List ℕ × List ℕ)
strchr_blank [] = none
strchr_blank (c ∷ cs) =
    let further = strchr_blank cs in
    if c == 0
    then none
    else (if c == blank
        then some ([], cs)
        else (elim further [ none ↦ none | some (word, rest) ↦ some (c ∷ word, rest) ]))

-- What the server does with a request: nothing, if the request has no blank or the FIFO of its client
-- cannot be opened, or what it writes to that FIFO.
pub data Served : Type 0 where
  bogus : Served
  no_fifo : (pid : ℤ) → Served
  replied : (pid : ℤ) → (writes : List (List ℕ)) → Served

-- The files and the FIFOs that the server can open.
pub record Kernel : Type 0 where
  pub open_fifo : (pid : ℤ) → Bool
  pub open_path : List ℕ → Opened

-- The reply. If the file cannot be opened, the error is written behind the path into what is left of
-- `buff`, which holds the request of `n` bytes and has MAXLINE+1.
unfoldable pub reply : (n : ℕ) → (path : List ℕ) → Opened → List (List ℕ)
reply n path (cannot_open message) = c_string (path ++ take (maxline - n) message) ∷ []
reply n path (file reads) = reads

-- A request of `n` bytes, taken apart at its first blank.
unfoldable pub answer : Kernel → (n : ℕ) → Option (List ℕ × List ℕ) → Served
answer k n none = bogus
answer k n (some (word, path)) =
    let pid = atol word in
    if k.open_fifo pid
    then replied pid (reply n path (k.open_path (c_string path)))
    else no_fifo pid

-- The body of the loop of `main`, on a line that has been read.
unfoldable pub serve : Kernel → (line : List ℕ) → Served
serve k line = let buff = strip_newline line in answer k (length buff) (strchr_blank buff)

-- `main` of the server, over what its clients have written to the FIFO: what it does, line by line,
-- until `readline` returns 0.
unfoldable pub main_loop : (fuel : ℕ) → Kernel → (input : List ℕ) → List Served
main_loop zero k input = []
main_loop (suc fuel) k input =
    let l = readline maxline input in
    let more = main_loop fuel k l.rest in
    if length l.stored == 0 then [] else serve k l.stored ∷ more

-- One round of the loop for each byte is enough.
abbrev pub main : Kernel → (input : List ℕ) → List Served
main k input = main_loop (length input) k input
