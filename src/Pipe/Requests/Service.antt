-- ===== src/Pipe/Requests/Service.antt =====
-- pipe/fifoclieser: the requests of clients, and what the server does with them.
use interprocess_comm.Prelude.{
  ℕ, zero, suc, ◌+◌, ◌-◌, ◌^◌, ◌≤◌, ◌<◌, ◌≡◌, refl, sym, ap, ap₂, ◌∙◌, true, false, if◌then◌else◌,
  ◌==◌, leb, List, [], ◌∷◌, ◌++◌, length, take, map, All, drop-append, length-append, some, pos,
  arith,
}
use interprocess_comm.Pipe.{
  newline, maxline, c_string, c_string-append, NoNul, fgets, strip_newline, join, Opened,
  cannot_open, file,
}
use interprocess_comm.Pipe.Line.{readline_loop, readline, readline-first_line, first_line, cut_line}
use interprocess_comm.Pipe.Requests.{
  blank, decimal, request, strchr_blank, Kernel, Served, no_fifo, replied, reply, answer, serve,
  main_loop, main,
}
use interprocess_comm.Pipe.Requests.Decimal.{
  atol-decimal, strchr_blank-decimal, IsInner, decimal-IsInner,
}
use mathlib.Core.List.{append_assoc, append-nil}

-- A client: its number, the path name on its standard input, and what follows that line.
pub record Client : Type 0 where
  pub pid : ℕ
  pub path : List ℕ
  pub more : List ℕ

-- The request of a client, less its newline.
abbrev words : Client → List ℕ
words c = decimal c.pid ++ (blank ∷ c.path)

-- The request fits in the client's buffer and in what the server reads as one line.
pub record IsClient (c : Client) : Type 0 where
  pub pid_fits : c.pid < 10 ^ 10
  pub inner : All IsInner c.path
  pub fits : length (decimal c.pid) + length c.path + 2 ≤ maxline

pub inner-NoNul : (xs : List ℕ) → All IsInner xs → NoNul xs
inner-NoNul [] h = tt
inner-NoNul (x ∷ xs) (h, hs) = (h.no_nul, inner-NoNul xs hs)

first_line-inner :
    (xs rest : List ℕ) → All IsInner xs → first_line (xs ++ (newline ∷ rest)) ≡ xs ++ (newline ∷ [])
first_line-inner [] rest h = refl
first_line-inner (x ∷ xs) rest (h, hs) =
    ground (arith, h.no_newline, h.no_eof, first_line-inner xs rest hs)

pub fgets-inner :
    (room : ℕ) (xs rest : List ℕ)
    → All IsInner xs
    → length xs + 1 ≤ room
    → fgets room (xs ++ (newline ∷ rest)) ≡ xs ++ (newline ∷ [])
unfolding fgets
fgets-inner zero xs rest h fit = absurd (omega arith)
fgets-inner (suc room) [] rest h fit = refl
fgets-inner (suc room) (x ∷ xs) rest (h, hs) fit =
    let inside : (x == newline) ≡ false = ground (arith, h.no_newline) in
    rw inside (ap (λ l. x ∷ l) (fgets-inner room xs rest hs (omega arith)))

pub strip_newline-append : (xs : List ℕ) → strip_newline (xs ++ (newline ∷ [])) ≡ xs
strip_newline-append [] = refl
strip_newline-append (x ∷ []) = refl
strip_newline-append (x ∷ (y ∷ ys)) = ap (λ l. x ∷ l) (strip_newline-append (y ∷ ys))

-- `readline` takes one request off what the clients have written.
readline-request :
    (xs rest : List ℕ)
    → All IsInner xs
    → length xs + 1 ≤ maxline
    → readline maxline ((xs ++ (newline ∷ [])) ++ rest)
      ≡ record { stored = xs ++ (newline ∷ []); terminated = true; rest = rest }
readline-request xs rest h fit =
    let line = xs ++ (newline ∷ []) in
    let len = length-append xs (newline ∷ []) in
    let short : leb (length line) maxline ≡ true = ground arith in
    readline-first_line maxline (line ++ rest)
    ∙ ap (λ l. cut_line maxline l (line ++ rest))
        (ap first_line (append_assoc xs (newline ∷ []) rest) ∙ first_line-inner xs rest h)
    ∙ rw (short, drop-append (length line) line rest refl) refl

-- What a client is to be sent: the bytes of the file, read by read; or, in one write, the path name
-- with the error behind it, up to its first NUL. Number, blank, path name and error have 256 bytes at
-- most; what is longer of the error is cut off.
abbrev pub due : Client → Opened → List (List ℕ)
due c (file reads) = reads
due c (cannot_open message) =
    (c.path ++ c_string (take (255 - length (decimal c.pid) - length c.path) message)) ∷ []

-- What the server is to do for a client.
abbrev pub served : Kernel → Client → Served
served k c =
    if k.open_fifo (pos c.pid)
    then replied (pos c.pid) (due c (k.open_path c.path))
    else no_fifo (pos c.pid)

module _ (c : Client) (h : IsClient c) where
  words-IsInner : All IsInner (words c)
  words-IsInner = decimal-IsInner c.pid c.path h.pid_fits h.inner

  length-words : length (words c) ≡ length (decimal c.pid) + 1 + length c.path
  length-words = omega (arith, length-append (decimal c.pid) (blank ∷ c.path))

  request-words : request c.pid (c.path ++ (newline ∷ c.more)) ≡ words c ++ (newline ∷ [])
  unfolding request
  request-words =
      let line = decimal c.pid ++ (blank ∷ (c.path ++ (newline ∷ []))) in
      let whole : line ≡ words c ++ (newline ∷ []) =
        sym (append_assoc (decimal c.pid) (blank ∷ c.path) (newline ∷ [])) in
      ap (λ l. c_string (decimal c.pid ++ (blank ∷ l)))
        (fgets-inner (maxline - 1) c.path c.more h.inner (omega (arith, h.fits)))
      ∙ ap c_string whole
      ∙ c_string-append (words c) (newline ∷ []) (inner-NoNul (words c) words-IsInner)

  reply-due : (o : Opened) → reply (length (decimal c.pid) + 1 + length c.path) c.path o ≡ due c o
  unfolding reply
  reply-due (file reads) = refl
  reply-due (cannot_open message) =
      let n = length (decimal c.pid) + 1 + length c.path in
      let room : 256 - n ≡ 255 - length (decimal c.pid) - length c.path = omega arith in
      ap (λ l. l ∷ [])
        (ap (λ r. c_string (c.path ++ take r message)) room
          ∙ c_string-append c.path _ (inner-NoNul c.path h.inner))

  answer-words :
      (k : Kernel)
      → answer k (length (decimal c.pid) + 1 + length c.path) (some (decimal c.pid, c.path))
        ≡ served k c
  unfolding answer
  answer-words k =
      let path : c_string c.path ≡ c.path =
        ap c_string (sym (append-nil c.path))
        ∙ c_string-append c.path [] (inner-NoNul c.path h.inner)
        ∙ append-nil c.path in
      rw (atol-decimal c.pid h.pid_fits, path)
        (ap (λ r. if k.open_fifo (pos c.pid) then replied (pos c.pid) r else no_fifo (pos c.pid))
          (reply-due (k.open_path c.path)))

  serve-words : (k : Kernel) → serve k (words c ++ (newline ∷ [])) ≡ served k c
  unfolding serve
  serve-words k =
      ap (λ b. answer k (length b) (strchr_blank b)) (strip_newline-append (words c))
      ∙ ap (answer k (length (words c))) (strchr_blank-decimal c.pid c.path h.pid_fits)
      ∙ ap (λ n. answer k n (some (decimal c.pid, c.path))) length-words
      ∙ answer-words k

main_loop-step :
    (fuel : ℕ) (k : Kernel) (line rest input : List ℕ)
    → 1 ≤ length line
    → readline maxline input ≡ record { stored = line; terminated = true; rest = rest }
    → main_loop (suc fuel) k input ≡ serve k line ∷ main_loop fuel k rest
unfolding main_loop
main_loop-step fuel k [] rest input one h = absurd (omega arith)
main_loop-step fuel k (c ∷ cs) rest input one h =
    let more : (suc (length cs) == 0) ≡ false = ground arith in rw (h, more) refl

-- The requests of some clients, one behind the other.
abbrev pub requests : List Client → List ℕ
requests cs = join (map (λ c. request c.pid (c.path ++ (newline ∷ c.more))) cs)

-- The bytes of a request, and those of the others behind it.
length-requests :
    (c : Client) (cs : List Client)
    → IsClient c
    → length (requests (c ∷ cs)) ≡ length (words c) + 1 + length (requests cs)
length-requests c cs h =
    let asked = request c.pid (c.path ++ (newline ∷ c.more)) in
    omega (
      arith,
      length-append asked (requests cs),
      ap length (request-words c h),
      length-append (words c) (newline ∷ []),
    )

main_loop-requests :
    (fuel : ℕ) (k : Kernel) (cs : List Client)
    → All IsClient cs
    → length (requests cs) ≤ fuel
    → main_loop fuel k (requests cs) ≡ map (served k) cs
main_loop-requests zero k [] h enough = unfold main_loop in refl
main_loop-requests (suc fuel) k [] h enough = unfold main_loop readline_loop in refl
main_loop-requests zero k (c ∷ cs) (h, hs) enough = absurd (omega (arith, length-requests c cs h))
main_loop-requests (suc fuel) k (c ∷ cs) (h, hs) enough =
    let line = words c ++ (newline ∷ []) in
    let len = length-append (words c) (newline ∷ []) in
    ap (λ l. main_loop (suc fuel) k (l ++ requests cs)) (request-words c h)
    ∙ main_loop-step fuel k line (requests cs) (line ++ requests cs) (omega arith) (
        readline-request (words c) (requests cs) (words-IsInner c h)
          (omega (arith, length-words c h, h.fits)))
    ∙ ap₂ (λ a l. a ∷ l) (serve-words c h k)
        (main_loop-requests fuel k cs hs (omega (arith, length-requests c cs h)))

-- Each client gets its own reply through the FIFO with its own number, in the order in which the
-- requests arrive: the bytes of the file of its path name, or the path name with the error behind it, of
-- which so much is sent as fits in 256 bytes with the request; a client whose FIFO cannot be opened gets
-- none. The requests are whole when they reach the FIFO, they fit in the buffers, and no path name has a
-- NUL, a newline or the byte 255.
pub main-requests :
    (k : Kernel) (cs : List Client) → All IsClient cs → main k (requests cs) ≡ map (served k) cs
main-requests k cs h = main_loop-requests (length (requests cs)) k cs h (omega arith)
