-- ===== src/Pipe/Copy.antt =====
-- pipe/mainpipe.c, pipe/mainfifo.c, pipe/client_main.c, pipe/server_main.c: a client sends a path
-- name through one pipe or FIFO, and the server sends the file back through another.
use interprocess_comm.Prelude.{
  ℕ, zero, suc, ◌+◌, ◌-◌, ◌≤◌, ◌≡◌, refl, ap, ap₂, ◌∙◌, sym, List, [], ◌∷◌, ◌++◌, length, take, All,
  length-append, take_within, arith,
}
use native.Mathlib.Nat.{suc-add}
use interprocess_comm.Pipe.{
  maxline, c_string, fgets, strip_newline, overwrite, zeros, join, Opened, cannot_open, file,
  IsRead, length-zeros,
}

-- The path name that `client` writes, of what it is given on its standard input.
abbrev pub request : (stdin : List ℕ) → List ℕ
request stdin = strip_newline (c_string (fgets (maxline - 1) stdin))

-- The loop of `client` over what its calls of `read` give: what it writes to its standard output.
-- The buffer is filled with zeros before it is written.
unfoldable pub client_loop : (buff : List ℕ) → (reads : List (List ℕ)) → List (List ℕ)
client_loop buff [] = []
client_loop buff (bytes ∷ reads) =
    let filled = overwrite bytes buff in
    let cleared = overwrite (zeros maxline) filled in
    take (length bytes) cleared ∷ client_loop cleared reads

-- What `server` writes, when `read` gives it `path` and `open` then gives `opened`: nothing at the end
-- of the input, else the path with the error, cut to the size of the buffer, or the bytes of the file.
unfoldable pub server : (path : List ℕ) → Opened → List (List ℕ)
server [] opened = []
server (c ∷ cs) (cannot_open message) =
    c_string ((c ∷ cs) ++ take (maxline - length (c ∷ cs)) message) ∷ []
server (c ∷ cs) (file reads) = reads

-- The client and the server together: `open` is the kernel's, and so are the pieces in which the
-- reply reaches the client.
abbrev pub session :
    (stdin : List ℕ)
    → (open_path : List ℕ → Opened) → (pieces : List (List ℕ) → List (List ℕ)) → List (List ℕ)
session stdin open_path pieces =
    client_loop (zeros maxline)
      (pieces (server (request stdin) (open_path (c_string (request stdin)))))

take-zeros : (n m : ℕ) → n ≤ m → take n (zeros m) ≡ zeros n
unfolding zeros
take-zeros zero m h = refl
take-zeros (suc n) zero h = absurd (omega arith)
take-zeros (suc n) (suc m) h = ap (λ l. 0 ∷ l) (take-zeros n m (omega arith))

zeros-append : (n m : ℕ) → zeros n ++ zeros m ≡ zeros (n + m)
unfolding zeros
zeros-append zero m = ap zeros (omega arith)
zeros-append (suc n) m = ap (λ l. 0 ∷ l) (zeros-append n m) ∙ sym (ap zeros (suc-add n m))

take-cleared :
    (n : ℕ) (buff : List ℕ) → n ≤ maxline → take n (overwrite (zeros maxline) buff) ≡ zeros n
take-cleared n buff h =
    take_within n (zeros maxline) _ (omega (arith, length-zeros maxline)) ∙ take-zeros n maxline h

-- A path name of at least one byte is answered with the file.
server-file :
    (path : List ℕ) (reads : List (List ℕ)) → 1 ≤ length path → server path (file reads) ≡ reads
unfolding server
server-file [] reads h = absurd (omega arith)
server-file (c ∷ cs) reads h = refl

client_loop-zeros :
    (buff : List ℕ) (reads : List (List ℕ))
    → All (IsRead maxline) reads
    → join (client_loop buff reads) ≡ zeros (length (join reads))
unfolding client_loop zeros
client_loop-zeros buff [] h = refl
client_loop-zeros buff (bytes ∷ reads) (h, hs) =
    let cleared = overwrite (zeros maxline) (overwrite bytes buff) in
    ap₂ (λ a b. a ++ b) (take-cleared (length bytes) (overwrite bytes buff) h.fits)
      (client_loop-zeros cleared reads hs)
    ∙ zeros-append (length bytes) (length (join reads))
    ∙ ap zeros (sym (length-append bytes (join reads)))

-- The client writes as many zero bytes to its standard output as the server has sent, whatever these
-- were: the file of the path name, in whichever pieces it arrives, each of 1 to 256 bytes.
pub session-zeros :
    (stdin : List ℕ) (open_path : List ℕ → Opened) (pieces : List (List ℕ) → List (List ℕ))
    (reads : List (List ℕ))
    → 1 ≤ length (request stdin)
    → open_path (c_string (request stdin)) ≡ file reads
    → join (pieces reads) ≡ join reads
    → All (IsRead maxline) (pieces reads)
    → join (session stdin open_path pieces) ≡ zeros (length (join reads))
session-zeros stdin open_path pieces reads some opened whole fits =
    rw (opened, server-file (request stdin) reads some)
      (client_loop-zeros (zeros maxline) (pieces reads) fits ∙ ap (λ l. zeros (length l)) whole)
