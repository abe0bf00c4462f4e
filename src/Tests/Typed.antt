-- ===== src/Tests/Typed.antt =====
-- svmsg/svmsgcliserv: the client 7 asks for a file of two lines, with a reply to the client 9 waiting.
use interprocess_comm.Prelude.{ℕ, ◌≡◌, refl, List, [], ◌∷◌, arith}
use interprocess_comm.Pipe.{join, NoNul, newline}
use interprocess_comm.Pipe.Requests.{digits}
use interprocess_comm.Svmsg.{Queue, contents, ended}
use interprocess_comm.Svmsg.Asking.{IsAsking}
use interprocess_comm.Svmsg.OneQueue.{session, session-delivers}

abbrev letter_f : List ℕ
letter_f = 102 ∷ []

abbrev two_lines : List ℕ
two_lines = 97 ∷ 10 ∷ 98 ∷ []

abbrev others : Queue
others = record { mesg_type = 9; text = 120 ∷ [] } ∷ []

letter_f-IsAsking : IsAsking 256 7 letter_f
unfolding digits
letter_f-IsAsking = record {
  number_fits = omega arith;
  inner = (
    record { no_nul = λ e. omega arith; no_newline = λ e. omega arith; no_eof = λ e. omega arith },
    tt,
  );
  fits = omega arith;
}

two_lines-NoNul : NoNul two_lines
two_lines-NoNul = ((λ e. omega arith), ((λ e. omega arith), ((λ e. omega arith), tt)))

session-delivers_example :
    (ts : List (List ℕ)) × (session 4 7 (102 ∷ newline ∷ []) (λ p. contents two_lines) others
      ≡ ended ts others)
    × (join ts ≡ two_lines)
session-delivers_example =
    session-delivers 7 letter_f two_lines (λ p. contents two_lines) others letter_f-IsAsking
      (omega arith) refl 4 [] ((λ e. omega arith), tt) ((λ e. omega arith), tt) two_lines-NoNul
      (omega arith)
