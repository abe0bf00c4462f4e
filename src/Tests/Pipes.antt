-- ===== src/Tests/Pipes.antt =====
-- pipe: messages, lines, requests and files, on a few bytes.
use interprocess_comm.Prelude.{
  ℕ, ◌≤◌, ◌≡◌, refl, ◌∙◌, true, false, List, [], ◌∷◌, ◌++◌, length, All, pos, arith,
}
use interprocess_comm.Pipe.{
  zeros, length-zeros, overwrite, length-overwrite, fgets, join, file, IsRead, maxline,
}
use interprocess_comm.Pipe.Line.{readline, readline_loop, readline-first_line}
use interprocess_comm.Pipe.Copy
use interprocess_comm.Pipe.MesgCopy
use interprocess_comm.Pipe.Copy.{session-zeros}
use interprocess_comm.Pipe.Mesg.{Mymesg, maxmesgdata, mesg_send, mesg_recv, received, IsMesg}
use interprocess_comm.Pipe.Mesg.RoundTrip.{filled, mesg_recv-mesg_send}
use interprocess_comm.Pipe.MesgCopy.{path_name}
use interprocess_comm.Pipe.MesgCopy.Reply.{echoed, IsText, Stopped}
use interprocess_comm.Pipe.MesgCopy.Session.{session-echoed}
use interprocess_comm.Pipe.Requests.{Kernel, replied, reply, digits, main}
use interprocess_comm.Pipe.Requests.Service.{Client, IsClient, requests, main-requests}

-- A line that fits, and one that is cut: of the second the byte 99 is lost.
readline-first_line_example :
    readline 2 (97 ∷ 98 ∷ 99 ∷ 10 ∷ [])
    ≡ record { stored = 97 ∷ 98 ∷ []; terminated = false; rest = 10 ∷ [] }
unfolding readline_loop
readline-first_line_example = readline-first_line 2 (97 ∷ 98 ∷ 99 ∷ 10 ∷ [])

abbrev no_data : List ℕ
no_data = zeros maxmesgdata

abbrev empty_mesg : Mymesg
empty_mesg = record { mesg_len = 0; mesg_type = 0; mesg_data = no_data }

abbrev hi_mesg : Mymesg
hi_mesg = record { mesg_len = 2; mesg_type = 1; mesg_data = overwrite (104 ∷ 105 ∷ []) no_data }

hi_mesg-IsMesg : IsMesg hi_mesg
hi_mesg-IsMesg = record {
  len_fits = omega arith;
  type_fits = omega arith;
  data_size =
      length-overwrite (104 ∷ 105 ∷ []) no_data (omega (arith, length-zeros maxmesgdata))
      ∙ length-zeros maxmesgdata;
}

mesg_recv-mesg_send_example :
    mesg_recv empty_mesg (mesg_send hi_mesg ++ (1 ∷ 2 ∷ []))
    ≡ received 2 (filled hi_mesg empty_mesg) (1 ∷ 2 ∷ [])
mesg_recv-mesg_send_example = mesg_recv-mesg_send hi_mesg empty_mesg (1 ∷ 2 ∷ []) hi_mesg-IsMesg

-- "/f\n"
abbrev name_line : List ℕ
name_line = 47 ∷ 102 ∷ 10 ∷ []

abbrev two_pieces : List (List ℕ)
two_pieces = (97 ∷ 98 ∷ 99 ∷ []) ∷ (120 ∷ []) ∷ []

-- The second piece is followed by what the first has left.
stale_tail : echoed (0 ∷ []) two_pieces ≡ (97 ∷ 98 ∷ 99 ∷ []) ∷ (120 ∷ 98 ∷ 99 ∷ []) ∷ []
stale_tail = refl

two_pieces-IsText : All IsText two_pieces
two_pieces-IsText = (
  record {
    some_bytes = omega arith;
    fits = omega arith;
    no_nul = ((λ e. omega arith), ((λ e. omega arith), ((λ e. omega arith), tt)));
  },
  (record { some_bytes = omega arith; fits = omega arith; no_nul = ((λ e. omega arith), tt) }, tt),
)

name_line-some : 1 ≤ length (path_name name_line)
unfolding fgets
name_line-some = omega arith

no_data-Stopped : Stopped no_data
unfolding zeros
no_data-Stopped = refl

session-echoed_example :
    MesgCopy.session 2 [] name_line (λ p. file two_pieces) empty_mesg empty_mesg
    ≡ echoed (overwrite (path_name name_line ++ (0 ∷ [])) no_data) two_pieces
session-echoed_example =
    session-echoed 2 [] name_line (λ p. file two_pieces) empty_mesg empty_mesg two_pieces
      name_line-some refl (length-zeros maxmesgdata) (length-zeros maxmesgdata) no_data-Stopped
      two_pieces-IsText (omega arith)

two_pieces-IsRead : All (IsRead maxline) two_pieces
two_pieces-IsRead = (
  record { some_bytes = omega arith; fits = omega arith },
  (record { some_bytes = omega arith; fits = omega arith }, tt),
)

copied-some : 1 ≤ length (Copy.request name_line)
unfolding fgets
copied-some = omega arith

session-zeros_example : join (Copy.session name_line (λ p. file two_pieces) (λ ws. ws)) ≡ zeros 4
session-zeros_example =
    session-zeros name_line (λ p. file two_pieces) (λ ws. ws) two_pieces copied-some refl refl
      two_pieces-IsRead

-- The client 7 asks for the file "f".
abbrev client_7 : Client
client_7 = record { pid = 7; path = 102 ∷ []; more = [] }

client_7-IsClient : IsClient client_7
unfolding digits
client_7-IsClient = record {
  pid_fits = omega arith;
  inner = (
    record { no_nul = λ e. omega arith; no_newline = λ e. omega arith; no_eof = λ e. omega arith },
    tt,
  );
  fits = omega arith;
}

abbrev kernel : Kernel
kernel = record { open_fifo = λ pid. true; open_path = λ p. file two_pieces }

main-requests_example : main kernel (requests (client_7 ∷ [])) ≡ replied (pos 7) two_pieces ∷ []
unfolding digits reply
main-requests_example = main-requests kernel (client_7 ∷ []) (client_7-IsClient, tt)
