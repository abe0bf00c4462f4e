-- ===== src/Svmsg.antt =====
-- svmsg/svmsgcliserv: a server sends files to its clients in messages, on
-- System V queues.
pub mod Replies
pub mod Asking
pub mod OneQueue
use interprocess_comm.Prelude.{
  ℕ, zero, suc, ◌+◌, ◌-◌, ◌≤◌, ◌≡◌, Bool, true, false, if◌then◌else◌, ltb, ◌==◌, List, [], ◌∷◌,
  ◌++◌, length, take, drop, map, Option, none, some, ℤ, pos, negsuc,
}
use interprocess_comm.Pipe.{c_string, fgets, strip_newline}
use interprocess_comm.Pipe.Requests.{blank, decimal, strchr_blank, atol}

pub record Message : Type 0 where
  pub mesg_type : ℕ
  pub text : List ℕ

-- A queue, with the message that was sent first in front.
abbrev pub Queue : Type 0
Queue = List Message

-- What `msgrcv` does: it waits, fails at a message that is too long, or takes the message.
pub data Received : Type 0 where
  blocks too_long : Received
  received : (text : List ℕ) → (rest : Queue) → Received

-- The message `m` stays in front of what is left.
abbrev pub behind : Message → Received → Received
behind m (received text rest) = received text (m ∷ rest)
behind m blocks = blocks
behind m too_long = too_long

-- mesg_recv: the first message of the type, if it has at most `room` bytes.
unfoldable pub mesg_recv : (room mesg_type : ℕ) → Queue → Received
mesg_recv room mesg_type [] = blocks
mesg_recv room mesg_type (m ∷ q) =
    let later = behind m (mesg_recv room mesg_type q) in
    if m.mesg_type == mesg_type
    then (if ltb room (length m.text) then too_long else received m.text q)
    else later

-- mesg_send
abbrev pub mesg_send : (mesg_type : ℕ) → (text : List ℕ) → Queue → Queue
mesg_send mesg_type text q = q ++ (record { mesg_type = mesg_type; text = text } ∷ [])

-- `fopen`: the error, or what the file holds.
pub data Opened : Type 0 where
  cannot_open : (message : List ℕ) → Opened
  contents : List ℕ → Opened

-- The lines that `fgets` gives until the end of the file, each of fewer than `room` bytes.
unfoldable pub file_lines : (fuel room : ℕ) → List ℕ → List (List ℕ)
file_lines zero room bytes = []
file_lines (suc fuel) room [] = []
file_lines (suc fuel) room (c ∷ cs) =
    let line = fgets (room - 1) (c ∷ cs) in
    line ∷ file_lines fuel room (drop (length line) (c ∷ cs))

-- What the server sends for a request of `n` bytes: the path with the error, in what is left of
-- `mesg_data`, or the lines of the file, each up to its first NUL; and an empty message at the end.
unfoldable pub replies : (room n : ℕ) → (path : List ℕ) → Opened → List (List ℕ)
replies room n path (cannot_open message) = c_string (path ++ take (room - n - 1) message) ∷ [] ∷ []
replies room n path (contents bytes) =
    map c_string (file_lines (length bytes) room bytes) ++ ([] ∷ [])

unfoldable pub send_all : (mesg_type : ℕ) → List (List ℕ) → Queue → Queue
send_all mesg_type [] q = q
send_all mesg_type (text ∷ texts) q = send_all mesg_type texts (mesg_send mesg_type text q)

-- The text of the client's request: its number, a blank and the path name, less the newline.
unfoldable pub request : (room number : ℕ) → (stdin : List ℕ) → List ℕ
request room number stdin =
    let start = decimal number ++ (blank ∷ []) in
    strip_newline (c_string (start ++ fgets (room - length start - 1) stdin))

-- What the client does with what it is sent: the texts that it writes, and the queue it leaves. It
-- ends at an empty message or an error, or waits.
pub data Ran : Type 0 where
  ended : (texts : List (List ℕ)) → Queue → Ran
  waiting : (texts : List (List ℕ)) → Ran
  out_of_fuel : Ran

abbrev pub wrote : List ℕ → Ran → Ran
wrote text (ended texts q) = ended (text ∷ texts) q
wrote text (waiting texts) = waiting (text ∷ texts)
wrote text out_of_fuel = out_of_fuel

unfoldable pub client_received : (again : Queue → Ran) → (q : Queue) → Received → Ran
client_received again q blocks = waiting []
client_received again q too_long = ended [] q
client_received again q (received [] rest) = ended [] rest
client_received again q (received (c ∷ cs) rest) = wrote (c ∷ cs) (again rest)

-- The loop of the client.
unfoldable pub client_loop : (fuel room mesg_type : ℕ) → Queue → Ran
client_loop zero room mesg_type q = out_of_fuel
client_loop (suc fuel) room mesg_type q =
    client_received (client_loop fuel room mesg_type) q (mesg_recv room mesg_type q)
