-- ===== src/Pipe/MesgCopy.antt =====
-- pipe/pipemesg/mainfifo.c: a path name and a file, sent in messages through two FIFOs.
pub mod Reply
pub mod Session
use interprocess_comm.Prelude.{
  ℕ, zero, suc, ◌+◌, ◌-◌, ◌≤◌, ◌≡◌, List, [], ◌∷◌, ◌++◌, length, take, map, if◌then◌else◌, ◌==◌,
}
use interprocess_comm.Pipe.{
  c_string, fgets, strip_newline, overwrite, join, Opened, cannot_open, file,
}
use interprocess_comm.Pipe.Mesg.{
  Mymesg, maxmesgdata, mesg_send, mesg_recv, Received, end_of_file, bad_header, bad_data, overrun,
  received,
}

-- The path name, less its newline.
abbrev pub path_name : (stdin : List ℕ) → List ℕ
path_name stdin = strip_newline (c_string (fgets (maxmesgdata - 1) stdin))

-- The message that `client` sends: `mesg_data` still has the newline.
unfoldable pub request : (stdin : List ℕ) → Mymesg → Mymesg
request stdin mesg = record mesg {
  mesg_len = length (path_name stdin);
  mesg_type = 1;
  mesg_data = overwrite (fgets (maxmesgdata - 1) stdin ++ (0 ∷ [])) mesg.mesg_data;
}

-- mesg.mesg_len = strlen(mesg.mesg_data). The string ends at the first NUL; if `mesg_data` has none, in
-- the memory `beyond` the structure.
abbrev pub measured : (beyond : List ℕ) → Mymesg → Mymesg
measured beyond m = record m { mesg_len = length (c_string (m.mesg_data ++ beyond)) }

-- The message that `server` sends for a file that cannot be opened: the `n` bytes of the path, and
-- behind them the error, in what is left of `mesg_data`.
unfoldable pub error_mesg : (beyond : List ℕ) (n : ℕ) → (message : List ℕ) → Mymesg → Mymesg
error_mesg beyond n message m =
    let text = take n m.mesg_data ++ take (maxmesgdata - n - 1) message in
    measured beyond (record m { mesg_data = overwrite (text ++ (0 ∷ [])) m.mesg_data })

-- The message for the bytes that a call of `read` has put in `mesg_data`.
abbrev pub piece_mesg : (beyond : List ℕ) → Mymesg → (bytes : List ℕ) → Mymesg
piece_mesg beyond m bytes = measured beyond (record m { mesg_data = overwrite bytes m.mesg_data })

-- The messages that `server` sends for what its calls of `read` give.
unfoldable pub file_mesgs : (beyond : List ℕ) → Mymesg → (reads : List (List ℕ)) → List Mymesg
file_mesgs beyond m [] = []
file_mesgs beyond m (bytes ∷ reads) =
    let sent = piece_mesg beyond m bytes in sent ∷ file_mesgs beyond sent reads

-- mesg.mesg_data[n]='\0'
abbrev pub ended : (n : ℕ) → Mymesg → Mymesg
ended n m = record m { mesg_data = overwrite (take n m.mesg_data ++ (0 ∷ [])) m.mesg_data }

-- What `server` sends when it has opened the file, or has failed to.
unfoldable pub serve : (beyond : List ℕ) (n : ℕ) → Mymesg → Opened → List Mymesg
serve beyond n m (cannot_open message) = error_mesg beyond n message m ∷ []
serve beyond n m (file reads) = file_mesgs beyond m reads

-- A path name of no bytes is one that is missing.
unfoldable pub answer : (beyond : List ℕ) → (open_path : List ℕ → Opened) → Received → List Mymesg
answer beyond open_path (received zero m rest) = []
answer beyond open_path (received (suc k) m rest) =
    let named = ended (suc k) m in serve beyond (suc k) named (open_path (c_string named.mesg_data))
answer beyond open_path _ = []

-- `server`, with its uninitialised structure `mesg`.
abbrev pub server :
    (beyond : List ℕ) → (open_path : List ℕ → Opened) → Mymesg → (input : List ℕ) → List Mymesg
server beyond open_path mesg input =
    answer beyond open_path (mesg_recv (record mesg { mesg_type = 1 }) input)

-- What `client` does with what `mesg_recv` has done: it writes the data, and goes on, unless there are
-- none or the process has ended.
unfoldable pub client_received :
    (again : Mymesg → List ℕ → List (List ℕ)) → Received → List (List ℕ)
client_received again (received zero m rest) = []
client_received again (received (suc k) m rest) = take (suc k) m.mesg_data ∷ again m rest
client_received again _ = []

-- The loop of `client` on `fuel`, one message at a time, with what it writes to its standard output.
unfoldable pub client_loop : (fuel : ℕ) → Mymesg → (input : List ℕ) → List (List ℕ)
client_loop zero m input = []
client_loop (suc fuel) m input = client_received (client_loop fuel) (mesg_recv m input)

abbrev pub stream : List Mymesg → List ℕ
stream ms = join (map mesg_send ms)

-- The client and the server together.
unfoldable pub session :
    (fuel : ℕ) (beyond : List ℕ)
    → (stdin : List ℕ) → (open_path : List ℕ → Opened) → (cm sm : Mymesg) → List (List ℕ)
session fuel beyond stdin open_path cm sm =
    let sent = request stdin cm in
    client_loop fuel sent (stream (server beyond open_path sm (mesg_send sent)))
