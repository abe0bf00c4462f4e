-- ===== src/Pipe/MesgCopy/Session.antt =====
-- pipe/pipemesg/mainfifo.c: what the client writes of what the server has sent.
use interprocess_comm.Prelude.{
  ℕ, zero, suc, ◌-◌, ◌≤◌, ◌≡◌, refl, ap, ◌∙◌, sym, List, [], ◌∷◌, ◌++◌, length, take, drop, All,
  length-append, take-append, drop-append, drop-drop, arith,
}
use interprocess_comm.Pipe.{
  c_string, overwrite, fgets, Opened, file, NoNul, c_string-append, c_string-NoNul,
  c_string-IsPrefix, strip_newline-IsPrefix, strip_newline-NoNul, length-overwrite, length-IsPrefix,
  length-fgets,
}
use interprocess_comm.Pipe.Mesg.{Mymesg, maxmesgdata, mesg_send, mesg_recv, IsMesg, received}
use interprocess_comm.Pipe.Mesg.RoundTrip.{mesg_recv-mesg_send}
use interprocess_comm.Pipe.MesgCopy.{
  file_mesgs, server, answer, serve, ended, request, path_name, session,
}
use mathlib.Core.List.{append-nil, append_assoc, IsPrefix}
use interprocess_comm.Pipe.MesgCopy.Reply.{
  text, IsText, Stopped, Stopped-named, echoed, client_loop-stream, file_mesgs-Telling,
  file_mesgs-echoed, length-file_mesgs,
}

-- What the path name leaves in a buffer: it and a NUL, over what `mesg_recv` has written there.
named-twice :
    (path buff : List ℕ)
    → overwrite (path ++ (0 ∷ [])) (overwrite path buff) ≡ overwrite (path ++ (0 ∷ [])) buff
named-twice path buff =
    let one = length-append path (0 ∷ []) in
    let past : (xs : List ℕ)
        → drop (length (path ++ (0 ∷ []))) xs ≡ drop 1 (drop (length path) xs) =
      λ xs. ap (λ n. drop n xs) one ∙ sym (drop-drop (length path) 1 xs) in
    ap (λ l. (path ++ (0 ∷ [])) ++ l)
      (past (overwrite path buff)
        ∙ ap (drop 1) (drop-append (length path) path (drop (length path) buff) refl)
        ∙ sym (past buff))

-- A path name that stands at the front of a line.
module _ (path line : List ℕ) (cm : Mymesg) (front : IsPrefix path line) where
  abbrev asking : Mymesg
  asking = record cm {
    mesg_len = length path;
    mesg_type = 1;
    mesg_data = overwrite (line ++ (0 ∷ [])) cm.mesg_data;
  }

  text-asking : text asking ≡ path
  text-asking =
      let rest = drop (length (line ++ (0 ∷ []))) cm.mesg_data in
      let (s, p) = front in
      ap (take (length path)) (
        append_assoc line (0 ∷ []) rest
        ∙ ap (λ l. l ++ ((0 ∷ []) ++ rest)) (sym p)
        ∙ append_assoc path s ((0 ∷ []) ++ rest))
      ∙ take-append (length path) path (s ++ ((0 ∷ []) ++ rest)) refl

  asking-IsMesg : length line ≤ 1007 → length cm.mesg_data ≡ maxmesgdata → IsMesg asking
  asking-IsMesg fits size =
      let whole = length-append line (0 ∷ []) in
      let short = length-IsPrefix path line front in
      record {
        len_fits = omega arith;
        type_fits = omega arith;
        data_size = length-overwrite (line ++ (0 ∷ [])) cm.mesg_data (omega arith) ∙ size;
      }

path_name-IsPrefix : (stdin : List ℕ) → IsPrefix (path_name stdin) (fgets (maxmesgdata - 1) stdin)
path_name-IsPrefix stdin =
    let (s, p) = strip_newline-IsPrefix (c_string (fgets (maxmesgdata - 1) stdin)) in
    let (t, q) = c_string-IsPrefix (fgets (maxmesgdata - 1) stdin) in
    (s ++ t, sym (append_assoc (path_name stdin) s t) ∙ ap (λ l. l ++ t) p ∙ q)

path_name-NoNul : (stdin : List ℕ) → NoNul (path_name stdin)
path_name-NoNul stdin =
    strip_newline-NoNul (c_string (fgets (maxmesgdata - 1) stdin))
      (c_string-NoNul (fgets (maxmesgdata - 1) stdin))

answer-some :
    (beyond : List ℕ) (open_path : List ℕ → Opened) (n : ℕ) (m : Mymesg) (rest : List ℕ)
    → 1 ≤ n
    → answer beyond open_path (received n m rest)
      ≡ serve beyond n (ended n m) (open_path (c_string ((ended n m).mesg_data)))
unfolding answer
answer-some beyond open_path zero m rest h = absurd (omega arith)
answer-some beyond open_path (suc k) m rest h = refl

-- The structure in which the server has the path name as a string.
abbrev pub named : (path : List ℕ) → Mymesg → Mymesg
named path m = record m { mesg_data = overwrite (path ++ (0 ∷ [])) m.mesg_data }

ended-named :
    (path : List ℕ) (m : Mymesg)
    → ended (length path) (record m { mesg_data = overwrite path m.mesg_data }) ≡ named path m
ended-named path m =
    let name = take-append (length path) path (drop (length path) m.mesg_data) refl in
    ap (λ d. record m { mesg_data = d })
      (ap (λ l. overwrite (l ++ (0 ∷ [])) (overwrite path m.mesg_data)) name
        ∙ named-twice path m.mesg_data)

c_string-named :
    (path : List ℕ) (m : Mymesg) → NoNul path → c_string ((named path m).mesg_data) ≡ path
c_string-named path m nonul =
    let rest = drop (length (path ++ (0 ∷ []))) m.mesg_data in
    ap c_string (append_assoc path (0 ∷ []) rest)
    ∙ c_string-append path (0 ∷ rest) nonul
    ∙ append-nil path

-- The server finds the path name in the request, and sends the messages of the file.
answer-file :
    (beyond path : List ℕ) (open_path : List ℕ → Opened) (m : Mymesg) (reads : List (List ℕ))
    → 1 ≤ length path
    → NoNul path
    → open_path path ≡ file reads
    → answer beyond open_path
        (received (length path) (record m { mesg_data = overwrite path m.mesg_data }) [])
      ≡ file_mesgs beyond (named path m) reads
answer-file beyond path open_path m reads some nonul opened =
    answer-some beyond open_path (length path) (record m { mesg_data = overwrite path m.mesg_data })
      [] some
    ∙ ap (λ e. serve beyond (length path) e (open_path (c_string e.mesg_data))) (ended-named path m)
    ∙ ap (λ p. serve beyond (length path) (named path m) (open_path p))
        (c_string-named path m nonul)
    ∙ ap (serve beyond (length path) (named path m)) opened
    ∙ (unfold serve in refl)

-- The server's structure once it has the path name, before what `mesg_recv` has put there.
abbrev receiving : (stdin : List ℕ) → Mymesg → Mymesg
receiving stdin sm = record {
  mesg_len = length (path_name stdin);
  mesg_type = 1;
  mesg_data = sm.mesg_data;
}

server-request :
    (beyond stdin : List ℕ) (open_path : List ℕ → Opened) (cm sm : Mymesg) (reads : List (List ℕ))
    → 1 ≤ length (path_name stdin)
    → open_path (path_name stdin) ≡ file reads
    → length cm.mesg_data ≡ maxmesgdata
    → server beyond open_path sm (mesg_send (request stdin cm))
      ≡ file_mesgs beyond (named (path_name stdin) (receiving stdin sm)) reads
unfolding request
server-request beyond stdin open_path cm sm reads some opened size =
    let path = path_name stdin in
    let line = fgets (maxmesgdata - 1) stdin in
    let front = path_name-IsPrefix stdin in
    let sent = asking path line cm front in
    let good = asking-IsMesg path line cm front (length-fgets (maxmesgdata - 1) stdin) size in
    let old = record sm { mesg_type = 1 } in
    ap (λ l. answer beyond open_path (mesg_recv old l)) (sym (append-nil (mesg_send sent)))
    ∙ ap (answer beyond open_path) (mesg_recv-mesg_send sent old [] good)
    ∙ ap
        (λ d.
          answer beyond open_path
            (received (length path) (record sent { mesg_data = overwrite d sm.mesg_data }) []))
        (text-asking path line cm front)
    ∙ answer-file beyond path open_path (receiving stdin sm) reads some (path_name-NoNul stdin)
        opened

-- Of a text file, in pieces of 1 to 256 bytes with no NUL among them, the client writes the pieces, one
-- by one; but behind each of them it writes what string the buffer of the server held there: the rest of
-- an earlier piece, of the path name, or of what was in the uninitialised `mesg_data`. That had a NUL
-- behind its first 256 bytes.
pub session-echoed :
    (fuel : ℕ) (beyond stdin : List ℕ) (open_path : List ℕ → Opened) (cm sm : Mymesg)
    (reads : List (List ℕ))
    → 1 ≤ length (path_name stdin)
    → open_path (path_name stdin) ≡ file reads
    → length cm.mesg_data ≡ maxmesgdata
    → length sm.mesg_data ≡ maxmesgdata
    → Stopped sm.mesg_data
    → All IsText reads
    → length reads ≤ fuel
    → session fuel beyond stdin open_path cm sm
      ≡ echoed (overwrite (path_name stdin ++ (0 ∷ [])) sm.mesg_data) reads
unfolding session
session-echoed fuel beyond stdin open_path cm sm reads some opened csize ssize stop texts enough =
    let m = named (path_name stdin) (receiving stdin sm) in
    let stop' = Stopped-named (path_name stdin) sm.mesg_data stop in
    let fits = length-IsPrefix _ _ (path_name-IsPrefix stdin) in
    let line = length-fgets (maxmesgdata - 1) stdin in
    let parts = length-append (path_name stdin) (0 ∷ []) in
    let good : IsMesg m = record {
      len_fits = omega arith;
      type_fits = omega arith;
      data_size = length-overwrite _ sm.mesg_data (omega arith) ∙ ssize;
    } in
    rw (server-request beyond stdin open_path cm sm reads some opened csize) (
      client_loop-stream fuel (file_mesgs beyond m reads) (request stdin cm)
        (file_mesgs-Telling beyond m reads good stop' texts)
        (omega (arith, length-file_mesgs beyond m reads))
      ∙ file_mesgs-echoed beyond m reads good stop' texts)
