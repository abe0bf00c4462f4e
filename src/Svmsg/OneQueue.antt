-- ===== src/Svmsg/OneQueue.antt =====
-- svmsg/svmsgcliserv: requests of type 1 and replies of the type of the client's number, on one queue.
use interprocess_comm.Prelude.{
  ℕ, zero, suc, ◌≤◌, ◌<◌, ◌≡◌, refl, ap, ◌∙◌, false, if◌then◌else◌, leb, List, [], ◌∷◌, ◌++◌,
  length, Option, none, some, ℤ, pos, arith,
}
use interprocess_comm.Pipe.{c_string, newline, join, NoNul}
use interprocess_comm.Pipe.Requests.{decimal, strchr_blank, atol}
use interprocess_comm.Pipe.Requests.Decimal.{atol-decimal}
use interprocess_comm.Pipe.Requests.Service.{inner-NoNul}
use interprocess_comm.Svmsg.{
  Queue, Received, blocks, too_long, received, mesg_recv, mesg_send, Opened, contents, replies,
  send_all, request, Ran, ended, waiting, client_loop,
}
use interprocess_comm.Svmsg.Asking.{IsAsking, words, length-words, request-words, words-parts}
use interprocess_comm.Svmsg.Replies.{
  Without, mesg_recv-Without, typed, send_all-typed, client_loop-typed, texts, join-texts,
  texts-IsText, length-texts, c_string-id,
}
use mathlib.Core.List.{append-nil}

-- #define MAXMESGDATA 256
abbrev pub maxmesgdata : ℕ
maxmesgdata = 256

-- One round of the server's loop: it waits for a request, or has dealt with one; or it writes a NUL
-- outside `mesg_data`, behind a request that fills it or after an error.
pub data Pass : Type 0 where
  waits out_of_bounds : Pass
  passes : Queue → Pass

-- The replies to the process `pid`; a type below 1 is refused by `msgsnd`.
unfoldable pub send_to : (pid : ℤ) → List (List ℕ) → Queue → Queue
send_to (pos (suc k)) texts q = send_all (suc k) texts q
send_to _ texts q = q

unfoldable pub answer :
    (open_path : List ℕ → Opened) → (n : ℕ) → Option (List ℕ × List ℕ) → Queue → Queue
answer open_path n none q = q
answer open_path n (some (word, path)) q =
    send_to (atol word) (replies maxmesgdata n path (open_path (c_string path))) q

unfoldable pub serve : (open_path : List ℕ → Opened) → Received → Pass
serve open_path blocks = waits
serve open_path too_long = out_of_bounds
serve open_path (received [] rest) = passes rest
serve open_path (received (c ∷ cs) rest) =
    if leb maxmesgdata (length (c ∷ cs))
    then out_of_bounds
    else passes (answer open_path (length (c ∷ cs)) (strchr_blank (c ∷ cs)) rest)

-- `server`, for one round.
abbrev pub server : (open_path : List ℕ → Opened) → Queue → Pass
server open_path q = serve open_path (mesg_recv maxmesgdata 1 q)

-- The client sends its request, the server makes a round, and the client reads the reply.
abbrev pub run_client : (fuel pid : ℕ) → Pass → Ran
run_client fuel pid (passes q) = client_loop fuel maxmesgdata pid q
run_client fuel pid _ = waiting []

abbrev pub session : (fuel pid : ℕ) → (stdin : List ℕ) → (open_path : List ℕ → Opened) → Queue → Ran
session fuel pid stdin open_path q =
    run_client fuel pid (server open_path (mesg_send 1 (request maxmesgdata pid stdin) q))

-- The server takes a request that does not fill its structure apart.
serve-words :
    (open_path : List ℕ → Opened) (words : List ℕ) (rest : Queue)
    → 1 ≤ length words
    → length words < maxmesgdata
    → serve open_path (received words rest)
      ≡ passes (answer open_path (length words) (strchr_blank words) rest)
unfolding serve
serve-words open_path [] rest one fits = absurd (omega arith)
serve-words open_path (c ∷ cs) rest one fits =
    let inside : leb maxmesgdata (length (c ∷ cs)) ≡ false = ground arith in rw inside refl

send_to-some :
    (pid : ℕ) (ts : List (List ℕ)) (q : Queue)
    → 1 ≤ pid
    → send_to (pos pid) ts q ≡ q ++ typed pid ts
unfolding send_to
send_to-some zero ts q h = absurd (omega arith)
send_to-some (suc k) ts q h = send_all-typed (suc k) ts q

module _ (pid : ℕ) (path bytes : List ℕ) (open_path : List ℕ → Opened) (q : Queue)
    (asking : IsAsking maxmesgdata pid path) (some_pid : 1 ≤ pid)
    (opened : open_path path ≡ contents bytes) where
  -- The server answers with the lines of the file, and an empty message.
  answer-contents :
      (n : ℕ)
      → answer open_path n (some (decimal pid, path)) q
        ≡ q ++ typed pid (texts maxmesgdata (length bytes) bytes ++ ([] ∷ []))
  unfolding answer replies
  answer-contents n =
      let string = c_string-id path (inner-NoNul path asking.inner) in
      rw (atol-decimal pid asking.number_fits, string, opened) (send_to-some pid _ q some_pid)

  server-request :
      (more : List ℕ)
      → Without 1 q
      → server open_path (mesg_send 1 (request maxmesgdata pid (path ++ (newline ∷ more))) q)
        ≡ passes (q ++ typed pid (texts maxmesgdata (length bytes) bytes ++ ([] ∷ [])))
  server-request more none_waits =
      let ws = words asking in
      let len = length-words asking in
      ap (λ l. server open_path (mesg_send 1 l q)) (request-words asking more)
      ∙ ap (serve open_path)
          (mesg_recv-Without maxmesgdata 1 ws q [] none_waits (omega (arith, asking.fits)))
      ∙ serve-words open_path ws (q ++ []) (omega arith) (omega (arith, asking.fits))
      ∙ ap (λ l. passes (answer open_path (length ws) (strchr_blank ws) l)) (append-nil q)
      ∙ ap (λ o. passes (answer open_path (length ws) o q)) (words-parts asking)
      ∙ ap passes (answer-contents (length ws))

  -- A client whose path name has no NUL, newline or byte 255 in it, and whose request fits, gets its file
  -- and nothing else: on a queue with any messages to other clients, which stay there in their order, it
  -- writes texts that join to the contents of the file, whatever these are but for NUL bytes, and then
  -- ends. No message on the queue has its number for a type, and no other request waits.
  pub session-delivers :
      (fuel : ℕ) (more : List ℕ)
      → Without 1 q
      → Without pid q
      → NoNul bytes
      → length bytes < fuel
      → (ts : List (List ℕ)) × (session fuel pid (path ++ (newline ∷ more)) open_path q
          ≡ ended ts q)
        × (join ts ≡ bytes)
  session-delivers fuel more none_waits no_reply no_nul enough =
      let ts = texts maxmesgdata (length bytes) bytes in
      (
        ts,
        ap (run_client fuel pid) (server-request more none_waits)
            ∙ client_loop-typed fuel maxmesgdata pid ts q no_reply
                (texts-IsText maxmesgdata (omega arith) (length bytes) bytes no_nul)
                (omega (arith, length-texts maxmesgdata (omega arith) (length bytes) bytes)),
        join-texts maxmesgdata (omega arith) (length bytes) bytes no_nul (omega arith),
      )
