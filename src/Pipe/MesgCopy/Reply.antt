-- ===== src/Pipe/MesgCopy/Reply.antt =====
-- pipe/pipemesg/mainfifo.c: the messages of the reply, and what the client writes of them.
use interprocess_comm.Prelude.{
  Bool-cases, inl, inr, leb, false, ◌+◌, ℕ, zero, suc, ◌≤◌, ◌≡◌, refl, ap, ap₂, ◌∙◌, List, [], ◌∷◌,
  ◌++◌, length, take, drop, has, true, map, All, length-append, take-take_append, arith,
}
use interprocess_comm.Pipe.{
  c_string, overwrite, NoNul, maxline, c_string-has, drop-overwrite, c_string-append,
  c_string-IsPrefix, length-overwrite, take-IsPrefix, length-IsPrefix,
}
use mathlib.Core.List.{append_assoc}
use interprocess_comm.Pipe.Mesg.{Mymesg, maxmesgdata, mesg_recv, IsMesg, received}
use interprocess_comm.Pipe.Mesg.RoundTrip.{mesg_recv-mesg_send, filled}
use interprocess_comm.Pipe.MesgCopy.{
  client_loop, client_received, stream, file_mesgs, piece_mesg, measured,
}

-- The data of a message, which its receiver takes.
abbrev pub text : Mymesg → List ℕ
text m = take m.mesg_len m.mesg_data

-- A message that `client` can tell from the end of the reply.
abbrev pub Telling : Mymesg → Type 0
Telling m = IsMesg m × (1 ≤ m.mesg_len)

client_received-some :
    (again : Mymesg → List ℕ → List (List ℕ)) (n : ℕ) (m : Mymesg) (rest : List ℕ)
    → 1 ≤ n
    → client_received again (received n m rest) ≡ take n m.mesg_data ∷ again m rest
unfolding client_received
client_received-some again zero m rest h = absurd (omega arith)
client_received-some again (suc k) m rest h = refl

-- The client writes the data of the messages, one by one.
pub client_loop-stream :
    (fuel : ℕ) (ms : List Mymesg) (old : Mymesg)
    → All Telling ms
    → length ms ≤ fuel
    → client_loop fuel old (stream ms) ≡ map text ms
unfolding client_loop
client_loop-stream zero [] old h hf = refl
client_loop-stream (suc fuel) [] old h hf = unfold mesg_recv client_received in refl
client_loop-stream zero (m ∷ ms) old h hf = absurd (omega arith)
client_loop-stream (suc fuel) (m ∷ ms) old ((good, some), hs) hf =
    ap (client_received (client_loop fuel)) (mesg_recv-mesg_send m old (stream ms) good)
    ∙ client_received-some (client_loop fuel) m.mesg_len (filled m old) (stream ms) some
    ∙ ap₂ (λ a l. a ∷ l)
        (take-take_append m.mesg_len m.mesg_data _ (omega (arith, good.len_fits, good.data_size)))
        (client_loop-stream fuel ms (filled m old) hs (omega arith))

-- What the messages of the file say: each of the bytes that a call of `read` gave, and behind them
-- whatever string the buffer `old` held there before.
abbrev pub echoed : (old : List ℕ) → (reads : List (List ℕ)) → List (List ℕ)
echoed old [] = []
echoed old (bytes ∷ reads) =
    (bytes ++ c_string (drop (length bytes) old)) ∷ echoed (overwrite bytes old) reads

-- A NUL stands in the buffer behind what a call of `read` can set, which is asked for MAXLINE = 256
-- bytes.
abbrev pub Stopped : List ℕ → Type 0
Stopped buff = has 0 (drop maxline buff) ≡ true

has-drop : (n : ℕ) (xs : List ℕ) → has 0 (drop n xs) ≡ true → has 0 xs ≡ true
has-drop zero xs h = h
has-drop (suc n) [] h = h
has-drop (suc n) (x ∷ xs) h = ground (arith, has-drop n xs h)

Stopped-overwrite :
    (bytes buff : List ℕ) → length bytes ≤ maxline → Stopped buff → Stopped (overwrite bytes buff)
Stopped-overwrite bytes buff fit h = ap (has 0) (drop-overwrite maxline bytes buff fit) ∙ h

-- A NUL behind a path name is one that counts.
nul_behind : (n : ℕ) (xs ys : List ℕ) → n ≤ length xs → has 0 (drop n (xs ++ (0 ∷ ys))) ≡ true
nul_behind zero [] ys h = refl
nul_behind zero (x ∷ xs) ys h = ground (arith, nul_behind zero xs ys (omega arith))
nul_behind (suc n) [] ys h = absurd (omega arith)
nul_behind (suc n) (x ∷ xs) ys h = nul_behind n xs ys (omega arith)

above : (n k : ℕ) → leb n k ≡ true → n ≤ k
above n k h = ground arith

below : (n k : ℕ) → leb n k ≡ false → k + 1 ≤ n
below n k h = ground arith

pub Stopped-named :
    (path buff : List ℕ) → Stopped buff → Stopped (overwrite (path ++ (0 ∷ [])) buff)
Stopped-named path buff h = elim (Bool-cases (leb maxline (length path))) [
  | inl long ↦
      ap (λ l. has 0 (drop maxline l)) (append_assoc path (0 ∷ []) _)
      ∙ nul_behind maxline path _ (above maxline (length path) long)
  | inr short ↦
      let fits : length path + 1 ≤ maxline = below maxline (length path) short in
      Stopped-overwrite (path ++ (0 ∷ [])) buff (omega (arith, length-append path (0 ∷ []))) h
]

-- A piece of a text file.
pub record IsText (bytes : List ℕ) : Type 0 where
  pub some_bytes : 1 ≤ length bytes
  pub fits : length bytes ≤ maxline
  pub no_nul : NoNul bytes

text-measured :
    (beyond : List ℕ) (m : Mymesg)
    → has 0 m.mesg_data ≡ true
    → text (measured beyond m) ≡ c_string m.mesg_data
text-measured beyond m nul =
    ap (λ s. take (length s) m.mesg_data) (c_string-has m.mesg_data beyond nul)
    ∙ take-IsPrefix _ _ (c_string-IsPrefix m.mesg_data)

-- The messages of a text file.
module _ (beyond : List ℕ) (m : Mymesg) (bytes : List ℕ) (good : IsMesg m) (fit : IsText bytes)
    (stop : Stopped m.mesg_data) where
  nul-next : has 0 (overwrite bytes m.mesg_data) ≡ true
  nul-next =
      has-drop maxline (overwrite bytes m.mesg_data)
        (Stopped-overwrite bytes m.mesg_data fit.fits stop)

  text-next : text (piece_mesg beyond m bytes) ≡ bytes ++ c_string (drop (length bytes) m.mesg_data)
  text-next =
      text-measured beyond (record m { mesg_data = overwrite bytes m.mesg_data }) nul-next
      ∙ c_string-append bytes (drop (length bytes) m.mesg_data) fit.no_nul

  size-next : length ((piece_mesg beyond m bytes).mesg_data) ≡ maxmesgdata
  size-next =
      length-overwrite bytes m.mesg_data (omega (arith, fit.fits, good.data_size)) ∙ good.data_size

  next-Telling : Telling (piece_mesg beyond m bytes)
  next-Telling =
      let data' = overwrite bytes m.mesg_data in
      let size : length data' ≡ maxmesgdata = size-next in
      let len = length-IsPrefix (c_string data') data' (c_string-IsPrefix data') in
      let string = c_string-append bytes (drop (length bytes) m.mesg_data) fit.no_nul in
      let same = c_string-has data' beyond nul-next in
      let parts = length-append bytes (c_string (drop (length bytes) m.mesg_data)) in
      (
        record {
          len_fits = omega (arith, ap length same);
          type_fits = good.type_fits;
          data_size = size;
        },
        omega (arith, ap length same, ap length string, parts, fit.some_bytes),
      )

pub file_mesgs-Telling :
    (beyond : List ℕ) (m : Mymesg) (reads : List (List ℕ))
    → IsMesg m
    → Stopped m.mesg_data
    → All IsText reads
    → All Telling (file_mesgs beyond m reads)
unfolding file_mesgs
file_mesgs-Telling beyond m [] good stop h = tt
file_mesgs-Telling beyond m (bytes ∷ reads) good stop (fit, h) =
    let telling = next-Telling beyond m bytes good fit stop in
    (
      telling,
      file_mesgs-Telling beyond (piece_mesg beyond m bytes) reads telling.0
          (Stopped-overwrite bytes m.mesg_data fit.fits stop) h,
    )

pub file_mesgs-echoed :
    (beyond : List ℕ) (m : Mymesg) (reads : List (List ℕ))
    → IsMesg m
    → Stopped m.mesg_data
    → All IsText reads
    → map text (file_mesgs beyond m reads) ≡ echoed m.mesg_data reads
unfolding file_mesgs
file_mesgs-echoed beyond m [] good stop h = refl
file_mesgs-echoed beyond m (bytes ∷ reads) good stop (fit, h) =
    let telling = next-Telling beyond m bytes good fit stop in
    ap₂ (λ a l. a ∷ l) (text-next beyond m bytes good fit stop)
      (file_mesgs-echoed beyond (piece_mesg beyond m bytes) reads telling.0
        (Stopped-overwrite bytes m.mesg_data fit.fits stop) h)

pub length-file_mesgs :
    (beyond : List ℕ) (m : Mymesg) (reads : List (List ℕ))
    → length (file_mesgs beyond m reads) ≡ length reads
unfolding file_mesgs
length-file_mesgs beyond m [] = refl
length-file_mesgs beyond m (bytes ∷ reads) =
    ap suc (length-file_mesgs beyond (piece_mesg beyond m bytes) reads)
