-- ===== src/Svmsg/Replies.antt =====
-- svmsg/svmsgcliserv: what a client receives of what a server has sent it.
use interprocess_comm.Prelude.{
  ℕ, zero, suc, ◌-◌, ◌≤◌, ◌<◌, ◌≡◌, ◌≢◌, refl, sym, subst, ap, ap₂, ◌∙◌, false, Bool-cases, inl,
  inr, ◌==◌, List, [], ◌∷◌, ◌++◌, length, length-append, drop, map, All, arith,
}
use interprocess_comm.Pipe.{c_string, fgets, join, newline, NoNul, c_string-append, length-fgets}
use interprocess_comm.Svmsg.{
  Queue, received, behind, mesg_recv, mesg_send, file_lines, send_all, Ran, ended, wrote,
  client_received, client_loop,
}
use mathlib.Core.List.{append_assoc, append-nil}

-- No message of the queue has the type.
abbrev pub Without : (mesg_type : ℕ) → Queue → Type 0
Without mesg_type q = All (λ m. m.mesg_type ≢ mesg_type) q

-- The first message of its type is received, and the others stay.
pub mesg_recv-Without :
    (room t : ℕ) (text : List ℕ) (q rest : Queue)
    → Without t q
    → length text ≤ room
    → mesg_recv room t (q ++ (record { mesg_type = t; text = text } ∷ rest))
      ≡ received text (q ++ rest)
unfolding mesg_recv
mesg_recv-Without room t text [] rest h fits = ground arith
mesg_recv-Without room t text (m ∷ q) rest (h, hs) fits =
    let other : (m.mesg_type == t) ≡ false = ground arith in
    rw other (ap (behind m) (mesg_recv-Without room t text q rest hs fits))

abbrev pub typed : (mesg_type : ℕ) → List (List ℕ) → Queue
typed t [] = []
typed t (text ∷ texts) = record { mesg_type = t; text = text } ∷ typed t texts

pub send_all-typed :
    (t : ℕ) (texts : List (List ℕ)) (q : Queue) → send_all t texts q ≡ q ++ typed t texts
unfolding send_all
send_all-typed t [] q = sym (append-nil q)
send_all-typed t (text ∷ texts) q =
    send_all-typed t texts (mesg_send t text q)
    ∙ append_assoc q (record { mesg_type = t; text = text } ∷ []) (typed t texts)

-- A text that does not end the reply.
pub record IsText (room : ℕ) (text : List ℕ) : Type 0 where
  pub some_bytes : 1 ≤ length text
  pub fits : length text ≤ room

client_received-some :
    (again : Queue → Ran) (q rest : Queue) (text : List ℕ)
    → 1 ≤ length text
    → client_received again q (received text rest) ≡ wrote text (again rest)
unfolding client_received
client_received-some again q rest [] h = absurd (omega arith)
client_received-some again q rest (c ∷ cs) h = refl

-- The client writes the texts of its own type up to the empty one, and leaves the other messages.
pub client_loop-typed :
    (fuel room t : ℕ) (texts : List (List ℕ)) (q : Queue)
    → Without t q
    → All (IsText room) texts
    → length texts < fuel
    → client_loop fuel room t (q ++ typed t (texts ++ ([] ∷ []))) ≡ ended texts q
unfolding client_loop
client_loop-typed zero room t texts q h fit enough = absurd (omega arith)
client_loop-typed (suc fuel) room t [] q h fit enough =
    ap (client_received (client_loop fuel room t) _)
      (mesg_recv-Without room t [] q [] h (omega arith))
    ∙ (unfold client_received in ap (ended []) (append-nil q))
client_loop-typed (suc fuel) room t (text ∷ texts) q h (fit, fits) enough =
    let rest = q ++ typed t (texts ++ ([] ∷ [])) in
    ap (client_received (client_loop fuel room t) _)
      (mesg_recv-Without room t text q (typed t (texts ++ ([] ∷ []))) h fit.fits)
    ∙ client_received-some (client_loop fuel room t) _ rest text fit.some_bytes
    ∙ ap (wrote text) (client_loop-typed fuel room t texts q h fits (omega arith))

fgets-drop : (room : ℕ) (xs : List ℕ) → fgets room xs ++ drop (length (fgets room xs)) xs ≡ xs
unfolding fgets
fgets-drop zero xs = refl
fgets-drop (suc room) [] = refl
fgets-drop (suc room) (c ∷ cs) = elim (Bool-cases (c == newline)) [
  | inl last ↦ rw last refl
  | inr other ↦ rw other (ap (λ l. c ∷ l) (fgets-drop room cs))
]

fgets-some : (room c : ℕ) (cs : List ℕ) → 1 ≤ room → 1 ≤ length (fgets room (c ∷ cs))
unfolding fgets
fgets-some zero c cs h = absurd (omega arith)
fgets-some (suc room) c cs h = elim (Bool-cases (c == newline)) [
  | inl last ↦ rw last (omega arith)
  | inr other ↦ rw other (omega arith)
]

NoNul-parts : (xs ys : List ℕ) → NoNul (xs ++ ys) → NoNul xs × NoNul ys
NoNul-parts [] ys h = (tt, h)
NoNul-parts (x ∷ xs) ys (h, hs) = let (a, b) = NoNul-parts xs ys hs in ((h, a), b)

pub c_string-id : (xs : List ℕ) → NoNul xs → c_string xs ≡ xs
c_string-id xs h = ap c_string (sym (append-nil xs)) ∙ c_string-append xs [] h ∙ append-nil xs

-- The first line of a file without NUL, and the rest.
module _ (room c : ℕ) (cs : List ℕ) (h : NoNul (c ∷ cs)) where
  abbrev line : List ℕ
  line = fgets room (c ∷ cs)

  abbrev after : List ℕ
  after = drop (length line) (c ∷ cs)

  both-NoNul : NoNul line × NoNul after
  both-NoNul = NoNul-parts line after (subst NoNul (sym (fgets-drop room (c ∷ cs))) h)

  length-after : 1 ≤ room → length after < length (c ∷ cs)
  length-after some =
      let whole = ap length (fgets-drop room (c ∷ cs)) in
      omega (arith, length-append line after, fgets-some room c cs some)

-- The texts of the lines, up to their first NUL.
abbrev pub texts : (room fuel : ℕ) → List ℕ → List (List ℕ)
texts room fuel bytes = map c_string (file_lines fuel room bytes)

-- What the server sends of a file without NUL.
module _ (room : ℕ) (wide : 2 ≤ room) where
  pub join-texts :
      (fuel : ℕ) (bytes : List ℕ)
      → NoNul bytes
      → length bytes ≤ fuel
      → join (texts room fuel bytes) ≡ bytes
  unfolding file_lines
  join-texts zero [] h enough = refl
  join-texts zero (c ∷ cs) h enough = absurd (omega arith)
  join-texts (suc fuel) [] h enough = refl
  join-texts (suc fuel) (c ∷ cs) h enough =
      let (front, back) = both-NoNul (room - 1) c cs h in
      let rest = after (room - 1) c cs h in
      ap₂ (λ a b. a ++ b) (c_string-id (fgets (room - 1) (c ∷ cs)) front)
        (join-texts fuel rest back (omega (arith, length-after (room - 1) c cs h (omega arith))))
      ∙ fgets-drop (room - 1) (c ∷ cs)

  pub texts-IsText :
      (fuel : ℕ) (bytes : List ℕ) → NoNul bytes → All (IsText room) (texts room fuel bytes)
  unfolding file_lines
  texts-IsText zero bytes h = tt
  texts-IsText (suc fuel) [] h = tt
  texts-IsText (suc fuel) (c ∷ cs) h =
      let (front, back) = both-NoNul (room - 1) c cs h in
      let same = ap length (c_string-id (fgets (room - 1) (c ∷ cs)) front) in
      (
        record {
          some_bytes = omega (arith, same, fgets-some (room - 1) c cs (omega arith));
          fits = omega (arith, same, length-fgets (room - 1) (c ∷ cs));
        },
        texts-IsText fuel (after (room - 1) c cs h) back,
      )

  pub length-texts : (fuel : ℕ) (bytes : List ℕ) → length (texts room fuel bytes) ≤ fuel
  unfolding file_lines
  length-texts zero bytes = omega arith
  length-texts (suc fuel) [] = omega arith
  length-texts (suc fuel) (c ∷ cs) =
      omega (arith, length-texts fuel (drop (length (fgets (room - 1) (c ∷ cs))) (c ∷ cs)))
