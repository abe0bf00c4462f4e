-- ===== src/Svmsg/Asking.antt =====
-- svmsg/svmsgcliserv: the request of a client, and its parts.
use interprocess_comm.Prelude.{
  ℕ, ◌+◌, ◌-◌, ◌^◌, ◌≤◌, ◌<◌, ◌≡◌, sym, ap, ◌∙◌, List, [], ◌∷◌, ◌++◌, length, length-append, All,
  some, arith,
}
use interprocess_comm.Pipe.{c_string, strip_newline, newline, c_string-append}
use interprocess_comm.Pipe.Requests.{blank, decimal, strchr_blank}
use interprocess_comm.Pipe.Requests.Decimal.{strchr_blank-decimal, IsInner, decimal-IsInner}
use interprocess_comm.Pipe.Requests.Service.{fgets-inner, strip_newline-append, inner-NoNul}
use interprocess_comm.Svmsg.{request}
use mathlib.Core.List.{append_assoc}

-- A client with a number, and a path name on its standard input, that fit in one message.
pub record IsAsking (room number : ℕ) (path : List ℕ) : Type 0 where
  pub number_fits : number < 10 ^ 10
  pub inner : All IsInner path
  pub fits : length (decimal number) + length path + 3 ≤ room

module _ {room number : ℕ} {path : List ℕ} (h : IsAsking room number path) where
  abbrev pub words : List ℕ
  words = decimal number ++ (blank ∷ path)

  pub length-words : length words ≡ length (decimal number) + 1 + length path
  length-words = omega (arith, length-append (decimal number) (blank ∷ path))

  pub request-words : (more : List ℕ) → request room number (path ++ (newline ∷ more)) ≡ words
  unfolding request
  request-words more =
      let start = decimal number ++ (blank ∷ []) in
      let inner = decimal-IsInner number path h.number_fits h.inner in
      let len = length-append (decimal number) (blank ∷ []) in
      ap (λ l. strip_newline (c_string (start ++ l)))
        (fgets-inner (room - length start - 1) path more h.inner (omega (arith, h.fits)))
      ∙ ap (λ l. strip_newline (c_string l))
          (append_assoc (decimal number) (blank ∷ []) (path ++ (newline ∷ []))
            ∙ sym (append_assoc (decimal number) (blank ∷ path) (newline ∷ [])))
      ∙ ap strip_newline (c_string-append words (newline ∷ []) (inner-NoNul words inner))
      ∙ strip_newline-append words

  pub words-parts : strchr_blank words ≡ some (decimal number, path)
  words-parts = strchr_blank-decimal number path h.number_fits
