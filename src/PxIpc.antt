-- ===== src/PxIpc.antt =====
-- px_ipc.c: the path name of an IPC object.
use interprocess_comm.Prelude.{
  ℕ, zero, suc, ◌-◌, ◌≤◌, ◌≡◌, ◌≢◌, refl, ap, sym, ◌∙◌, Bool, true, false, Option, none, some, List,
  [], ◌∷◌, ◌++◌, arith, ◌==◌, length, take,
}

abbrev pub path_max : ℕ
path_max = 256

-- '/', and "/tmp"
abbrev pub slash_char : ℕ
slash_char = 47

abbrev pub tmp : List ℕ
tmp = 47 ∷ 116 ∷ 109 ∷ 112 ∷ []

-- dir[strlen(dir) - 1], which for an empty `dir` is the byte `before` it.
abbrev pub last_char : (before : ℕ) → List ℕ → ℕ
last_char before [] = before
last_char before (c ∷ cs) = last_char c cs

-- `dir`, `slash` and `name` in a row, where `slash` is empty if `dir` ends in one.
abbrev pub join : (ends_in_slash : Bool) → (dir name : List ℕ) → List ℕ
join true dir name = dir ++ name
join false dir name = dir ++ slash_char ∷ name

-- `env` is the value of PX_IPC_NAME. POSIX_IPC_PEFIX is spelled like no macro, so the default is
-- "/tmp". `snprintf` writes at most PATH_MAX - 1 bytes before the null byte.
unfoldable pub px_ipc_name :
    (malloc_ok : Bool) (before : ℕ) (env : Option (List ℕ)) (name : List ℕ) → Option (List ℕ)
px_ipc_name false before env name = none
px_ipc_name true before env name =
    let dir : List ℕ = elim env [ none ↦ tmp | some d ↦ d ] in
    some (take (path_max - 1) (join (last_char before dir == slash_char) dir name))

last_char-append : (b c : ℕ) (xs : List ℕ) → last_char b (xs ++ c ∷ []) ≡ c
last_char-append b c [] = refl
last_char-append b c (x ∷ xs) = last_char-append x c xs

append_assoc : (xs ys zs : List ℕ) → (xs ++ ys) ++ zs ≡ xs ++ (ys ++ zs)
append_assoc [] ys zs = refl
append_assoc (x ∷ xs) ys zs = ap (λ l. x ∷ l) (append_assoc xs ys zs)

take-all : (n : ℕ) (xs : List ℕ) → length xs ≤ n → take n xs ≡ xs
take-all zero [] h = refl
take-all zero (x ∷ xs) h = absurd (omega arith)
take-all (suc n) [] h = refl
take-all (suc n) (x ∷ xs) h = ap (λ l. x ∷ l) (take-all n xs (omega arith))

module _ (before : ℕ) (dir : List ℕ) (last : ℕ) (name : List ℕ) where
  abbrev base : List ℕ
  base = dir ++ last ∷ []

  base-bare : last ≢ slash_char → last_char before base == slash_char ≡ false
  base-bare n = rw (last_char-append before last dir) (ground arith)

  bare :
      last ≢ slash_char
      → px_ipc_name true before (some base) name ≡ some (take 255 (base ++ slash_char ∷ name))
  unfolding px_ipc_name
  bare n = ap (λ b. some (take (path_max - 1) (join b base name))) (base-bare n)

  ended :
      px_ipc_name true before (some (base ++ slash_char ∷ [])) name
      ≡ some (take 255 (base ++ slash_char ∷ name))
  unfolding px_ipc_name
  ended =
      ap (λ c. some (take (path_max - 1) (join (c == slash_char) (base ++ slash_char ∷ []) name)))
        (last_char-append before slash_char base)
      ∙ ap (λ l. some (take 255 l)) (append_assoc base (slash_char ∷ []) name)

  -- A directory that is not empty, and whose last character but for one slash is no slash, may end
  -- in that slash or not: the path name is the same; and where it fits into PATH_MAX - 1 bytes, it
  -- is the directory, one slash and the name.
  pub px_ipc_name-slash :
      last ≢ slash_char
      → (px_ipc_name true before (some base) name
          ≡ px_ipc_name true before (some (base ++ slash_char ∷ [])) name)
        × (length (base ++ slash_char ∷ name) ≤ 255
            → px_ipc_name true before (some base) name ≡ some (base ++ slash_char ∷ name))
  px_ipc_name-slash n =
      (bare n ∙ sym ended, λ h. bare n ∙ ap some (take-all 255 (base ++ slash_char ∷ name) h))
