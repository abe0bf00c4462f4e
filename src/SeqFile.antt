-- ===== src/SeqFile.antt =====
-- lock/lockmain.c with lockfcntl.c, lockopen.c or locknone.c: processes that count up a number which a
-- file holds as text.
pub mod Locks
pub mod Texts
pub mod Balance
pub mod Guard
pub mod Moves
pub mod Totals
use interprocess_comm.Prelude.{
  ℕ, suc, ◌+◌, ◌-◌, ◌^◌, leb, Option, none, some, ◌<◌, ◌≡◌, ltb, if◌then◌else◌, Bool, true, false,
  List, [], ◌∷◌, ◌++◌, ℤ, pos, negsuc, ◌+ℤ◌, put,
}
use interprocess_comm.Pipe.{newline, overwrite}
use interprocess_comm.Pipe.Requests.{digits, atol}
use interprocess_comm.SeqFile.Locks.{Lock, Kernel, my_lock, my_unlock, perform}

-- Where a process stands in round `i` of its loop: it waits for the lock, has it, has read the number
-- `seqno`, or has written the next one.
pub data Process : Type 0 where
  wants_lock has_lock : (i : ℕ) → Process
  has_read : (i : ℕ) → (seqno : ℤ) → Process
  has_written : (i : ℕ) → Process
  finished : Process

-- The contents of the file, the locks, the processes and, newest first, the numbers that they have
-- printed.
pub record System : Type 0 where
  pub contents : List ℕ
  pub kernel : Kernel
  pub processes : ℕ → Process
  pub printed : List ℤ

-- snprintf(line,sizeof(line),"%ld\n",seqno), where a long has at most 19 digits
unfoldable pub text : ℤ → List ℕ
text (pos n) = digits 18 n ++ (newline ∷ [])
text (negsuc n) = 45 ∷ (digits 18 (suc n) ++ (newline ∷ []))

-- A long has 64 bits.
abbrev pub long_max : ℕ
long_max = 2 ^ 63 - 1

-- The long nearest to a number.
unfoldable pub to_long : ℤ → ℤ
to_long (pos n) = if leb n long_max then pos n else pos long_max
to_long (negsuc n) = if leb n long_max then negsuc n else negsuc long_max

-- sscanf(line,"%ld\n",&seqno), on a file of at most MAXLINE bytes
abbrev pub scan : List ℕ → ℤ
scan line = to_long (atol line)

-- seqno++, as the machine does it
unfoldable pub increment : ℤ → ℤ
increment (pos n) = if leb long_max n then negsuc long_max else pos (n + 1)
increment (negsuc n) = negsuc n +ℤ pos 1

-- The test of the loop, of 20 rounds.
unfoldable pub next : (i : ℕ) → Process
next i = if ltb i 20 then wants_lock i else finished

-- The processes with a file that holds a number.
abbrev pub start_system : (start : ℕ) → System
start_system start = record {
  contents = text (pos start);
  kernel = record { held = none; lock_file = false };
  processes = λ i. next 0;
  printed = [];
}

abbrev pub moves : System → (p : ℕ) → Process → System
moves s p q = record s { processes = put s.processes p q }

-- The file from its start is read, and the number printed.
abbrev pub read_number : System → (p i : ℕ) → System
read_number s p i = record (moves s p (has_read i (scan s.contents))) {
  printed = scan s.contents ∷ s.printed;
}

-- The next number is written over the start of the file.
abbrev pub write_number : System → (p i : ℕ) → (seqno : ℤ) → System
write_number s p i seqno = record (moves s p (has_written i)) {
  contents = overwrite (text (increment seqno)) s.contents;
}

pub record At (n : ℕ) (s : System) (p : ℕ) (q : Process) : Type 0 where
  pub present : p < n
  pub state : s.processes p ≡ q

-- The steps of the processes. `my_lock` returns when its call does not wait.
pub data Step (l : Lock) (n : ℕ) (s : System) : System → Type 0 where
  lock :
      (p i : ℕ) (k : Kernel)
      → At n s p (wants_lock i)
      → perform p (my_lock l) s.kernel ≡ some k
      → Step l n s (record (moves s p (has_lock i)) { kernel = k })
  read : (p i : ℕ) → At n s p (has_lock i) → Step l n s (read_number s p i)
  write :
      (p i : ℕ) (seqno : ℤ) → At n s p (has_read i seqno) → Step l n s (write_number s p i seqno)
  unlock :
      (p i : ℕ) (k : Kernel)
      → At n s p (has_written i)
      → perform p (my_unlock l) s.kernel ≡ some k
      → Step l n s (record (moves s p (next (i + 1))) { kernel = k })

pub data Reach (l : Lock) (n : ℕ) (s : System) : System → Type 0 where
  start : Reach l n s s
  later : {t u : System} → Reach l n s t → Step l n t u → Reach l n s u
