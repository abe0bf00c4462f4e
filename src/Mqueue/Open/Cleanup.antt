-- ===== src/Mqueue/Open/Cleanup.antt =====
-- The resources that a call of `mq_open` acquires and gives up (mq_open.c).
use interprocess_comm.Prelude.{ℕ, Option, none, some, List, [], ◌∷◌, arith}
use interprocess_comm.Posix.{Action, create_file, open_fd}
use interprocess_comm.Posix.Tally.{Tally, tally, plus, tally-append, Undone, Kept, Idle}
use interprocess_comm.Mqueue.{MsgHdr, SigEvent, Sizes}
use interprocess_comm.Mqueue.Open.{
  Run, followed_by, Oflag, AttrArg, defattr, Pass, Ending, opened, failed, go_again, go_exists,
  init_file, create_branch, Waited, gone, broken, ready, max_tries, map_existing, wait_init,
  exists_branch, one_pass, mq_open,
}

abbrev pub Tidy : Option Ending → Tally → Type 0
Tidy none t = Idle t
Tidy (some (failed e)) t = Undone t
Tidy (some (opened info made)) t = Kept t
Tidy (some go_again) t = Idle t
Tidy (some go_exists) t = ⊥

map_existing-Tidy :
    (oflag : Oflag) (p : Pass) (w : Waited)
    → Tidy (some (map_existing oflag p w).0) (tally (open_fd ∷ (map_existing oflag p w).1))
map_existing-Tidy oflag p gone = omega arith
map_existing-Tidy oflag p (broken e) = omega arith
map_existing-Tidy oflag p (ready size) = ground arith

exists_branch-Tidy :
    (oflag : Oflag) (p : Pass)
    → Tidy (some (exists_branch oflag p).0) (tally (exists_branch oflag p).1)
unfolding exists_branch
exists_branch-Tidy oflag p =
    ground (arith, map_existing-Tidy oflag p (wait_init oflag.creat max_tries 0 p.stats))

init_file-Tidy :
    (z : Sizes) (oflag : Oflag) (m : ℕ → MsgHdr) (event : SigEvent) (attr : AttrArg) (p : Pass)
    → Tidy
        (some (init_file z oflag m event attr p).0)
        (tally (create_file ∷ open_fd ∷ (init_file z oflag m event attr p).1))
unfolding init_file
init_file-Tidy z oflag m event attr p = ground arith

module _ (z : Sizes) (oflag : Oflag) (m : ℕ → MsgHdr) (event : SigEvent) where
  one_pass-Tidy :
      (attr : Option AttrArg) (p : Pass)
      → let r = one_pass z oflag m event attr p in Tidy (some r.0) (tally r.1)
  unfolding one_pass create_branch
  one_pass-Tidy none p =
      ground (arith, init_file-Tidy z oflag m event defattr p, exists_branch-Tidy oflag p)
  one_pass-Tidy (some a) p =
      ground (arith, init_file-Tidy z oflag m event a p, exists_branch-Tidy oflag p)

-- What an idle pass has done makes no difference.
Tidy-plus : (e : Option Ending) (s t : Tally) → Idle s → Tidy e t → Tidy e (plus s t)
Tidy-plus none s t i d = omega arith
Tidy-plus (some (failed e)) s t i d = omega arith
Tidy-plus (some (opened info made)) s t i d = omega arith
Tidy-plus (some go_again) s t i d = omega arith
Tidy-plus (some go_exists) s t i d = d

followed_by-Tidy :
    (r : Run) (rest : Option Ending × List Action)
    → Tidy (some r.0) (tally r.1)
    → Tidy rest.0 (tally rest.1)
    → Tidy (followed_by r rest).0 (tally (followed_by r rest).1)
followed_by-Tidy (opened info made, done) rest d d' = d
followed_by-Tidy (failed e, done) rest d d' = d
followed_by-Tidy (go_exists, done) rest d d' = d
followed_by-Tidy (go_again, done) rest d d' =
    rw (tally-append done rest.1) (Tidy-plus rest.0 (tally done) (tally rest.1) d d')

module _ (z : Sizes) (oflag : Oflag) (m : ℕ → MsgHdr) (event : SigEvent)
    (attr : Option AttrArg) where
  -- However often the call goes round, and whatever the calls in it return: when `mq_open` fails,
  -- every file that it made is unlinked, every mapping and allocation undone, and at least as many
  -- descriptors closed as opened; when it succeeds, one mapping and one handle are kept, nothing is
  -- unlinked, and every descriptor is closed once; while it still tries, nothing is kept.
  pub mq_open-Tidy :
      (ps : List Pass) → let r = mq_open z oflag m event attr ps in Tidy r.0 (tally r.1)
  unfolding mq_open
  mq_open-Tidy [] = omega arith
  mq_open-Tidy (p ∷ ps) =
      followed_by-Tidy (one_pass z oflag m event attr p) (mq_open z oflag m event attr ps)
        (one_pass-Tidy z oflag m event attr p) (mq_open-Tidy ps)
