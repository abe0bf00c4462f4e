-- ===== src/Mqueue/Open.antt =====
-- my_pxmsg_mmp/mq_open.c.
pub mod Free
pub mod Cleanup
use interprocess_comm.Prelude.{
  ℕ, zero, suc, ◌+◌, ◌-◌, ◌*◌, Bool, true, false, not, ◌&&◌, ◌||◌, Option, none, some, List, [],
  ◌∷◌, ◌++◌, if◌then◌else◌, ◌==◌, ℤ, pos, negsuc, leb_ℤ, pos_part,
}
use interprocess_comm.Posix.{
  Action, create_file, unlink_file, open_fd, close_fd, map_file, unmap_file, allocate, release,
  attempt,
}
use interprocess_comm.Posix.Errno
use interprocess_comm.Mqueue.{
  MqAttr, MsgHdr, SigEvent, MqHdr, MqInfo, mqi_magic_open, Sizes, round_msgsize, update,
}
use interprocess_comm.Mqueue.Attr.{filesize_of}

-- The flags that `oflag` may hold beside the access mode.
pub record Oflag : Type 0 where
  pub creat : Bool
  pub excl : Bool
  pub nonblock : Bool

-- The caller's `struct mq_attr`, as far as it is read.
pub record AttrArg : Type 0 where
  pub maxmsg : ℤ
  pub msgsize : ℤ

abbrev pub defattr : AttrArg
defattr = record { maxmsg = pos 128; msgsize = pos 1024 }

abbrev pub max_tries : ℕ
max_tries = 10

-- `stat` fails, or says whether the user-execute bit is on, and the size of the file.
pub data Stat : Type 0 where
  stat_failed : (errno : ℕ) → Stat
  stat_ok : (executable : Bool) (size : ℕ) → Stat

-- What the calls of one pass through `again:` return: an error number, or none.
pub record Pass : Type 0 where
  pub open_excl : Option ℕ
  pub lseek : Option ℕ
  pub write : Option ℕ
  pub mmap : Option ℕ
  pub malloc : Option ℕ
  pub mutexattr_init : Option ℕ
  pub mutex_init : Option ℕ
  pub condattr_init : Option ℕ
  pub cond_init : Option ℕ
  pub fchmod : Option ℕ
  pub open_rdwr : Option ℕ
  pub stats : ℕ → Stat
  pub mmap_existing : Option ℕ
  pub malloc_existing : Option ℕ

-- Where a pass ends. A handle comes with the header that the call has written, if it made the file.
pub data Ending : Type 0 where
  opened : MqInfo → Option MqHdr → Ending
  failed : (errno : ℕ) → Ending
  go_again : Ending
  go_exists : Ending

abbrev pub Run : Type 0
Run = Ending × List Action

-- `err:`, for an open `fd`. Where the plain `open` fails there is nothing to undo, and `close(-1)`
-- does nothing.
abbrev pub err : (errno : ℕ) (created : Bool) (mapped : Option ℕ) (allocated : Bool) → Run
err e created mapped allocated = (
  failed e,
  (if created then unlink_file ∷ [] else [])
      ++ (elim mapped [ some size ↦ unmap_file size ∷ [] | none ↦ [] ])
      ++ (if allocated then release ∷ [] else [])
      ++ close_fd ∷ [],
)

abbrev pub after : List Action → Run → Run
after done (e, more) = (e, done ++ more)

-- The `for` loop over `msg_next`, and the end of the free list behind it.
unfoldable pub init_free : (rounds index stride : ℕ) → (ℕ → MsgHdr) → ℕ → MsgHdr
init_free zero index stride m = update m index (record (m index) { msg_next = 0 })
init_free (suc k) index stride m =
    init_free k (index + stride) stride
      (update m index (record (m index) { msg_next = index + stride }))

abbrev pub stride_of : Sizes → ℕ → ℕ
stride_of z msgsize = z.sizeof_msg_hdr + round_msgsize z msgsize

-- The header and the free list at the beginning of the file. `m` and `event` are what the new file
-- held there before.
unfoldable pub init_header : Sizes → (maxmsg msgsize : ℕ) → (ℕ → MsgHdr) → SigEvent → MqHdr
unfolding init_free
init_header z maxmsg msgsize m event = record {
  mqh_attr = record { mq_flags = false; mq_maxmsg = maxmsg; mq_msgsize = msgsize; mq_curmsgs = 0 };
  mqh_head = 0;
  mqh_free = z.sizeof_mq_hdr;
  mqh_nwait = 0;
  mqh_pid = 0;
  mqh_event = event;
  mqh_lock = false;
  msgs = init_free (maxmsg - 1) z.sizeof_mq_hdr (stride_of z msgsize) m;
}

abbrev pub info_of : (nonblock : Bool) → MqInfo
info_of nonblock = record { mqi_magic = mqi_magic_open; mqi_flags = nonblock }

module _ (z : Sizes) (oflag : Oflag) (m : ℕ → MsgHdr) (event : SigEvent) where
  -- From the check of the attributes on, in the branch that has made the file.
  unfoldable pub init_file : AttrArg → Pass → Run
  init_file attr p =
      if leb_ℤ attr.maxmsg (pos 0) || leb_ℤ attr.msgsize (pos 0)
      then err Errno.einval true none false
      else (let maxmsg = pos_part attr.maxmsg in
          let msgsize = pos_part attr.msgsize in
          let h = init_header z maxmsg msgsize m event in
          let filesize = filesize_of z h.mqh_attr in
          let bad = λ (e : ℕ). err e true (some filesize) true in
          attempt p.lseek (λ e. err e true none false)
            (attempt p.write (λ e. err e true none false)
              (attempt p.mmap (λ e. err e true none false)
                (after (map_file filesize ∷ []) (
                  attempt p.malloc (λ e. err e true (some filesize) false)
                    (after (allocate ∷ []) (
                      attempt p.mutexattr_init bad (
                        attempt p.mutex_init bad (
                          attempt p.condattr_init bad (
                            attempt p.cond_init bad (
                              attempt p.fchmod bad
                                (opened (info_of oflag.nonblock) (some h), close_fd ∷ []))))))))))))

  -- `if (oflag & O_CREAT) { … }`
  unfoldable pub create_branch : Option AttrArg → Pass → Run
  create_branch attr p =
      attempt p.open_excl
        (λ e. if e == Errno.eexist && not oflag.excl then (go_exists, []) else (failed e, []))
        (after (create_file ∷ open_fd ∷ [])
          (init_file (elim attr [ none ↦ defattr | some a ↦ a ]) p))

-- `for (i = 0; i < MAX_TRIES; i++)`: the size of the file, once its user-execute bit is off.
pub data Waited : Type 0 where
  ready : (size : ℕ) → Waited
  gone : Waited
  broken : (errno : ℕ) → Waited

unfoldable pub wait_init : (creat : Bool) → (tries i : ℕ) → (ℕ → Stat) → Waited
wait_init creat zero i stats = broken Errno.etimedout
wait_init creat (suc tries) i stats =
    let next = wait_init creat tries (i + 1) stats in
    elim (stats i) [
      | stat_failed e ↦ if e == Errno.enoent && creat then gone else broken e
      | stat_ok executable size ↦ if executable then next else ready size
    ]

-- Behind the loop: map the file, close it, and allocate the handle.
abbrev pub map_existing : Oflag → Pass → Waited → Run
map_existing oflag p gone = (go_again, close_fd ∷ [])
map_existing oflag p (broken e) = err e false none false
map_existing oflag p (ready size) =
    attempt p.mmap_existing (λ e. err e false none false)
      (after (map_file size ∷ close_fd ∷ []) (
        attempt p.malloc_existing (λ e. err e false (some size) false)
          (opened (info_of oflag.nonblock) none, allocate ∷ [])))

-- `exists:`
unfoldable pub exists_branch : Oflag → Pass → Run
exists_branch oflag p =
    attempt p.open_rdwr
      (λ e. if e == Errno.enoent && oflag.creat then (go_again, []) else (failed e, []))
      (after (open_fd ∷ []) (map_existing oflag p (wait_init oflag.creat max_tries 0 p.stats)))

-- One pass from `again:`.
unfoldable pub one_pass : Sizes → Oflag → (ℕ → MsgHdr) → SigEvent → Option AttrArg → Pass → Run
one_pass z oflag m event attr p =
    if oflag.creat
    then (let (e, done) = create_branch z oflag m event attr p in
        elim e [ go_exists ↦ after done (exists_branch oflag p) | other ↦ (other, done) ])
    else exists_branch oflag p

-- A pass that ends in `goto again` is followed by the others.
abbrev pub followed_by : Run → Option Ending × List Action → Option Ending × List Action
followed_by (opened info made, done) rest = (some (opened info made), done)
followed_by (failed e, done) rest = (some (failed e), done)
followed_by (go_exists, done) rest = (some go_exists, done)
followed_by (go_again, done) rest = (rest.0, done ++ rest.1)

-- The passes in a row. `none` says that the call still tries when the listed passes are used up.
unfoldable pub mq_open :
    Sizes
    → Oflag
    → (ℕ → MsgHdr)
    → SigEvent
    → Option AttrArg
    → List Pass
    → Option Ending × List Action
mq_open z oflag m event attr [] = (none, [])
mq_open z oflag m event attr (p ∷ ps) =
    followed_by (one_pass z oflag m event attr p) (mq_open z oflag m event attr ps)
