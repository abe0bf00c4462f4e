-- ===== src/Mqueue/Notify.antt =====
-- my_pxmsg_mmp/mq_notify.c.
use interprocess_comm.Prelude.{
  ℕ, Bool, true, not, ◌&&◌, Option, none, some, [], if◌then◌else◌, ◌==◌,
}
use interprocess_comm.Posix.{value, fail, Outcome, returns}
use interprocess_comm.Posix.Errno
use interprocess_comm.Mqueue.{SigEvent, MqHdr, MqInfo, mqi_magic_open, lock, unlock}

-- `kill(pid, 0) != -1 || errno != ESRCH`, where `kill` gives the error number of a failure.
abbrev pub seems_alive : Option ℕ → Bool
seems_alive none = true
seems_alive (some e) = not (e == Errno.esrch)

-- What runs with the mutex held.
unfoldable pub notify_locked :
    (kill : ℕ → Option ℕ) (pid : ℕ) → Option SigEvent → MqHdr → Outcome MqHdr ℕ
notify_locked kill pid none h =
    returns (value 0) (unlock (if h.mqh_pid == pid then record h { mqh_pid = 0 } else h)) []
notify_locked kill pid (some notification) h =
    if not (h.mqh_pid == 0) && seems_alive (kill h.mqh_pid)
    then returns (fail Errno.ebusy) (unlock h) []
    else returns (value 0) (unlock (record h { mqh_pid = pid; mqh_event = notification })) []

-- `n` is what `pthread_mutex_lock` returns, `pid` what `getpid` does.
unfoldable pub mq_notify :
    (n : ℕ) (kill : ℕ → Option ℕ) (pid : ℕ) → MqInfo → Option SigEvent → MqHdr → Outcome MqHdr ℕ
mq_notify n kill pid mqinfo notification h =
    if not (mqinfo.mqi_magic == mqi_magic_open)
    then returns (fail Errno.ebadf) h []
    else if not (n == 0)
    then returns (fail n) h []
    else notify_locked kill pid notification (lock h)
