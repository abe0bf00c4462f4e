-- ===== src/Posix/Errno.antt =====
-- <errno.h>, with the values of Linux
use interprocess_comm.Prelude.{ℕ}

abbrev pub enoent : ℕ
enoent = 2

abbrev pub esrch : ℕ
esrch = 3

abbrev pub ebadf : ℕ
ebadf = 9

abbrev pub eagain : ℕ
eagain = 11

abbrev pub ebusy : ℕ
ebusy = 16

abbrev pub eexist : ℕ
eexist = 17

abbrev pub einval : ℕ
einval = 22

abbrev pub emsgsize : ℕ
emsgsize = 90

abbrev pub etimedout : ℕ
etimedout = 110

abbrev pub erange : ℕ
erange = 34
