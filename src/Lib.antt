-- ===== src/Lib.antt =====
-- Programs and libraries for communication between processes: a POSIX message queue, a read-write
-- lock and three POSIX semaphores built from lower-level means, with the sample programs that use
-- such services. This library models the five implementations and the samples listed below.
--
-- Where what is modelled:
--   Posix      error numbers, the results of a call (a value, -1 with errno, -1 alone), and the
--              resources that a run of calls acquires and gives up (Posix/Tally)
--   Mqueue     my_pxmsg_mmp: the mapped file of a queue (mqueue.h) is the record MqHdr, whose field
--              `msgs` gives the slot at each byte offset; Send, Receive, Notify, Attr and Open hold
--              mq_send.c, mq_receive.c, mq_notify.c, mq_getattr.c with mq_setattr.c, mq_close.c and
--              mq_unlink.c, and mq_open.c. Chain and Inv say when a file is in order, Spec is the
--              queue as a list of messages, and System the threads that share a file
--   Rwlock     mutex/my_rwlock: the functions, their effect on the counters (Counts), init and
--              destroy (Lifetime), and the threads that share a lock (System)
--   SemMmap    pxsem/my_pxsem_mmap: sem_open.c is in Open, the other functions in SemMmap
--   SemFifo    pxsem/my_pxsem_fifo, in the same way; the FIFO is the number of bytes in it
--   SemSvsem   pxsem/my_pxsem_svsem, in the same way; the sets of the kernel are a map by key
--   ProdCons   pxsem/prodcons4.c: the shared buffer, the threads of main as a step relation (System),
--              what balances in every state (System/Balance), that each step keeps it
--              (System/Moves), and what follows (System/Safety, System/Progress)
--   Mutex      mutex/prodcons2.c, prodcons3.c and prodcons6.c: the array that the producers fill;
--              Polled has the two programs without a condition variable, Ready the one with it
--   OneConsumer pxsem/prodcons1.c, prodcons2.c and prodcons3.c: the ring, its producers and its one
--              consumer, in the same way as ProdCons
--   Mycat      pxsem/mycat2.c: the ring of buffers and its two threads as a step relation
--   SeqFile    lock/lockmain.c with lockfcntl.c, lockopen.c or locknone.c: the processes as a step
--              relation, my_lock and my_unlock with what their system calls do (Locks), who has the
--              lock (Guard), the number as text (Texts), and the totals (Totals)
--   Svmsg      svmsg: typed messages on a queue, what a client receives (Replies) and asks for (Asking),
--              and OneQueue with the server of svmsgcliserv
--   Pipe       pipe: bytes, C strings and buffers; Line has readline, Copy the client and the server of
--              mainpipe.c, mainfifo.c, client_main.c and server_main.c, Mesg the messages of
--              pipemesg/mesg.c, MesgCopy pipemesg/mainfifo.c over them, and Requests the server and the
--              requests of fifoclieser
--   LockSvsem  svsem/locksvsem.c: the system calls of my_lock and my_unlock, and the processes that
--              make them (Safety)
--   ShmQueue   pxshm/cliserv2.h, server2.c and client2.c: the buffer in shared memory and its users as a
--              step relation, and the use of the slots (Slots)
--   PxIpc      px_ipc.c, with strings as lists of character codes
--   Tests      the theorems at concrete inputs
--
-- How. A function under a mutex is one step from pthread_mutex_lock to its return or to
-- pthread_cond_wait; its part behind the wait is a definition of its own (send_resume,
-- receive_resume, rdlock_resume, wrlock_resume, wait_resume). What a system call returns is an
-- argument: an error number or none. The calls that other threads and processes notice (signals,
-- wake-ups, munmap) are listed in the result. The two functions with `goto again` run on a
-- list of passes, and `none` says that the list was used up before the call ended. Numbers are unbounded
-- where the source has int and long; the one signed counter, rw_refcount, is an integer, and the seqno
-- of lockmain.c is a long of 64 bits.
--
-- Fuel. The search of mq_send runs on mq_maxmsg + 1 rounds: one for each slot that a list in order can
-- have, and one for its end. Beyond that, in a list in disorder, the call is `out_of_fuel`. The loops
-- that wait for an initialisation run the MAX_TRIES = 10 rounds of the source. The loops of
-- pipemesg/mainfifo.c and fifoclieser/mainserver.c run on a round for each message, and for each byte;
-- their theorems say that this is enough.
--
-- Pipes. What is still to be read of a pipe or a FIFO is a list of bytes, and the calls of read give
-- what the source asks for of it, or pieces that the kernel chooses where the theorem allows for any.
-- Memory that the source has not initialised is an argument, and so is what lies behind the mesg_data
-- of pipemesg/mainfifo.c, where its strlen can get to. A System V queue has room for every
-- message, so that `msgsnd` does not wait, and refuses a type below 1.
--
-- Not modelled: the identifiers that do not compile (mqi_flas, msqhdr, pthread_cond_wai and the
-- like), which are read as the names that they stand for; the contents of the memory behind the
-- mapping beside the queue's own; cancellation of threads and the death of processes; and the other
-- sample programs, which are main functions over the services of the kernel (the rest of lock and of svmsg,
-- svshm, shm, rtsignals, pxmsg, and the rest of svsem, pxshm, mutex and pxsem): they print or pass
-- their arguments to one call.
pub mod Prelude
pub mod Posix
pub mod Mqueue
pub mod Rwlock
pub mod SemMmap
pub mod SemFifo
pub mod SemSvsem
pub mod LockSvsem
pub mod ProdCons
pub mod Mutex
pub mod OneConsumer
pub mod Mycat
pub mod Pipe
pub mod SeqFile
pub mod Svmsg
pub mod ShmQueue
pub mod PxIpc
pub mod Tests
