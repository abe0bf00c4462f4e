-- ===== src/Tests/Buffer.antt =====
-- pxshm: two clients and the server. The second client has copied its message before the first one, and
-- the server prints the first slot before anything is in it.
use interprocess_comm.Prelude.{ℕ, ◌+◌, none, some, [], ◌∷◌, put}
use interprocess_comm.ShmQueue.{
  begins, has_empty, copies, has_stored, freed, System, starts, client_moves, server_moves,
}

abbrev pids : ℕ → ℕ
pids c = 1000 + c

abbrev s0 : System
s0 = starts

abbrev s1 : System
s1 = client_moves s0 0 (has_empty 0) (record (s0.shm) { nempty = 15 })

abbrev s2 : System
s2 = client_moves s1 0 (copies 0 0) (record (s1.shm) { nput = 1 })

abbrev s3 : System
s3 = client_moves s2 1 (has_empty 0) (record (s2.shm) { nempty = 14 })

abbrev s4 : System
s4 = client_moves s3 1 (copies 0 256) (record (s3.shm) { nput = 2 })

abbrev s5 : System
s5 = client_moves s4 1 (begins 1) (record (s4.shm) {
  msgdata = put s4.shm.msgdata 256 (some (record { pid = 1001; number = 0 }));
  nstored = 1;
})

abbrev s6 : System
s6 = server_moves s5 (has_stored 0 0) (record (s5.shm) { nstored = 0 })

abbrev s7 : System
s7 = record s6 { server = freed 1 0; printed = none ∷ [] }
