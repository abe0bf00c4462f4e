-- ===== src/Pipe/Mesg.antt =====
-- pipe/pipemesg/mesg.c: messages with a length and a type, on a stream of bytes.
pub mod RoundTrip
use interprocess_comm.Prelude.{
  ℕ, zero, suc, ◌+◌, ◌-◌, ◌*◌, ◌/◌, ◌%◌, ◌^◌, ◌≤◌, ◌<◌, ◌≡◌, ltb, ◌==◌, if◌then◌else◌, List, [],
  ◌∷◌, ◌++◌, length, take, drop, arith,
}
use interprocess_comm.Pipe.{overwrite}

-- #define MAXMESGDATA (PIPE_BUF - 2*sizeof(long)), where a long has 8 bytes
abbrev pub maxmesgdata : ℕ
maxmesgdata = 1024 - 2 * 8

-- #define MESGHDRSIZE (sizeof(struct mymesg) - MAXMESGDATA)
abbrev pub mesghdrsize : ℕ
mesghdrsize = 16

-- `mesg_data` has `maxmesgdata` bytes.
pub record Mymesg : Type 0 where
  pub mesg_len : ℕ
  pub mesg_type : ℕ
  pub mesg_data : List ℕ

-- The bytes of a number, the lowest first, and the number of some bytes.
unfoldable pub encode : (bytes n : ℕ) → List ℕ
encode zero n = []
encode (suc bytes) n = n % 256 ∷ encode bytes (n / 256)

unfoldable pub decode : List ℕ → ℕ
decode [] = 0
decode (b ∷ bs) = b + 256 * decode bs

-- `struct mymesg` in memory.
abbrev pub header : Mymesg → List ℕ
header m = encode 8 m.mesg_len ++ encode 8 m.mesg_type

-- The bytes that `mesg_send` writes: write(fd, mptr, MESGHDRSIZE + mptr->mesg_len)
unfoldable pub mesg_send : Mymesg → List ℕ
mesg_send m = take (mesghdrsize + m.mesg_len) (header m ++ m.mesg_data)

-- What `mesg_recv` does: it returns 0 at the end of the file, ends the process at a message that is
-- too short, writes past `mesg_data` if the header asks for more than that holds, or returns the
-- length, with the message in `*mptr`, and leaves what follows it.
pub data Received : Type 0 where
  end_of_file : Received
  bad_header bad_data : (got : ℕ) → Received
  overrun : (len : ℕ) → Received
  received : (len : ℕ) → Mymesg → (rest : List ℕ) → Received

abbrev pub recv_data : Mymesg → (len : ℕ) → (input : List ℕ) → Received
recv_data m len input =
    let data' = take len input in
    if ltb maxmesgdata len
    then overrun len
    else (if length data' == len
        then received len (record m { mesg_data = overwrite data' m.mesg_data }) (drop len input)
        else bad_data (length data'))

-- `head` is what the first call of `read` gives.
abbrev pub recv_parts : Mymesg → (head input : List ℕ) → Received
recv_parts m head input =
    let len = decode (take 8 head) in
    if length head == 0
    then end_of_file
    else (if length head == mesghdrsize
        then recv_data (record m { mesg_len = len; mesg_type = decode (drop 8 head) }) len input
        else bad_header (length head))

-- `input` is what can be read, and a call of `read` gives all it asks for of that.
unfoldable pub mesg_recv : Mymesg → (input : List ℕ) → Received
mesg_recv m input = recv_parts m (take mesghdrsize input) (drop mesghdrsize input)

-- A message that fits in its structure and whose numbers fit in a long.
pub record IsMesg (m : Mymesg) : Type 0 where
  pub len_fits : m.mesg_len ≤ maxmesgdata
  pub type_fits : m.mesg_type < 2 ^ 63
  pub data_size : length m.mesg_data ≡ maxmesgdata
