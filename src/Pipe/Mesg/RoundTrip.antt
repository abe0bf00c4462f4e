-- ===== src/Pipe/Mesg/RoundTrip.antt =====
-- pipe/pipemesg/mesg.c: what `mesg_recv` reads of what `mesg_send` has written.
use interprocess_comm.Prelude.{
  ℕ, zero, suc, ◌+◌, ◌/◌, ◌^◌, ◌<◌, ◌≡◌, refl, ap, ap₂, ◌∙◌, List, ◌++◌, length, take, drop,
  length-append, length-take, take-append, drop-append, take_past, arith,
}
use interprocess_comm.Pipe.{overwrite}
use interprocess_comm.Pipe.Mesg.{
  mesghdrsize, Mymesg, encode, decode, header, mesg_send, mesg_recv, recv_data, recv_parts,
  received, IsMesg,
}
use native.Mathlib.Nat.{pow-succ'}
use mathlib.Core.List.{append_assoc}

decode-encode : (bytes n : ℕ) → n < 256 ^ bytes → decode (encode bytes n) ≡ n
unfolding encode decode
decode-encode zero n h = omega arith
decode-encode (suc bytes) n h =
    omega (arith, decode-encode bytes (n / 256) (omega (arith, pow-succ' 256 bytes)))

length-encode : (bytes n : ℕ) → length (encode bytes n) ≡ bytes
unfolding encode
length-encode zero n = refl
length-encode (suc bytes) n = ap suc (length-encode bytes (n / 256))

length-header : (m : Mymesg) → length (header m) ≡ mesghdrsize
length-header m =
    length-append (encode 8 m.mesg_len) (encode 8 m.mesg_type)
    ∙ ap₂ (λ a b. a + b) (length-encode 8 m.mesg_len) (length-encode 8 m.mesg_type)

-- The message in two parts.
mesg_send-header : (m : Mymesg) → mesg_send m ≡ header m ++ take m.mesg_len m.mesg_data
unfolding mesg_send
mesg_send-header m = take_past mesghdrsize m.mesg_len (header m) m.mesg_data (length-header m)

-- The structure that the reader is left with: the length, the type and the data of the writer, and
-- behind the data what the structure held before.
abbrev pub filled : Mymesg → Mymesg → Mymesg
filled m old = record m { mesg_data = overwrite (take m.mesg_len m.mesg_data) old.mesg_data }

recv_parts_lem :
    (m old : Mymesg) (head input : List ℕ)
    → length head ≡ mesghdrsize
    → decode (take 8 head) ≡ m.mesg_len
    → decode (drop 8 head) ≡ m.mesg_type
    → recv_parts old head input
      ≡ recv_data (record old { mesg_len = m.mesg_len; mesg_type = m.mesg_type }) m.mesg_len input
recv_parts_lem m old head input size len type = rw (size, len, type) refl

-- A whole header at the front of what can be read.
recv_header_bytes :
    (m old : Mymesg) (head input : List ℕ)
    → length head ≡ mesghdrsize
    → decode (take 8 head) ≡ m.mesg_len
    → decode (drop 8 head) ≡ m.mesg_type
    → mesg_recv old (head ++ input)
      ≡ recv_data (record old { mesg_len = m.mesg_len; mesg_type = m.mesg_type }) m.mesg_len input
unfolding mesg_recv
recv_header_bytes m old head input size len type =
    rw (take-append mesghdrsize head input size, drop-append mesghdrsize head input size)
      (recv_parts_lem m old head input size len type)

recv_header :
    (m old : Mymesg) (input : List ℕ)
    → IsMesg m
    → mesg_recv old (header m ++ input)
      ≡ recv_data (record old { mesg_len = m.mesg_len; mesg_type = m.mesg_type }) m.mesg_len input
recv_header m old input h =
    let len_bytes = encode 8 m.mesg_len in
    let type_bytes = encode 8 m.mesg_type in
    recv_header_bytes m old (header m) input (length-header m)
      (ap decode (take-append 8 len_bytes type_bytes (length-encode 8 m.mesg_len))
        ∙ decode-encode 8 m.mesg_len (omega (arith, h.len_fits)))
      (ap decode (drop-append 8 len_bytes type_bytes (length-encode 8 m.mesg_len))
        ∙ decode-encode 8 m.mesg_type (omega (arith, h.type_fits)))

recv_data-take :
    (m old : Mymesg) (rest : List ℕ)
    → IsMesg m
    → recv_data
        (record old { mesg_len = m.mesg_len; mesg_type = m.mesg_type })
        m.mesg_len
        (take m.mesg_len m.mesg_data ++ rest)
      ≡ received m.mesg_len (filled m old) rest
recv_data-take m old rest h =
    let size : length (take m.mesg_len m.mesg_data) ≡ m.mesg_len =
      omega (arith, length-take m.mesg_len m.mesg_data) in
    rw
      (
        take-append m.mesg_len (take m.mesg_len m.mesg_data) rest size,
        drop-append m.mesg_len (take m.mesg_len m.mesg_data) rest size,
      )
      (ground (arith, size))

-- Of what `mesg_send` has written `mesg_recv` gives back the length, the type and the data, whatever
-- follows on the stream, which it leaves there; and what its structure held behind the data stays.
pub mesg_recv-mesg_send :
    (m old : Mymesg) (rest : List ℕ)
    → IsMesg m
    → mesg_recv old (mesg_send m ++ rest) ≡ received m.mesg_len (filled m old) rest
mesg_recv-mesg_send m old rest h =
    rw (mesg_send-header m, append_assoc) (recv_header m old _ h ∙ recv_data-take m old rest h)
