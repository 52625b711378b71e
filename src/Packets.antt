-- ===== src/Packets.antt =====
-- `send_packet` and `receive_packet` (lantun-core/src/common.rs): one message on a stream of its own.
-- The encoding is bincode's, a parameter.
use mathlib.Core.List.{append_assoc, append-nil}
use mathlib.Core.Option
use lantun.Base.{
  refl, ◌∙◌, arith, [], concat, length, map_err, ok, ◌∷◌, err, ◌++◌, ◌>>=◌, ◌≡◌, map, none, ℕ, List,
  Outcome, some, Bytes, Option, Text,
}

-- The results of the calls of `send_packet` on the new stream, `none` for `Ok`.
pub record SendCalls : Type 0 where
  pub open_uni : Option Text
  pub write_all : Option Text
  pub flush : Option Text
  pub finish : Option Text

abbrev pub first_error : Option Text → Option Text → Option Text
first_error none next = next
first_error (some message) next = some message

-- The first error, and the bytes that went out in full.
unfoldable pub send_packet : {P : Type 0} → (P → Bytes) → P → SendCalls → Option Text × Option Bytes
send_packet encode packet c = (
  first_error c.open_uni (first_error c.write_all (first_error c.flush c.finish)),
  elim (first_error c.open_uni c.write_all) [ none ↦ some (encode packet) | some message ↦ none ],
)

pub data ReceivePacketError : Type 0 where
  io decode connection read : Text → ReceivePacketError

-- What one `recv.read` gives: bytes, the end of the stream, or an error.
pub data Read : Type 0 where
  bytes : Bytes → Read
  finish : Read
  fail : Text → Read

-- The loop; `none` while the stream has not ended.
unfoldable pub read_all : Bytes → List Read → Option (Outcome ReceivePacketError Bytes)
read_all buf [] = none
read_all buf (bytes chunk ∷ reads) = read_all (buf ++ chunk) reads
read_all buf (finish ∷ reads) = some (ok buf)
read_all buf (fail message ∷ reads) = some (err (read message))

abbrev pub decoded :
    {P : Type 0}
    → (Bytes → Outcome Text (P × ℕ))
    → Outcome ReceivePacketError Bytes
    → Outcome ReceivePacketError P
decoded decoder buf = do
  b ← buf
  packet ← map_err ReceivePacketError.decode (decoder b)
  ok packet.0

unfoldable pub receive_packet :
    {P : Type 0}
    → (Bytes → Outcome Text (P × ℕ))
    → Option Text
    → List Read
    → Option (Outcome ReceivePacketError P)
unfolding read_all
receive_packet decoder (some message) reads = some (err (connection message))
receive_packet decoder none reads = Option.map (decoded decoder) (read_all [] reads)

read_all-bytes :
    (buf : Bytes) (chunks : List Bytes) (rest : List Read)
    → read_all buf (map bytes chunks ++ (finish ∷ rest)) ≡ some (ok (buf ++ concat chunks))
unfolding read_all
read_all-bytes buf [] rest = rw append-nil
read_all-bytes buf (c ∷ chunks) rest = read_all-bytes (buf ++ c) chunks rest ∙ rw append_assoc

-- What is received, whatever the decoder makes of it.
pub receive_packet-decoded :
    {P : Type 0} (decoder : Bytes → Outcome Text (P × ℕ)) (chunks : List Bytes) (rest : List Read)
    → receive_packet decoder none (map bytes chunks ++ (finish ∷ rest))
      ≡ some (decoded decoder (ok (concat chunks)))
unfolding receive_packet
receive_packet-decoded decoder chunks rest = rw (read_all-bytes [] chunks rest) refl

-- If the decoder reads what the encoder writes, a packet whose bytes went out is received as that
-- packet, in whatever pieces the bytes arrive before the end of the stream.
pub receive_packet-send_packet :
    {P : Type 0} (encode : P → Bytes) (decoder : Bytes → Outcome Text (P × ℕ)) (packet : P)
    (calls : SendCalls) (chunks : List Bytes) (rest : List Read)
    → ((p : P) → decoder (encode p) ≡ ok (p, length (encode p)))
    → (send_packet encode packet calls).1 ≡ some (concat chunks)
    → receive_packet decoder none (map bytes chunks ++ (finish ∷ rest)) ≡ some (ok packet)
unfolding receive_packet send_packet
receive_packet-send_packet encode decoder packet calls chunks rest law sent =
    rw (receive_packet-decoded decoder chunks rest) (ground (arith, law packet))
