-- ===== src/Tests/Texts.antt =====
-- The theorems on texts and packets at concrete inputs (lib.rs, common.rs).
use lantun.Base.{
  map, ◌↔◌, refl, some, err, ok, ℕ, Text, [], ◌≡◌, Outcome, arith, bytes_eq, codes, none, ◌∷◌,
  Bytes,
}
use lantun.Protocol.{ascii_lower, tcp, udp, deserialize, NonAscii, fmt, from_str, serialize}
use lantun.Packets.{
  receive_packet-send_packet, finish, bytes, receive_packet, SendCalls, send_packet,
}
use lantun.Protocol.Texts.{from_str_iff, deserialize-serialize, from_str-fmt, IsUnicode}

-- Outside ASCII this toy table keeps every character.
abbrev toy_table : NonAscii
toy_table before c after = c ∷ []

toy_table-IsUnicode : IsUnicode toy_table
toy_table-IsUnicode before c after h = ground arith

from_str_iff_example :
    (from_str toy_table (codes "TcP") ≡ ok tcp) ↔ (map ascii_lower (codes "TcP") ≡ codes "tcp")
unfolding fmt
from_str_iff_example = from_str_iff toy_table toy_table-IsUnicode tcp (codes "TcP")

from_str-fmt_example : from_str toy_table (codes "udp") ≡ ok udp
unfolding fmt
from_str-fmt_example = from_str-fmt toy_table udp

deserialize-serialize_example : deserialize toy_table (λ (s : Text). s) (ok (codes "udp")) ≡ ok udp
unfolding serialize
deserialize-serialize_example = deserialize-serialize toy_table (λ s. s) udp

bad_protocol : from_str toy_table (codes "sctp") ≡ err (codes "Invalid protocol: sctp")
unfolding from_str bytes_eq
bad_protocol = refl

-- A codec that writes one number as one byte.
abbrev toy_decoder : Bytes → Outcome Text (ℕ × ℕ)
toy_decoder [] = err []
toy_decoder (b ∷ bs) = ok (b, 1)

abbrev quiet : SendCalls
quiet = record { open_uni = none; write_all = none; flush = none; finish = none }

receive_packet-send_packet_example :
    receive_packet toy_decoder none (bytes [] ∷ bytes (9 ∷ []) ∷ finish ∷ []) ≡ some (ok 9)
unfolding send_packet
receive_packet-send_packet_example =
    receive_packet-send_packet {P = ℕ} (λ p. p ∷ []) toy_decoder 9 quiet ([] ∷ (9 ∷ []) ∷ []) []
      (λ p. refl) refl
