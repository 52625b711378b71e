-- ===== src/Tests/Toy.antt =====
-- A concrete runtime, in which a secret key and its public key are the same bytes.
use lantun.Addr.{v4, SocketAddr}
use lantun.Runtime.{IsWatch, Runtime, Send}
use lantun.Base.{
  nat_eq, [], some, zero, ◌==◌, if◌then◌else◌, true, suc, ◌∷◌, bytes_eq, false, none, refl, Option,
  Bytes, ℕ,
}

-- Bytes that begin with 255 are no public key.
abbrev pub toy_public : Bytes → Option Bytes
toy_public [] = none
toy_public (b ∷ bs) = if b == 255 then none else some (b ∷ bs)

abbrev pub toy : Runtime
toy = record {
  SecretKey = Bytes;
  PublicKey = Bytes;
  Endpoint = ℕ;
  Connection = ℕ;
  StopSender = ℕ;
  secret_from = λ b. b;
  secret_bytes = λ k. k;
  public_key = λ k. k;
  public_from = toy_public;
  public_bytes = λ k. k;
  same_peer = bytes_eq.dec;
}

-- A channel whose `send` fails without receivers.
abbrev pub toy_send : Send
toy_send zero = false
toy_send (suc n) = true

pub toy_send-IsWatch : IsWatch toy_send
toy_send-IsWatch = record { closed = refl; heard = λ n. refl }

abbrev pub app : SocketAddr
app = v4 2130706433 5000

abbrev pub game : SocketAddr
game = v4 2130706433 25565
