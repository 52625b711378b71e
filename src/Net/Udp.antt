-- ===== src/Net/Udp.antt =====
-- The four loops of lantun-core/src/net/udp.rs.
pub mod Foreign
pub mod Merged
pub mod Datagrams
use lantun.Base.{
  ℕ, ◌≡◌, refl, ap, ◌⊎◌, Bool, Option, none, some, [], ◌∷◌, Bytes, length, ◌==◌, nat_eq,
  if◌then◌else◌, arith,
}
use lantun.Addr.{SocketAddr, addr_eq}
use lantun.Forward.{
  Flow, arming, finished, closed, Wake, stop_changed, received, slept, on_stop, on_sleep, deliver,
}
use lantun.Forward.Loop.{Loop, IsLoop}
use lantun.Net.Tcp.{
  read_tunnel, read_socket, bytes_of, bytes_of_tunnel, reads_tunnel-IsLoop, reads_socket-IsLoop,
}

unfoldable pub tunnel_to_udp_host : Wake (Option Bytes) → ℕ → Flow → Flow
tunnel_to_udp_host (stop_changed stop) now f = on_stop stop f
tunnel_to_udp_host (received n written) now f = read_tunnel n written now f
tunnel_to_udp_host slept now f = on_sleep now f

unfoldable pub udp_to_tunnel_host : Wake Bytes → ℕ → Flow → Flow
udp_to_tunnel_host (stop_changed stop) now f = on_stop stop f
udp_to_tunnel_host (received chunk written) now f = read_socket chunk written now f
udp_to_tunnel_host slept now f = on_sleep now f

unfoldable pub tunnel_to_udp_client : Wake (Option Bytes) → ℕ → Flow → Flow
tunnel_to_udp_client (stop_changed stop) now f = on_stop stop f
tunnel_to_udp_client (received n written) now f = read_tunnel n written now f
tunnel_to_udp_client slept now f = on_sleep now f

-- A `peek_from`: the datagram at the head of the queue, as far as the buffer goes, and its sender.
-- `taken` is what the `recv` after it gives, `none` for an error.
pub record Peek : Type 0 where
  pub seen : Bytes
  pub from : SocketAddr
  pub taken : Option Bytes

-- `recv(&mut buf[..n])` over the bytes that the peek left in the buffer.
unfoldable pub overlay : Bytes → Bytes → Bytes
overlay datagram [] = []
overlay [] (b ∷ seen) = b ∷ seen
overlay (d ∷ datagram) (b ∷ seen) = d ∷ overlay datagram seen

-- A peek at a datagram of the tunnel's own client, with the `recv` after it.
abbrev pub take_datagram : Option Bytes → Bytes → Bool → ℕ → Flow → Flow
take_datagram none seen written now f = record f { phase = arming }
take_datagram (some datagram) seen written now f =
    if length seen == 0
    then record f { phase = finished closed }
    else deliver (overlay datagram seen) written now f

abbrev pub taken_bytes : Option Bytes → Bytes → Option Bytes
taken_bytes none seen = none
taken_bytes (some datagram) seen = if length seen == 0 then none else some (overlay datagram seen)

module _ (client_local_addr : SocketAddr) where
  unfoldable pub udp_to_tunnel_client : Wake Peek → ℕ → Flow → Flow
  udp_to_tunnel_client (stop_changed stop) now f = on_stop stop f
  udp_to_tunnel_client (received p written) now f =
      if p.from == client_local_addr
      then take_datagram p.taken p.seen written now f
      else record f { phase = arming }
  udp_to_tunnel_client slept now f = on_sleep now f

  abbrev pub own_bytes : Peek → Option Bytes
  own_bytes p = if p.from == client_local_addr then taken_bytes p.taken p.seen else none

  abbrev pub client_writer : Loop Peek
  client_writer = record { wake = udp_to_tunnel_client; payload = own_bytes }

abbrev pub host_reader : Loop (Option Bytes)
host_reader = record { wake = tunnel_to_udp_host; payload = bytes_of_tunnel }

abbrev pub host_writer : Loop Bytes
host_writer = record { wake = udp_to_tunnel_host; payload = bytes_of }

abbrev pub client_reader : Loop (Option Bytes)
client_reader = record { wake = tunnel_to_udp_client; payload = bytes_of_tunnel }

-- A datagram that was peeked and then taken is forwarded whole and unchanged.
pub overlay_self : (datagram : Bytes) → overlay datagram datagram ≡ datagram
unfolding overlay
overlay_self [] = refl
overlay_self (d ∷ datagram) = ap (◌∷◌ d) (overlay_self datagram)

client_writer-forwards :
    (addr : SocketAddr) (p : Peek) (written : Bool) (now : ℕ) (f : Flow) (chunk : Bytes)
    → own_bytes addr p ≡ some chunk
    → udp_to_tunnel_client addr (received p written) now f ≡ deliver chunk written now f
unfolding udp_to_tunnel_client
client_writer-forwards addr p written now f chunk e = ground arith

client_writer-drops :
    (addr : SocketAddr) (p : Peek) (written : Bool) (now : ℕ) (f : Flow)
    → own_bytes addr p ≡ none
    → (udp_to_tunnel_client addr (received p written) now f ≡ record f { phase = finished closed })
      ⊎ (udp_to_tunnel_client addr (received p written) now f ≡ record f { phase = arming })
unfolding udp_to_tunnel_client
client_writer-drops addr p written now f e = ground arith

-- Each of the four UDP loops meets IsLoop too; what the loop of a client forwards are the
-- datagrams of its own application only.
pub udp-IsLoop :
    (client_local_addr : SocketAddr)
    → IsLoop host_reader
      × IsLoop host_writer
      × IsLoop client_reader
      × IsLoop (client_writer client_local_addr)
unfolding tunnel_to_udp_host udp_to_tunnel_host tunnel_to_udp_client udp_to_tunnel_client
udp-IsLoop client_local_addr = (
  reads_tunnel-IsLoop _ (λ b now f. refl) (λ now f. refl) (λ n w now f. refl),
  reads_socket-IsLoop _ (λ b now f. refl) (λ now f. refl) (λ c w now f. refl),
  reads_tunnel-IsLoop _ (λ b now f. refl) (λ now f. refl) (λ n w now f. refl),
  record {
    obeys_stop = λ b now f. refl;
    checks_idle = λ now f. refl;
    forwards = client_writer-forwards client_local_addr;
    drops = client_writer-drops client_local_addr;
  },
)
