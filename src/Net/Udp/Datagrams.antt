-- ===== src/Net/Udp/Datagrams.antt =====
-- Datagrams that are longer than the buffer of the forwarder (net/udp.rs): `recv` and `peek_from`
-- give as much of a datagram as the buffer holds, and the rest of it is lost.
use mathlib.Core.Option
use mathlib.Core.List.{map-append}
use lantun.Forward.Delivery.{Run-sent, chunk, from_socket}
use lantun.Forward.Session.{Run, Session, wake_socket, arm_socket, wake_tunnel, arm_tunnel, Turn}
use lantun.Forward.{closed, finished, Flow, received, tunnel_forwarder_buffer_size}
use lantun.Net.Tcp.{bytes_of}
use lantun.Addr.{v4, addr_eq, SocketAddr}
use lantun.Net.Udp.{
  udp_to_tunnel_client, host_writer, client_writer, udp-IsLoop, overlay_self, own_bytes, Peek,
}
use lantun.Base.{
  ap, ◌∙◌, ◌++◌, [], suc, take_all, ℕ, ◌≤◌, false, true, refl, length-take, ◌∷◌, Bool, arith, map,
  nat_eq, none, length, ◌==◌, List, if◌then◌else◌, ◌≡◌, Option, some, take, Bytes,
}
use lantun.Forward.Loop.{reading-IsLoop, IsLoop, reading, Loop}

pub record Datagram : Type 0 where
  pub from : SocketAddr
  pub content : Bytes

unfoldable pub buffered : Bytes → Bytes
buffered content = take tunnel_forwarder_buffer_size content

-- `peek_from(&mut buf)`, and the `recv(&mut buf[..n])` after it.
abbrev pub peeked : Datagram → Peek
peeked d = record { seen = buffered d.content; from = d.from; taken = some (buffered d.content) }

-- The datagrams that are to be forwarded, whole: a client serves one application, and an empty
-- datagram is taken for the end.
abbrev pub whole : Bytes → Option Bytes
whole content = if length content == 0 then none else some content

abbrev pub own : SocketAddr → Datagram → Option Bytes
own addr d = if d.from == addr then whole d.content else none

take-empty : (n : ℕ) (xs : Bytes) → (length (take (suc n) xs) == 0) ≡ (length xs == 0)
take-empty n [] = refl
take-empty n (x ∷ xs) = ground arith

buffered-empty : (content : Bytes) → (length (buffered content) == 0) ≡ (length content == 0)
unfolding buffered
buffered-empty content = take-empty 1023 content

-- What is forwarded has at most 1024 bytes, and a datagram of no more bytes is forwarded whole.
pub buffered_bounds :
    (content : Bytes)
    → (length (buffered content) ≤ tunnel_forwarder_buffer_size)
      × (length content ≤ tunnel_forwarder_buffer_size → buffered content ≡ content)
unfolding buffered
buffered_bounds content = (
  omega (arith, length-take tunnel_forwarder_buffer_size content),
  take_all tunnel_forwarder_buffer_size content,
)

buffered-payload :
    (content : Bytes) → bytes_of (buffered content) ≡ Option.map buffered (whole content)
buffered-payload content = ground (arith, buffered-empty content)

peeked-payload :
    (addr : SocketAddr) (d : Datagram)
    → own_bytes addr (peeked d) ≡ Option.map buffered (own addr d)
peeked-payload addr d = ground (arith, overlay_self (buffered d.content), buffered-empty d.content)

module _ {A C : Type 0} (reader : Loop A) (writer : Loop C) (given : C → Option Bytes) where
  -- The reads of the socket, whole, that could be written.
  abbrev pub given_from : List (Turn A C) → List Bytes
  given_from = from_socket reader (record { wake = writer.wake; payload = given })

  module _ (cuts : (c : C) → writer.payload c ≡ Option.map buffered (given c)) where
    chunk-cut :
        (o : Option Bytes) (written : Bool)
        → chunk (Option.map buffered o) written ≡ map buffered (chunk o written)
    chunk-cut none written = refl
    chunk-cut (some b) true = refl
    chunk-cut (some b) false = refl

    from_socket-cut :
        (ts : List (Turn A C)) → from_socket reader writer ts ≡ map buffered (given_from ts)
    unfolding from_socket
    from_socket-cut [] = refl
    from_socket-cut (arm_tunnel now ∷ ts) = from_socket-cut ts
    from_socket-cut (wake_tunnel now w ∷ ts) = from_socket-cut ts
    from_socket-cut (arm_socket now ∷ ts) = from_socket-cut ts
    from_socket-cut (wake_socket now (received c written) ∷ ts) =
        rw (cuts c, chunk-cut (given c) written, map-append, from_socket-cut ts) refl
    from_socket-cut (wake_socket now w ∷ ts) = from_socket-cut ts

    module _ (hr : IsLoop reader) (hw : IsLoop writer) where
      Run-given :
          {s u : Session} {ts : List (Turn A C)}
          → Run reader writer s ts u
          → u.socket.sent ≡ s.socket.sent ++ map buffered (given_from ts)
      Run-given {s} {u} {ts} r =
          (Run-sent reader writer hr hw r).1 ∙ ap (λ x. s.socket.sent ++ x) (from_socket-cut ts)

-- The loops as they read datagrams.
abbrev pub host_datagrams : Loop Bytes
host_datagrams = reading buffered host_writer

abbrev pub client_datagrams : SocketAddr → Loop Datagram
client_datagrams addr = reading peeked (client_writer addr)

module _ {A : Type 0} (reader : Loop A) (hr : IsLoop reader) where
  -- The host sends to the tunnel the datagrams of the service, each up to the size of the buffer.
  pub host-Run-cut :
      {s u : Session} {ts : List (Turn A Bytes)}
      → Run reader host_datagrams s ts u
      → u.socket.sent ≡ s.socket.sent ++ map buffered (given_from reader host_datagrams whole ts)
  host-Run-cut r =
      Run-given reader host_datagrams whole buffered-payload hr
        (reading-IsLoop buffered host_writer (udp-IsLoop (v4 0 0)).1) r

  -- An empty datagram of the application is taken for the end of the stream.
  empty-ends :
      (addr : SocketAddr) (written : Bool) (now : ℕ) (f : Flow)
      → (client_datagrams addr).wake (received (record { from = addr; content = [] }) written) now f
        ≡ record f { phase = finished closed }
  unfolding udp_to_tunnel_client buffered
  empty-ends addr written now f = ground arith

  -- However the two tasks of a session of a UDP client are interleaved, it has written to the
  -- tunnel the datagrams of its own application that it could write, in order, each up to the
  -- first 1024 bytes, so that only a datagram of no more bytes is whole; and an empty datagram
  -- ends the task.
  pub client-Run-cut :
      (addr : SocketAddr) {s u : Session} {ts : List (Turn A Datagram)}
      → Run reader (client_datagrams addr) s ts u
      → (u.socket.sent
          ≡ s.socket.sent ++ map buffered (given_from reader (client_datagrams addr) (own addr) ts))
        × ((content : Bytes)
            → (length (buffered content) ≤ tunnel_forwarder_buffer_size)
              × (length content ≤ tunnel_forwarder_buffer_size → buffered content ≡ content))
        × ((written : Bool) (now : ℕ) (f : Flow)
            → (client_datagrams addr).wake
                (received (record { from = addr; content = [] }) written)
                now
                f
              ≡ record f { phase = finished closed })
  client-Run-cut addr r = (
    Run-given reader (client_datagrams addr) (own addr) (peeked-payload addr) hr
        (reading-IsLoop peeked (client_writer addr) (udp-IsLoop addr).3) r,
    buffered_bounds,
    empty-ends addr,
  )
