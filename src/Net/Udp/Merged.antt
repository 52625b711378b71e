-- ===== src/Net/Udp/Merged.antt =====
-- Datagrams go through the tunnel as bytes without boundaries (net/udp.rs).
use lantun.Forward.Loop.{reading-IsLoop, reading, Loop}
use lantun.Net.Udp.Datagrams.{peeked, buffered_bounds, client_datagrams, buffered, Datagram}
use mathlib.Core.List.{append-nil}
use mathlib.Core.Option
use lantun.Forward.Delivery.{Run-sent, from_socket, from_tunnel}
use lantun.Net.Udp.{
  overlay_self, udp-IsLoop, client_writer, host_writer, client_reader, host_reader,
}
use lantun.Forward.{tunnel_forwarder_buffer_size, received}
use lantun.Forward.Session.{
  wake_socket, arm_socket, wake_tunnel, arm_tunnel, start, Turn, Run, Session,
}
use lantun.Base.{
  length-append, ◌≤◌, length, refl, ap, ◌∙◌, arith, concat, ◌≡◌, ◌++◌, true, some, [], Option, ◌∷◌,
  List, Bytes, ℕ,
}
use lantun.Addr.{SocketAddr}

-- The host reads the stream once, into its buffer.
abbrev pub stream_reader : Loop (Option Bytes)
stream_reader = reading (Option.map buffered) host_reader

abbrev pub one_read : Bytes → List (Turn (Option Bytes) Bytes)
one_read s = arm_tunnel 0 ∷ wake_tunnel 0 (received (some s) true) ∷ []

one_read-sent :
    (a : ℕ) (s : Bytes)
    → length (a ∷ s) ≤ tunnel_forwarder_buffer_size
    → from_tunnel stream_reader host_writer (one_read (a ∷ s)) ≡ (a ∷ s) ∷ []
unfolding from_tunnel
one_read-sent a s fits = ground (arith, (buffered_bounds (a ∷ s)).1 fits)

module _ (client_local_addr : SocketAddr) where
  -- The application sends two datagrams, one after the other.
  abbrev pub two_datagrams : Bytes → Bytes → List (Turn (Option Bytes) Datagram)
  two_datagrams d e =
      arm_socket 0
      ∷ wake_socket 0 (received (record { from = client_local_addr; content = d }) true)
      ∷ arm_socket 0
      ∷ wake_socket 0 (received (record { from = client_local_addr; content = e }) true)
      ∷ []

  two_datagrams-sent :
      (a b : ℕ) (d e : Bytes)
      → length (a ∷ d) ≤ tunnel_forwarder_buffer_size
      → length (b ∷ e) ≤ tunnel_forwarder_buffer_size
      → from_socket client_reader
          (client_datagrams client_local_addr)
          (two_datagrams (a ∷ d) (b ∷ e))
        ≡ (a ∷ d) ∷ (b ∷ e) ∷ []
  unfolding from_socket
  two_datagrams-sent a b d e fits fits' = ground (
    arith,
    (buffered_bounds (a ∷ d)).1 fits,
    (buffered_bounds (b ∷ e)).1 fits',
    overlay_self (a ∷ d),
    overlay_self (b ∷ e),
  )

  -- If an application sends two datagrams that are not empty to the client, together of at most
  -- 1024 bytes, the size of the buffers, and the host reads their bytes from the stream at once,
  -- then the client has written the two one after the other, and the service is sent one datagram
  -- of the bytes of both.
  pub Runs-merge :
      (a b : ℕ) (d e : Bytes) {u u' : Session}
      → length ((a ∷ d) ++ (b ∷ e)) ≤ tunnel_forwarder_buffer_size
      → Run client_reader
          (client_datagrams client_local_addr)
          (start 0)
          (two_datagrams (a ∷ d) (b ∷ e))
          u
      → Run stream_reader host_writer (start 0) (one_read ((a ∷ d) ++ (b ∷ e))) u'
      → (u.socket.sent ≡ (a ∷ d) ∷ (b ∷ e) ∷ [])
        × (concat u.socket.sent ≡ concat u'.tunnel.sent)
        × (u'.tunnel.sent ≡ ((a ∷ d) ++ (b ∷ e)) ∷ [])
  unfolding start
  Runs-merge a b d e fits r r' =
      let (host_reads, host_writes, client_reads, client_writes) = udp-IsLoop client_local_addr in
      let n = length-append (a ∷ d) (b ∷ e) in
      let two =
        (Run-sent client_reader (client_datagrams client_local_addr) client_reads
          (reading-IsLoop peeked (client_writer client_local_addr) client_writes) r).1
        ∙ two_datagrams-sent a b d e (omega (arith, n, fits)) (omega (arith, n, fits)) in
      let one =
        (Run-sent stream_reader host_writer
          (reading-IsLoop (Option.map buffered) host_reader host_reads) host_writes r').0
        ∙ one_read-sent a (d ++ (b ∷ e)) fits in
      (two, ap concat two ∙ rw (one, append-nil, append-nil) refl, one)
