-- ===== src/Tests/Across.antt =====
-- The theorems on connections from end to end at concrete sessions (net/udp.rs).
use lantun.Net.Udp.Datagrams.{client-Run-cut, own, client_datagrams, given_from, Datagram, buffered}
use lantun.Net.Udp.{udp-IsLoop}
use lantun.Tests.Toy.{app}
use lantun.Addr.{addr_eq}
use lantun.Net.Udp.Merged.{stream_reader, one_read, two_datagrams, Runs-merge}
use lantun.Forward.{
  closed, finished, Flow, received, tunnel_forwarder_buffer_size, timeout_of, arming,
}
use lantun.Forward.Session.{
  wake_socket, arm_socket, Turn, done, next, Run, step, fresh, start, Session,
}
use lantun.Base.{
  arith, Bool, true, ◌≤◌, length, zero, Option, suc, Bytes, List, map, ℕ, refl, ◌++◌, [], concat,
  nat_eq, ◌∷◌, ◌≡◌,
}
use lantun.Net.Udp

replicate : ℕ → ℕ → Bytes
replicate zero b = []
replicate (suc n) b = b ∷ replicate n b

-- An application sends `1 2` and then `3`, and the host reads all three bytes at once.
abbrev sent_two : Session
sent_two = record {
  tunnel = fresh;
  socket = record { phase = arming; sent = (1 ∷ 2 ∷ []) ∷ (3 ∷ []) ∷ [] };
  last_active = 0;
}

abbrev got_one : Session
got_one = record {
  tunnel = record { phase = arming; sent = (1 ∷ 2 ∷ 3 ∷ []) ∷ [] };
  socket = fresh;
  last_active = 0;
}

client-Run :
    Run Udp.client_reader
      (client_datagrams app)
      (start 0)
      (two_datagrams app (1 ∷ 2 ∷ []) (3 ∷ []))
      sent_two
unfolding start step Udp.udp_to_tunnel_client Udp.overlay timeout_of addr_eq nat_eq buffered
client-Run = next refl (next (20, refl) (next refl (next (20, refl) done)))

host-Run : Run stream_reader Udp.host_writer (start 0) (one_read (1 ∷ 2 ∷ 3 ∷ [])) got_one
unfolding start step Udp.tunnel_to_udp_host timeout_of nat_eq buffered
host-Run = next refl (next (20, refl) done)

Runs-merge_example :
    (sent_two.socket.sent ≡ (1 ∷ 2 ∷ []) ∷ (3 ∷ []) ∷ [])
    × (concat sent_two.socket.sent ≡ concat got_one.tunnel.sent)
    × (got_one.tunnel.sent ≡ (1 ∷ 2 ∷ 3 ∷ []) ∷ [])
Runs-merge_example = Runs-merge app 1 3 (2 ∷ []) [] (omega arith) client-Run host-Run

-- A datagram of 1025 bytes, of which the last is cut off.
abbrev long_datagram : Datagram
long_datagram = record { from = app; content = replicate 1025 9 }

abbrev one_datagram : List (Turn (Option Bytes) Datagram)
one_datagram = arm_socket 0 ∷ wake_socket 0 (received long_datagram true) ∷ []

abbrev sent_one : Session
sent_one = record {
  tunnel = fresh;
  socket = record { phase = arming; sent = replicate 1024 9 ∷ [] };
  last_active = 0;
}

cut-Run : Run Udp.client_reader (client_datagrams app) (start 0) one_datagram sent_one
unfolding start step Udp.udp_to_tunnel_client Udp.overlay buffered replicate timeout_of addr_eq
    nat_eq
cut-Run = next refl (next (20, refl) done)

client-Run-cut_example :
    (sent_one.socket.sent
      ≡ []
        ++ map buffered
            (given_from Udp.client_reader (client_datagrams app) (own app) one_datagram))
    × ((content : Bytes)
        → (length (buffered content) ≤ tunnel_forwarder_buffer_size)
          × (length content ≤ tunnel_forwarder_buffer_size → buffered content ≡ content))
    × ((written : Bool) (now : ℕ) (f : Flow)
        → (client_datagrams app).wake (received (record { from = app; content = [] }) written) now f
          ≡ record f { phase = finished closed })
unfolding start
client-Run-cut_example = client-Run-cut Udp.client_reader (udp-IsLoop app).2 app cut-Run
