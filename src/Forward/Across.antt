-- ===== src/Forward/Across.antt =====
-- A connection from end to end: the session of the client, the session of the host, and the stream
-- of the tunnel between them (net/tcp.rs, net/udp.rs).
use lantun.Forward.Delivery.{Run-sent, from_socket, from_tunnel}
use lantun.Base.{◌++◌, ◌≡◌, concat, Bytes, List, ℕ}
use lantun.Forward.Session.{Run, Turn, Session, start}
use lantun.Forward.Loop.{IsLoop, Loop}

module _ {A B A' B' : Type 0} (client_reader : Loop A) (client_writer : Loop B)
    (host_reader : Loop A') (host_writer : Loop B') where
  module _ (cr : IsLoop client_reader) (cw : IsLoop client_writer) (hr : IsLoop host_reader)
      (hw : IsLoop host_writer) where
    -- Two sessions from their starts, one of a client and one of a host, in any interleavings and
    -- with any loops that meet IsLoop: if the stream of the tunnel brings the bytes written to it
    -- in order, up to those on the way, then the service has been sent exactly the bytes that the
    -- client read and could write, up to those on the way, and the application those of the host.
    pub Runs-deliver :
        (now now' : ℕ) {u u' : Session} {ts : List (Turn A B)} {ts' : List (Turn A' B')}
        (on_the_way back : Bytes)
        → Run client_reader client_writer (start now) ts u
        → Run host_reader host_writer (start now') ts' u'
        → concat u.socket.sent ≡ concat (from_tunnel host_reader host_writer ts') ++ on_the_way
        → concat u'.socket.sent ≡ concat (from_tunnel client_reader client_writer ts) ++ back
        → (concat (from_socket client_reader client_writer ts)
            ≡ concat u'.tunnel.sent ++ on_the_way)
          × (concat (from_socket host_reader host_writer ts') ≡ concat u.tunnel.sent ++ back)
    unfolding start
    Runs-deliver now now' on_the_way back r r' there here =
        let (got, gave) = Run-sent client_reader client_writer cr cw r in
        let (got', gave') = Run-sent host_reader host_writer hr hw r' in
        (rw (← gave, got') there, rw (← gave', got) here)
