-- ===== src/Link/Reached.antt =====
-- An application of the client reaches the host (client.rs, host.rs, common.rs).
use lantun.Host.Server.Failed.{with_local}
use lantun.Map.Laws.{get-insert}
use mathlib.Core.Option.{some-injective}
use lantun.Connections.{conn_req, ControlMsg}
use lantun.Packets.{
  receive_packet-decoded, finish, bytes, receive_packet, send_packet, ReceivePacketError, Read,
  SendCalls,
}
use lantun.Map.{insert, get}
use lantun.Link.{
  client_shows, here, received, server_answers, whole, client_opens, next, Steps, Link,
  IsPacketCodec, PacketCodec, IsNew,
}
use lantun.Host.{ConnectedClient, peer_eq}
use lantun.Client.Listener.{open_local, Listener}
use lantun.Host.Server.{Server, Request}
use mathlib.Core.List.{append-nil}
use mathlib.Core.Path.{subst}
use lantun.Link.Queues.{send_packet-whole}
use lantun.Base.{
  length, arith, ap, ◌∙◌, sym, map_err, ◌∷◌, ◌++◌, map, concat, Outcome, Bytes, List, [], Option,
  refl, ok, some, none, ◌≡◌, Eq,
}
use lantun.Addr.{without_scope, addr_eq, SocketAddr}
use lantun.Protocol.{udp, tcp, TunnelProtocol}
use lantun.Runtime.{Runtime}
use lantun.Client.Listener
use lantun.Host.Server

-- The client's task that opens the stream for a new application.
opened-phase :
    (protocol : TunnelProtocol) (addr : SocketAddr) (s : Listener) (p : Listener.Phase)
    → p ≡ Listener.listening
    → IsNew protocol addr s
    → Listener.dispatch protocol p (Listener.incoming addr none none) s
      ≡ open_local addr none none s
opened-phase tcp addr s Listener.listening at new = refl
opened-phase udp addr s Listener.listening at new = rw new refl
opened-phase protocol addr s Listener.binding at new = cc
opened-phase protocol addr s (Listener.forwarding l) at new = cc
opened-phase protocol addr s (Listener.ended r) at new = cc

module _ (R : Runtime) (protocol : TunnelProtocol) (tunnel_local_addr : SocketAddr) where
  instance abbrev peers : Eq R.PublicKey
  peers = peer_eq R

  request-opened :
      (r : Request) (peer : R.PublicKey) (c : ConnectedClient R) (addr : SocketAddr) (s : Server R)
      (p : Server.Phase R)
      → p ≡ Server.serving peer
      → get peer s.clients ≡ some c
      → Server.requested r ≡ ok addr
      → Server.open_socket protocol tunnel_local_addr
          (Server.local_connection addr).client_virtual_addr
          r
        ≡ ok tt
      → let l = Server.local_connection addr in
        let c' : ConnectedClient R = record c {
          local_connections = insert l.client_virtual_addr l c.local_connections;
        } in
        Server.dispatch R protocol tunnel_local_addr p (Server.request r) s
        ≡ record { phase = Server.forwarding peer l; clients = insert peer c' s.clients }
  unfolding Server.handle_request Server.add_local
  request-opened r peer c addr s p at h asked opened = rw (at, asked, h, opened) refl

  module _ (C : PacketCodec) (L : IsPacketCodec C) (peer : R.PublicKey)
      (client_protocol : TunnelProtocol) where
    -- No stream is on the way.
    abbrev pub idle : Listener → Server R → Option SocketAddr → Link R
    idle client server current = record {
      client = client;
      server = server;
      streams = [];
      shown = 0;
      requests = [];
      current = current;
    }

    -- If no stream is on the way, a client that listens accepts a new application, its message
    -- goes out in full, with a codec that keeps the kind, IP and port of an address, and the host,
    -- which serves the client and knows it, gets the bytes in any pieces and can open its socket,
    -- then there are steps after which both forward for that application, on the stream opened for
    -- it, and both maps have the connection; that of the host has no flow and scope.
    pub application-reaches :
        (client : Listener) (server : Server R) (current : Option SocketAddr)
        (c : ConnectedClient R) (addr : SocketAddr) (calls : SendCalls) (chunks : List Bytes)
        (rest : List Read) (p : Outcome ReceivePacketError ControlMsg) (r : Request)
        → client.phase ≡ Listener.listening
        → IsNew client_protocol addr client
        → server.phase ≡ Server.serving peer
        → get peer server.clients ≡ some c
        → send_packet C.encode (conn_req addr) calls ≡ (none, some (concat chunks))
        → receive_packet C.decode none (map bytes chunks ++ (finish ∷ rest)) ≡ some p
        → r.packet ≡ map_err C.shown p
        → r.stream_error ≡ none
        → Server.open_socket protocol tunnel_local_addr
            (Server.local_connection (without_scope addr)).client_virtual_addr
            r
          ≡ ok tt
        → (t : Link R) × Steps R C peer client_protocol protocol tunnel_local_addr
            (idle client server current)
            t
          × (t.client.phase ≡ Listener.forwarding (Listener.local_connection addr))
          × (get addr t.client.local_connections ≡ some (Listener.local_connection addr))
          × (t.server.phase ≡ Server.forwarding peer (Server.local_connection (without_scope addr)))
          × (get peer t.server.clients
              ≡ some (with_local R protocol tunnel_local_addr (without_scope addr) c))
          × (t.current ≡ some addr)
    unfolding Listener.on_event Server.on_event
    application-reaches client server current c addr calls chunks rest p r at new serving known sent
          read packet stream opened =
        let enc = send_packet-whole C (conn_req addr) calls (concat chunks) (ap (λ x. x.1) sent) in
        let message = enc ∙ append-nil (concat chunks) in
        let law =
          subst
            (λ b.
              C.decode b ≡ ok (conn_req (without_scope addr), length (C.encode (conn_req addr))))
            message (L.decode-encode addr) in
        let got : p ≡ ok (conn_req (without_scope addr)) =
          some-injective _ _
            (sym read ∙ receive_packet-decoded C.decode chunks rest ∙ rw law refl) in
        let said : r.packet ≡ ok (conn_req (without_scope addr)) =
          packet ∙ ap (map_err C.shown) got in
        let asked : Server.requested r ≡ ok (without_scope addr) = rw (stream, said) refl in
        let opens =
          ap
            (λ o.
              Listener.dispatch client_protocol client.phase (Listener.incoming addr none o) client)
            (ap (λ x. x.0) sent)
          ∙ opened-phase client_protocol addr client client.phase at new in
        let answers =
          request-opened r peer c (without_scope addr) server server.phase serving known asked
            opened in
        (
          _,
          next
              (client_opens (idle client server current) addr calls (concat chunks ∷ []) at new
                (whole (concat chunks) (ap (λ x. x.1) sent)))
              (next (client_shows _) (
                next
                  (server_answers _ r [] [] (some addr) serving
                    (received addr [] chunks [] rest p stream read packet) (omega arith))
                  here)),
          ap (λ s. s.phase) opens,
          ap (λ s. get addr s.local_connections) opens
              ∙ (get-insert addr addr (Listener.local_connection addr) client.local_connections
                  ∙ ground arith),
          ap (λ s. s.phase) answers,
          ap (λ s. get peer s.clients) answers
              ∙ (get-insert peer peer
                    (with_local R protocol tunnel_local_addr (without_scope addr) c) server.clients
                  ∙ ground arith),
          refl,
        )
