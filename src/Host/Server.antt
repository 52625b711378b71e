-- ===== src/Host/Server.antt =====
-- The task that `HostTunnel::start` spawns, with `HostTunnel::handle_connection`, which it awaits
-- (lantun-core/src/host.rs). What is awaited from outside comes as an event.
pub mod Peers
pub mod Moves
pub mod Served
pub mod Safety
pub mod Failed
pub mod Stopped
use lantun.Map.{contains_key, insert, get}
use lantun.Host.{
  peer_eq, receive_packet_error, connection_error, io_error, ConnectedClient, Clients, HostError,
}
use lantun.Base.{
  Eq, map_err, unwrap, ◌>>=◌, none, panic, err, ◌∷◌, Bool, List, if◌then◌else◌, ok, Text, [], some,
  Option, Outcome,
}
use lantun.Runtime.{Runtime}
use lantun.Connections.{
  disconnect_local_client_connection, conn_req, LocalClientConnection, LocalConnections, ControlMsg,
}
use lantun.Addr.{addr_eq, is_ipv4, SocketAddr, get_unspecified}
use lantun.Protocol.{udp, tcp, TunnelProtocol}

-- The results of one round of `handle_connection`, up to the forwarder.
pub record Request : Type 0 where
  pub stream_error : Option Text
  pub packet : Outcome Text ControlMsg
  -- `TcpSocket::new_v4` and `new_v6`
  pub socket_error : Option Text
  -- `bind`, by the family of the socket (true for IPv4) and the address
  pub bind_error : Bool → SocketAddr → Option Text
  -- `connect`, by the two addresses
  pub connect_error : SocketAddr → SocketAddr → Option Text
  -- whether `peer_addr` of a connected UDP socket is `Ok`
  pub has_peer : Bool

-- `?` on the result of a call that gives nothing else.
abbrev pub check : Option Text → (Text → HostError) → Outcome HostError (Unit {0})
check none kind = ok tt
check (some message) kind = err (kind message)

abbrev pub local_addr_of : ControlMsg → SocketAddr
local_addr_of (conn_req local_addr) = local_addr

-- `accept_bi`, `receive_packet` and the match on the message.
abbrev pub requested : Request → Outcome HostError SocketAddr
requested r = do
  _ ← check r.stream_error connection_error
  msg ← map_err receive_packet_error r.packet
  ok (local_addr_of msg)

unfoldable pub local_connection : SocketAddr → LocalClientConnection
unfolding get_unspecified
local_connection local_addr = record {
  client_local_addr = local_addr;
  client_virtual_addr = get_unspecified (is_ipv4 local_addr);
  last_active = 0;
}

-- The match on the protocol, up to the loops of the forwarder.
unfoldable pub open_socket :
    TunnelProtocol → SocketAddr → SocketAddr → Request → Outcome HostError (Unit {0})
open_socket tcp tunnel_local_addr virtual r = do
  _ ← check r.socket_error io_error
  _ ← check (r.bind_error (is_ipv4 tunnel_local_addr) virtual) io_error
  check (r.connect_error virtual tunnel_local_addr) io_error
open_socket udp tunnel_local_addr virtual r = do
  _ ← check (r.bind_error (is_ipv4 virtual) virtual) io_error
  _ ← check (r.connect_error virtual tunnel_local_addr) io_error
  if r.has_peer then ok tt else panic

module _ (R : Runtime) where
  open R use {PublicKey, Connection}

  instance abbrev peers : Eq PublicKey
  peers = peer_eq R

  -- Where the task waits: for a connection, for a request of the client that it serves, or for the
  -- forwarder of one local connection.
  pub data Phase : Type 0 where
    accepting : Phase
    serving : PublicKey → Phase
    forwarding : PublicKey → LocalClientConnection → Phase
    crashed : Phase

  pub record Server : Type 0 where
    pub phase : Phase
    pub clients : Clients R

  pub data Event : Type 0 where
    -- `accept` gives `None`, or the handshake fails.
    no_connection handshake_failed : Event
    -- A connection, whose node id may be missing.
    incoming : Option PublicKey → Connection → Event
    request : Request → Event
    -- `bi_tcp_stream_host` or `bi_udp_host` returns.
    forwarded : Event

  unfoldable pub accept : Option PublicKey → Connection → Server → Server
  accept none conn s = record s { phase = crashed }
  accept (some peer) conn s = if contains_key peer s.clients then s else record {
    phase = serving peer;
    clients = insert peer (record { local_connections = []; connection = conn }) s.clients;
  }

  abbrev pub change_client :
      (LocalConnections → LocalConnections) → PublicKey → ConnectedClient R → Clients R → Clients R
  change_client f peer c clients =
      insert peer (record c { local_connections = f c.local_connections }) clients

  -- `get_mut(…).unwrap()` and the insertion under the virtual address.
  unfoldable pub add_local :
      PublicKey → LocalClientConnection → Clients R → Outcome HostError (Clients R)
  add_local peer l clients = do
    c ← unwrap (get peer clients)
    ok (change_client (insert l.client_virtual_addr l) peer c clients)

  -- The forwarder's last act, on the map that it shares with the client's entry.
  unfoldable pub drop_local : PublicKey → LocalClientConnection → Clients R → Clients R
  drop_local peer l clients = elim (get peer clients) [
    | none ↦ clients
    | some c ↦ change_client (λ m. (disconnect_local_client_connection m l).1) peer c clients
  ]

  module _ (protocol : TunnelProtocol) (tunnel_local_addr : SocketAddr) where
    -- An error ends `handle_connection`, is logged, and the next connection is awaited.
    abbrev pub after_open : Outcome HostError (Unit {0}) → PublicKey → LocalClientConnection → Phase
    after_open (ok _) peer l = forwarding peer l
    after_open (err e) peer l = accepting
    after_open panic peer l = crashed

    abbrev pub after_add :
        Outcome HostError (Clients R)
        → Request
        → PublicKey
        → LocalClientConnection
        → Server
        → Server
    after_add (ok clients) r peer l s = record {
      phase = after_open (open_socket protocol tunnel_local_addr l.client_virtual_addr r) peer l;
      clients = clients;
    }
    after_add (err e) r peer l s = record s { phase = accepting }
    after_add panic r peer l s = record s { phase = crashed }

    abbrev pub after_request : Outcome HostError SocketAddr → Request → PublicKey → Server → Server
    after_request (ok local_addr) r peer s =
        let l = local_connection local_addr in after_add (add_local peer l s.clients) r peer l s
    after_request (err e) r peer s = record s { phase = accepting }
    after_request panic r peer s = record s { phase = crashed }

    -- One round of the loop of `handle_connection`.
    unfoldable pub handle_request : Request → PublicKey → Server → Server
    handle_request r peer s = after_request (requested r) r peer s

    abbrev pub dispatch : Phase → Event → Server → Server
    dispatch accepting (incoming peer conn) s = accept peer conn s
    dispatch (serving peer) (request r) s = handle_request r peer s
    dispatch (forwarding peer l) forwarded s = record {
      phase = serving peer;
      clients = drop_local peer l s.clients;
    }
    dispatch _ _ s = s

    -- An event that the task does not wait for leaves it alone; so do, in its loop, a missing
    -- connection and a failed handshake.
    unfoldable pub on_event : Event → Server → Server
    on_event e s = dispatch s.phase e s

    unfoldable pub run : List Event → Server → Server
    unfolding on_event
    run [] s = s
    run (e ∷ es) s = run es (on_event e s)

  -- The task as `start` spawns it.
  abbrev pub spawned : Server
  spawned = record { phase = accepting; clients = [] }
