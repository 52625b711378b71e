-- ===== src/Host.antt =====
-- `HostState` and `HostTunnel` of lantun-core/src/host.rs: the tunnels of a host, and their life.
pub mod Tunnels
pub mod Lifecycle
pub mod Server
pub mod Hosted
pub mod Task
use lantun.Protocol.{TunnelProtocol}
use lantun.Map.{values, get, insert, Map}
use lantun.Connections.{ControlMsg, LocalConnections}
use lantun.Base.{
  not, bytes_eq, if◌then◌else◌, panic, err, none, true, unwrap, ◌+◌, false, length, some, Option,
  ok, ◌∷◌, Bool, Bytes, Eq, List, Outcome, Text, [], ℕ,
}
use lantun.Addr.{SocketAddr}
use lantun.Runtime.{Runtime}

-- Errors of iroh and of the operating system are their messages.
pub data HostError : Type 0 where
  tunnel_already_exists : SocketAddr → HostError
  failed_to_create_endpoint failed_to_accept_connection failed_to_create_stream : Text → HostError
  io_error write_error read_error connection_error : Text → HostError
  tunnel_not_running : HostError
  receive_packet_error : Text → HostError
  unexpected_control_message : ControlMsg → HostError
  tunnel_already_open : HostError

module _ (R : Runtime) where
  open R use {SecretKey, PublicKey, Endpoint, Connection, StopSender}

  instance unfoldable pub peer_eq : Eq PublicKey
  peer_eq = record { dec = R.same_peer }

  pub record ConnectedClient : Type 0 where
    pub local_connections : LocalConnections
    pub connection : Connection

  abbrev pub Clients : Type 0
  Clients = Map PublicKey ConnectedClient

  pub record RunningHostTunnelProps : Type 0 where
    pub connections : Clients
    pub endpoint : Endpoint
    pub stop_tx : StopSender

  pub record HostTunnel : Type 0 where
    pub name : Text
    pub secret : SecretKey
    pub host_addr : SocketAddr
    pub protocol : TunnelProtocol
    pub is_open : Bool
    pub running_props : Option RunningHostTunnelProps

  abbrev pub HostState : Type 0
  HostState = Map Bytes HostTunnel

  -- `HostState::new`
  abbrev pub new : HostState
  new = []

  abbrev pub made : SocketAddr → Text → Bytes → TunnelProtocol → HostTunnel
  made local_addr name secret protocol = record {
    name = name;
    secret = R.secret_from secret;
    host_addr = local_addr;
    protocol = protocol;
    is_open = false;
    running_props = none;
  }

  -- The new state, and the tunnel that the `unwrap` hands out.
  unfoldable pub create_tunnel :
      HostState
      → SocketAddr
      → Text
      → Bytes
      → TunnelProtocol
      → HostState × Outcome HostError HostTunnel
  create_tunnel tunnels local_addr name secret protocol =
      let tunnels' = insert secret (made local_addr name secret protocol) tunnels in
      (tunnels', unwrap (get secret tunnels'))

  unfoldable pub get_tunnel : HostState → Bytes → Option HostTunnel
  get_tunnel tunnels secret = get secret tunnels

  abbrev pub is_running : HostTunnel → Bool
  is_running t = t.is_open

  abbrev opened :
      Outcome Text Endpoint → StopSender → HostTunnel → HostTunnel × Outcome HostError (Unit {0})
  opened (ok endpoint) stop_tx t = (
    record t {
      running_props = some (record { connections = []; endpoint = endpoint; stop_tx = stop_tx });
      is_open = true;
    },
    ok tt,
  )
  opened (err message) stop_tx t = (t, err (failed_to_create_endpoint message))
  opened panic stop_tx t = (t, panic)

  -- `bound` is what the builder of the endpoint gives, and `stop_tx` the new channel's sender.
  unfoldable pub start :
      Outcome Text Endpoint → StopSender → HostTunnel → HostTunnel × Outcome HostError (Unit {0})
  start bound stop_tx t =
      if is_running t then (t, err tunnel_already_open) else opened bound stop_tx t

  abbrev halt :
      Option RunningHostTunnelProps → Bool → HostTunnel → HostTunnel × Outcome HostError (Unit {0})
  halt none sent t = (record t { is_open = false }, ok tt)
  halt (some props) sent t =
      if sent
      then (record t { running_props = none; is_open = false }, ok tt)
      else (record t { running_props = none }, panic)

  -- `sent` is the result of `stop_tx.send(true)`, whose `unwrap` may panic.
  unfoldable pub stop : Bool → HostTunnel → HostTunnel × Outcome HostError (Unit {0})
  stop sent t = if not (is_running t) then (t, ok tt) else halt t.running_props sent t

  unfoldable pub num_clients : HostTunnel → ℕ
  num_clients t = elim t.running_props [ none ↦ 0 | some props ↦ length props.connections ]

  abbrev count_local : List ConnectedClient → ℕ
  count_local [] = 0
  count_local (c ∷ cs) = length c.local_connections + count_local cs

  unfoldable pub num_active_connections : HostTunnel → ℕ
  num_active_connections t = elim t.running_props [
    | none ↦ 0
    | some props ↦ count_local (values props.connections)
  ]
