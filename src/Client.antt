-- ===== src/Client.antt =====
-- `ClientState` and `ClientTunnel` of lantun-core/src/client.rs: the tunnels of a client.
pub mod Tunnels
pub mod Listener
pub mod Lifecycle
pub mod Task
use lantun.Connections.{LocalConnections}
use lantun.Protocol.{TunnelProtocol, protocol_eq}
use lantun.Map.{insert, contains_key, get, Map}
use lantun.Runtime.{Runtime}
use lantun.Addr.{SocketAddr, addr_eq}
use lantun.Base.{
  unwrap, length, true, err, none, not, some, Eq, false, if◌then◌else◌, ok, panic, Bool, Bytes,
  Option, Outcome, [], ℕ, Text,
}

-- Errors of iroh and of the operating system are their messages.
pub data ClientError : Type 0 where
  failed_to_create_endpoint : Text → ClientError
  io_error write_error read_error : Text → ClientError
  tunnel_already_exists : SocketAddr → TunnelProtocol → ClientError
  failed_to_connect failed_to_accept_stream connection_error : Text → ClientError
  already_connected not_connected : ClientError

abbrev pub TunnelKey : Type 0
TunnelKey = SocketAddr × TunnelProtocol

TunnelKey-discrete : Discrete TunnelKey
TunnelKey-discrete = hlevel (addr_eq.dec, protocol_eq.dec)

instance unfoldable pub key_eq : Eq TunnelKey
unfolding TunnelKey-discrete addr_eq protocol_eq
key_eq = record { dec = TunnelKey-discrete }

module _ (R : Runtime) where
  open R use {PublicKey, Endpoint, Connection, StopSender}

  pub record RunningClientTunnelProps : Type 0 where
    pub local_connections : LocalConnections
    pub endpoint : Endpoint
    pub connection : Connection
    pub stop_tx : StopSender

  pub record ClientTunnel : Type 0 where
    pub name : Text
    pub secret : PublicKey
    pub tunnel_addr : SocketAddr
    pub protocol : TunnelProtocol
    pub is_connected : Bool
    pub running_props : Option RunningClientTunnelProps

  abbrev pub ClientState : Type 0
  ClientState = Map TunnelKey ClientTunnel

  -- `ClientState::new`
  abbrev pub new : ClientState
  new = []

  abbrev pub made : SocketAddr → Text → PublicKey → TunnelProtocol → ClientTunnel
  made local_addr name key protocol = record {
    name = name;
    secret = key;
    tunnel_addr = local_addr;
    protocol = protocol;
    is_connected = false;
    running_props = none;
  }

  abbrev pub add_made :
      Option PublicKey
      → ClientState
      → SocketAddr
      → Text
      → TunnelProtocol
      → ClientState × Outcome ClientError ClientTunnel
  add_made none tunnels local_addr name protocol = (tunnels, panic)
  add_made (some key) tunnels local_addr name protocol =
      let tunnels' = insert (local_addr, protocol) (made local_addr name key protocol) tunnels in
      (tunnels', unwrap (get (local_addr, protocol) tunnels'))

  -- `PublicKey::from_bytes(…).unwrap()` panics where the bytes are no key.
  unfoldable pub create_tunnel :
      ClientState
      → SocketAddr
      → Text
      → Bytes
      → TunnelProtocol
      → ClientState × Outcome ClientError ClientTunnel
  create_tunnel tunnels local_addr name secret protocol =
      if contains_key (local_addr, protocol) tunnels
      then (tunnels, err (tunnel_already_exists local_addr protocol))
      else add_made (R.public_from secret) tunnels local_addr name protocol

  unfoldable pub get_tunnel : ClientState → SocketAddr → TunnelProtocol → Option ClientTunnel
  get_tunnel tunnels local_addr protocol = get (local_addr, protocol) tunnels

  abbrev pub is_running : ClientTunnel → Bool
  is_running t = t.is_connected

  abbrev pub dialed :
      Outcome Text Connection
      → Endpoint
      → StopSender
      → ClientTunnel
      → ClientTunnel × Outcome ClientError (Unit {0})
  dialed (ok conn) endpoint stop_tx t = (
    record t {
      running_props = some (record {
        local_connections = [];
        endpoint = endpoint;
        connection = conn;
        stop_tx = stop_tx;
      });
      is_connected = true;
    },
    ok tt,
  )
  dialed (err message) endpoint stop_tx t = (t, err (failed_to_connect message))
  dialed panic endpoint stop_tx t = (t, panic)

  abbrev pub bound :
      Outcome Text Endpoint
      → Outcome Text Connection
      → StopSender
      → ClientTunnel
      → ClientTunnel × Outcome ClientError (Unit {0})
  bound (ok endpoint) conn stop_tx t = dialed conn endpoint stop_tx t
  bound (err message) conn stop_tx t = (t, err (failed_to_create_endpoint message))
  bound panic conn stop_tx t = (t, panic)

  -- The endpoint's builder and the dialling give `endpoint` and `conn`.
  unfoldable pub connect :
      Outcome Text Endpoint
      → Outcome Text Connection
      → StopSender
      → ClientTunnel
      → ClientTunnel × Outcome ClientError (Unit {0})
  connect endpoint conn stop_tx t =
      if is_running t then (t, err already_connected) else bound endpoint conn stop_tx t

  abbrev pub halt :
      Option RunningClientTunnelProps
      → Bool
      → ClientTunnel
      → ClientTunnel × Outcome ClientError (Unit {0})
  halt none sent t = (record t { is_connected = false }, ok tt)
  halt (some props) sent t =
      if sent
      then (record t { running_props = none; is_connected = false }, ok tt)
      else (record t { running_props = none }, panic)

  -- `sent` is the result of `stop_tx.send(true)`, whose `unwrap` may panic.
  unfoldable pub disconnect : Bool → ClientTunnel → ClientTunnel × Outcome ClientError (Unit {0})
  disconnect sent t =
      if not (is_running t) then (t, err not_connected) else halt t.running_props sent t

  unfoldable pub num_active_connections : ClientTunnel → ℕ
  num_active_connections t = elim t.running_props [
    | none ↦ 0
    | some props ↦ length props.local_connections
  ]
