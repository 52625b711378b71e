-- ===== src/Connections.antt =====
-- The local connections of a tunnel (lantun-core/src/common.rs), and their removal (host.rs,
-- client.rs).
use lantun.Addr.{addr_eq, SocketAddr}
use lantun.Base.{false, true, if◌then◌else◌, ℕ, Bool}
use lantun.Map.{remove, contains_key, Map}

pub record LocalClientConnection : Type 0 where
  pub client_local_addr : SocketAddr
  pub client_virtual_addr : SocketAddr
  pub last_active : ℕ

abbrev pub LocalConnections : Type 0
LocalConnections = Map SocketAddr LocalClientConnection

-- `HostTunnel::disconnect_local_client_connection`: the answer, and the map after it.
unfoldable pub disconnect_local_client_connection :
    LocalConnections → LocalClientConnection → Bool × LocalConnections
disconnect_local_client_connection connections c =
    if contains_key c.client_virtual_addr connections
    then (true, remove c.client_virtual_addr connections)
    else (false, connections)

-- `ClientTunnel::disconnect_local_connection`
unfoldable pub disconnect_local_connection :
    LocalConnections → LocalClientConnection → Bool × LocalConnections
disconnect_local_connection connections c =
    if contains_key c.client_local_addr connections
    then (true, remove c.client_local_addr connections)
    else (false, connections)

-- `Client2HostControlMsg`
pub data ControlMsg : Type 0 where
  conn_req : (local_addr : SocketAddr) → ControlMsg
