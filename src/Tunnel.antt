-- ===== src/Tunnel.antt =====
-- The trait `TunnelCommon` of lantun-core/src/common.rs, and its implementations by `HostTunnel` and
-- `ClientTunnel` (host.rs, client.rs).
use lantun.Addr.{SocketAddr}
use lantun.Protocol.{TunnelProtocol}
use lantun.Base.{ℕ, Text, Bool, Bytes}
use lantun.Runtime.{Runtime}
use lantun.Host
use lantun.Client
use lantun.Client.{ClientTunnel}
use lantun.Host.{HostTunnel}

pub record TunnelCommon (T : Type 0) : Type 0 where
  pub secret : T → Bytes
  pub protocol : T → TunnelProtocol
  pub is_running : T → Bool
  pub name : T → Text
  pub num_active_connections : T → ℕ
  pub addr : T → SocketAddr

module _ (R : Runtime) where
  abbrev pub host_tunnel : TunnelCommon (HostTunnel R)
  host_tunnel = record {
    secret = λ t. R.secret_bytes t.secret;
    protocol = λ t. t.protocol;
    is_running = Host.is_running R;
    name = λ t. t.name;
    num_active_connections = Host.num_active_connections R;
    addr = λ t. t.host_addr;
  }

  abbrev pub client_tunnel : TunnelCommon (ClientTunnel R)
  client_tunnel = record {
    secret = λ t. R.public_bytes t.secret;
    protocol = λ t. t.protocol;
    is_running = Client.is_running R;
    name = λ t. t.name;
    num_active_connections = Client.num_active_connections R;
    addr = λ t. t.tunnel_addr;
  }

-- What a tunnel says of itself.
pub record Profile : Type 0 where
  pub secret : Bytes
  pub protocol : TunnelProtocol
  pub is_running : Bool
  pub name : Text
  pub num_active_connections : ℕ
  pub addr : SocketAddr

abbrev pub profile : {T : Type 0} → TunnelCommon T → T → Profile
profile common t = record {
  secret = common.secret t;
  protocol = common.protocol t;
  is_running = common.is_running t;
  name = common.name t;
  num_active_connections = common.num_active_connections t;
  addr = common.addr t;
}
