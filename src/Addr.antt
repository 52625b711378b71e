-- ===== src/Addr.antt =====
-- Socket addresses (std::net), and `get_unspecified` of lantun-core/src/lib.rs.
use lantun.Base.{ℕ, Bool, true, false, Eq, nat_eq, if◌then◌else◌}

-- `std::net::SocketAddr`: an address as a number of 32 or 128 bits, and a port.
pub data SocketAddr : Type 0 where
  v4 : (ip port : ℕ) → SocketAddr
  v6 : (ip port flowinfo scope_id : ℕ) → SocketAddr

SocketAddr-discrete : Discrete SocketAddr
SocketAddr-discrete = hlevel nat_eq.dec

instance unfoldable pub addr_eq : Eq SocketAddr
unfolding SocketAddr-discrete nat_eq
addr_eq = record { dec = SocketAddr-discrete }

abbrev pub is_ipv4 : SocketAddr → Bool
is_ipv4 (v4 ip port) = true
is_ipv4 (v6 ip port flowinfo scope_id) = false

abbrev pub ip_unspecified : ℕ
ip_unspecified = 0

unfoldable pub get_unspecified : Bool → SocketAddr
get_unspecified ip4 = if ip4 then v4 ip_unspecified 0 else v6 ip_unspecified 0 0 0

-- What bincode keeps of an address: of one with a scope, as fe80::1%2, neither that nor the flow.
abbrev pub without_scope : SocketAddr → SocketAddr
without_scope (v4 ip port) = v4 ip port
without_scope (v6 ip port flowinfo scope_id) = v6 ip port 0 0
