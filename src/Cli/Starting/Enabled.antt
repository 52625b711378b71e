-- ===== src/Cli/Starting/Enabled.antt =====
-- The flag `enabled` of an entry, which `create_state` does not read (config.rs).
use lantun.Client.{ClientState}
use lantun.Host.{HostState}
use lantun.Base.{bind_ext, codes, refl, [], ◌∷◌, map, ◌≡◌, List, Bool}
use lantun.Runtime.{Runtime}
use lantun.Cli.Config.{
  added, secret_bytes, ClientTunnelEntry, HostTunnelEntry, LanTunConfig, create_clients,
  create_hosts, create_state, Codecs,
}
use lantun.Host
use lantun.Client

abbrev host_with : Bool → HostTunnelEntry → HostTunnelEntry
host_with b t = record t { enabled = b }

abbrev client_with : Bool → ClientTunnelEntry → ClientTunnelEntry
client_with b t = record t { enabled = b }

-- The configuration with every entry enabled, or none.
abbrev pub set_enabled : Bool → LanTunConfig → LanTunConfig
set_enabled b c = record {
  host_tunnels = map (host_with b) c.host_tunnels;
  client_tunnels = map (client_with b) c.client_tunnels;
}

module _ (C : Codecs) (R : Runtime) where
  hosts_alike :
      (b : Bool) (ts : List HostTunnelEntry) (host : HostState R)
      → create_hosts C R (map (host_with b) ts) host ≡ create_hosts C R ts host
  unfolding create_hosts
  hosts_alike b [] host = refl
  hosts_alike b (t ∷ ts) host =
      bind_ext (secret_bytes C (codes "Invalid private secret length") t.private_secret) _ _
        (λ s. hosts_alike b ts (Host.create_tunnel R host t.local t.name s t.protocol).0)

  clients_alike :
      (b : Bool) (ts : List ClientTunnelEntry) (client : ClientState R)
      → create_clients C R (map (client_with b) ts) client ≡ create_clients C R ts client
  unfolding create_clients
  clients_alike b [] client = refl
  clients_alike b (t ∷ ts) client =
      bind_ext (secret_bytes C (codes "Invalid public secret length") t.secret) _ _ (λ s.
        bind_ext (added C R (Client.create_tunnel R client t.local t.name s t.protocol)) _ _
          (λ client'. clients_alike b ts client'))

  -- Enabling or disabling every entry of a configuration makes no difference to the state that is
  -- made of it.
  pub set_enabled-create_state :
      (b : Bool) (c : LanTunConfig) → create_state C R (set_enabled b c) ≡ create_state C R c
  unfolding create_state
  set_enabled-create_state b c =
      rw (hosts_alike b c.host_tunnels [], clients_alike b c.client_tunnels []) refl
