-- ===== src/Cli/Edits.antt =====
-- What a command means for the configuration, with no file and no indices (main.rs).
use lantun.Protocol.{TunnelProtocol}
use lantun.Addr.{SocketAddr}
use lantun.Cli.Entries.{
  remove_first-IsDistinct, remove_first, remove_first-IsSorted, sorted_push-IsDistinct, IsDistinct,
}
use lantun.Base.{
  panic, [], err, ok, ◌∷◌, inr, ◌++◌, inl, Bool-cases, Bytes, if◌then◌else◌, Text, arith, false,
  List, Outcome, ◌≡◌,
}
use lantun.Runtime.{Runtime}
use lantun.Cli.Commands.{
  list_tunnels, client_named, client_entry, host_named, remove_tunnel, add_client_tunnel,
  host_entry, client_name, with_client, with_host, create_host_tunnel, Action, any, host_name,
  client_at, host_at,
}
use lantun.Cli.Sorting.{sort_by-IsSorted, IsSorted}
use lantun.Cli.Config.{ClientTunnelEntry, Codecs, HostTunnelEntry, LanTunConfig}

-- Sorted by name, and no two host tunnels, and no two client tunnels, with one local address and
-- protocol.
pub record IsTidy (c : LanTunConfig) : Type 0 where
  pub hosts_sorted : IsSorted host_name c.host_tunnels
  pub hosts_distinct : IsDistinct (λ x. host_at x.local x.protocol) c.host_tunnels
  pub clients_sorted : IsSorted client_name c.client_tunnels
  pub clients_distinct : IsDistinct (λ x. client_at x.local x.protocol) c.client_tunnels

host_at_symmetric :
    (x y : HostTunnelEntry) → host_at x.local x.protocol y ≡ host_at y.local y.protocol x
host_at_symmetric x y = ground arith

client_at_symmetric :
    (x y : ClientTunnelEntry) → client_at x.local x.protocol y ≡ client_at y.local y.protocol x
client_at_symmetric x y = ground arith

module _ (C : Codecs) (R : Runtime) where
  abbrev pub edit_client :
      Outcome Text Bytes → SocketAddr → TunnelProtocol → Text → LanTunConfig → LanTunConfig
  edit_client (ok secret) local protocol name c =
      if any (client_at local protocol) c.client_tunnels
      then c
      else with_client C R (client_entry C R secret local protocol name) c
  edit_client _ local protocol name c = c

  -- An entry for a new address and protocol is added in its place by name; a removal takes the first
  -- host tunnel of that name, or else the first client tunnel.
  unfoldable pub edit : R.SecretKey → Action → LanTunConfig → LanTunConfig
  edit key (create_host_tunnel local protocol name) c =
      if any (host_at local protocol) c.host_tunnels
      then c
      else with_host C R (host_entry C R key local protocol name) c
  edit key (add_client_tunnel secret local protocol name) c =
      edit_client (C.hex_decode secret) local protocol name c
  edit key list_tunnels c = c
  edit key (remove_tunnel name) c =
      if any (host_named name) c.host_tunnels
      then record c { host_tunnels = remove_first (host_named name) c.host_tunnels }
      else record c { client_tunnels = remove_first (client_named name) c.client_tunnels }

  unfoldable pub edits : List (R.SecretKey × Action) → LanTunConfig → LanTunConfig
  edits [] c = c
  edits ((key, action) ∷ more) c = edits more (edit key action c)

  with_host-IsTidy :
      (t : HostTunnelEntry) (c : LanTunConfig)
      → any (host_at t.local t.protocol) c.host_tunnels ≡ false
      → IsTidy c
      → IsTidy (with_host C R t c)
  with_host-IsTidy t c h v = record {
    hosts_sorted = sort_by-IsSorted host_name (c.host_tunnels ++ (t ∷ []));
    hosts_distinct =
        sorted_push-IsDistinct host_name (λ x. host_at x.local x.protocol) host_at_symmetric
          c.host_tunnels t h v.hosts_distinct;
    clients_sorted = v.clients_sorted;
    clients_distinct = v.clients_distinct;
  }

  with_client-IsTidy :
      (t : ClientTunnelEntry) (c : LanTunConfig)
      → any (client_at t.local t.protocol) c.client_tunnels ≡ false
      → IsTidy c
      → IsTidy (with_client C R t c)
  with_client-IsTidy t c h v = record {
    hosts_sorted = v.hosts_sorted;
    hosts_distinct = v.hosts_distinct;
    clients_sorted = sort_by-IsSorted client_name (c.client_tunnels ++ (t ∷ []));
    clients_distinct =
        sorted_push-IsDistinct client_name (λ x. client_at x.local x.protocol) client_at_symmetric
          c.client_tunnels t h v.clients_distinct;
  }

  edit_client-IsTidy :
      (b : Outcome Text Bytes) (local : SocketAddr) (protocol : TunnelProtocol) (name : Text)
      (c : LanTunConfig)
      → IsTidy c
      → IsTidy (edit_client b local protocol name c)
  edit_client-IsTidy (err e) local protocol name c v = v
  edit_client-IsTidy panic local protocol name c v = v
  edit_client-IsTidy (ok secret) local protocol name c v =
      elim (Bool-cases (any (client_at local protocol) c.client_tunnels)) [
        | inl e ↦ rw e v
        | inr e ↦ rw e (with_client-IsTidy (client_entry C R secret local protocol name) c e v)
      ]

  edit-IsTidy :
      (key : R.SecretKey) (action : Action) (c : LanTunConfig)
      → IsTidy c
      → IsTidy (edit key action c)
  unfolding edit
  edit-IsTidy key (create_host_tunnel local protocol name) c v =
      elim (Bool-cases (any (host_at local protocol) c.host_tunnels)) [
        | inl e ↦ rw e v
        | inr e ↦ rw e (with_host-IsTidy (host_entry C R key local protocol name) c e v)
      ]
  edit-IsTidy key (add_client_tunnel secret local protocol name) c v =
      edit_client-IsTidy (C.hex_decode secret) local protocol name c v
  edit-IsTidy key list_tunnels c v = v
  edit-IsTidy key (remove_tunnel name) c v =
      elim (Bool-cases (any (host_named name) c.host_tunnels)) [
        | inl e ↦ rw e (record {
          hosts_sorted =
              remove_first-IsSorted host_name (host_named name) c.host_tunnels v.hosts_sorted;
          hosts_distinct =
              remove_first-IsDistinct (λ x. host_at x.local x.protocol) (host_named name)
                c.host_tunnels v.hosts_distinct;
          clients_sorted = v.clients_sorted;
          clients_distinct = v.clients_distinct;
        })
        | inr e ↦ rw e (record {
          hosts_sorted = v.hosts_sorted;
          hosts_distinct = v.hosts_distinct;
          clients_sorted =
              remove_first-IsSorted client_name (client_named name) c.client_tunnels
                v.clients_sorted;
          clients_distinct =
              remove_first-IsDistinct (λ x. client_at x.local x.protocol) (client_named name)
                c.client_tunnels v.clients_distinct;
        })
      ]

  -- Over any sequence of commands a tidy configuration stays tidy: its entries are sorted by name,
  -- and no two host entries, and no two client entries, have one local address and protocol.
  pub edits-IsTidy :
      (actions : List (R.SecretKey × Action)) (c : LanTunConfig)
      → IsTidy c
      → IsTidy (edits actions c)
  unfolding edits
  edits-IsTidy [] c v = v
  edits-IsTidy ((key, action) ∷ more) c v =
      edits-IsTidy more (edit key action c) (edit-IsTidy key action c v)
