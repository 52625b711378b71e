-- ===== src/Host/Tunnels.antt =====
-- `HostState`: a tunnel is found under its secret (lantun-core/src/host.rs).
use lantun.Tunnel.{host_tunnel, profile}
use lantun.Map.Laws.{get-insert, insert-NodupKeys}
use lantun.Map.{NodupKeys}
use lantun.Protocol.{TunnelProtocol}
use lantun.Base.{
  refl, true, false, length, arith, some, ◌==◌, bytes_eq, if◌then◌else◌, ok, ◌≡◌, Bytes, Text,
}
use lantun.Addr.{SocketAddr}
use lantun.Host.{
  is_running, HostTunnel, num_active_connections, start, made, HostState, get_tunnel, create_tunnel,
}
use lantun.Runtime.{IsRuntime, Runtime}

module _ (R : Runtime) where
  -- The new tunnel is handed out, and found under its secret only.
  pub create_tunnel-made :
      (tunnels : HostState R) (local_addr : SocketAddr) (name : Text) (secret : Bytes)
      (protocol : TunnelProtocol)
      → let (tunnels', handed) = create_tunnel R tunnels local_addr name secret protocol in
        (handed ≡ ok (made R local_addr name secret protocol))
        × ((j : Bytes)
            → get_tunnel R tunnels' j ≡ (
                if j == secret
                then some (made R local_addr name secret protocol)
                else get_tunnel R tunnels j))
  unfolding create_tunnel get_tunnel
  create_tunnel-made tunnels local_addr name secret protocol = (
    ground (arith, get-insert secret secret (made R local_addr name secret protocol) tunnels),
    λ j. get-insert j secret (made R local_addr name secret protocol) tunnels,
  )

  -- With keys that meet their laws and a secret of 32 bytes: create_tunnel of a host does not
  -- panic and hands out a tunnel that says, by the trait TunnelCommon, that it has the given
  -- secret, protocol, name and address, does not run and counts no connections, and that start
  -- with a bound endpoint sets running; under its secret that tunnel is then found, whatever stood
  -- there, and under any other secret what was found before.
  pub get_tunnel-create_tunnel :
      (tunnels : HostState R) (local_addr : SocketAddr) (name : Text) (secret : Bytes)
      (protocol : TunnelProtocol)
      → IsRuntime R
      → length secret ≡ 32
      → let (tunnels', handed) = create_tunnel R tunnels local_addr name secret protocol in
        (t : HostTunnel R) × (handed ≡ ok t)
        × (profile (host_tunnel R) t ≡ record {
          secret = secret;
          protocol = protocol;
          is_running = false;
          name = name;
          num_active_connections = 0;
          addr = local_addr;
        })
        × ((endpoint : R.Endpoint) (stop_tx : R.StopSender)
            → ((start R (ok endpoint) stop_tx t).1 ≡ ok tt)
              × (is_running R (start R (ok endpoint) stop_tx t).0 ≡ true))
        × ((j : Bytes)
            → get_tunnel R tunnels' j ≡ (if j == secret then some t else get_tunnel R tunnels j))
  unfolding start num_active_connections
  get_tunnel-create_tunnel tunnels local_addr name secret protocol K long =
      let (handed, found) = create_tunnel-made tunnels local_addr name secret protocol in
      (
        made R local_addr name secret protocol,
        handed,
        rw (K.secret_bytes-secret_from secret long) refl,
        λ endpoint stop_tx. (refl, refl),
        found,
      )

  pub create_tunnel-NodupKeys :
      (tunnels : HostState R) (local_addr : SocketAddr) (name : Text) (secret : Bytes)
      (protocol : TunnelProtocol)
      → NodupKeys tunnels
      → NodupKeys (create_tunnel R tunnels local_addr name secret protocol).0
  unfolding create_tunnel
  create_tunnel-NodupKeys tunnels local_addr name secret protocol u =
      insert-NodupKeys secret (made R local_addr name secret protocol) tunnels u
