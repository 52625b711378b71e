-- ===== src/Tests/Tunnels.antt =====
-- The theorems on the tunnels of a host and of a client at concrete inputs (host.rs, client.rs).
use lantun.Tunnel.{client_tunnel, host_tunnel, profile}
use lantun.Tests.Keys.{bob, keys-IsRuntime, keys}
use lantun.Map.{get}
use lantun.Protocol.{tcp, udp}
use lantun.Base.{
  false, ℕ, Outcome, bytes_eq, panic, ◌==◌, if◌then◌else◌, refl, err, some, ◌≡◌, [], codes, ok,
  true, ◌∷◌, Bytes, Text,
}
use lantun.Tests.Toy.{toy_send-IsWatch, app, game, toy_send, toy}
use lantun.Client.{key_eq}
use lantun.Host
use lantun.Client
use lantun.Host.Lifecycle as HostLife
use lantun.Client.Lifecycle as ClientLife
use lantun.Client.Tunnels as ClientTunnels
use lantun.Host.Tunnels.{get_tunnel-create_tunnel}
use lantun.Client.Listener.{ended}

abbrev secret : Bytes
secret = 1 ∷ 2 ∷ []

abbrev mc : Text
mc = codes "mc"

-- The 32 bytes of a key, under which an old tunnel stands.
abbrev key_bytes : Bytes
key_bytes = bob.0

abbrev old : Host.HostState keys
old = (key_bytes, Host.made keys app (codes "old") key_bytes udp) ∷ []

get_tunnel-create_tunnel_example :
    let (tunnels', handed) = Host.create_tunnel keys old game mc key_bytes tcp in
    (t : Host.HostTunnel keys) × (handed ≡ ok t)
    × (profile (host_tunnel keys) t ≡ record {
      secret = key_bytes;
      protocol = tcp;
      is_running = false;
      name = mc;
      num_active_connections = 0;
      addr = game;
    })
    × ((endpoint stop_tx : ℕ)
        → ((Host.start keys (ok endpoint) stop_tx t).1 ≡ ok tt)
          × (Host.is_running keys (Host.start keys (ok endpoint) stop_tx t).0 ≡ true))
    × ((j : Bytes)
        → Host.get_tunnel keys tunnels' j
          ≡ (if j == key_bytes then some t else Host.get_tunnel keys old j))
get_tunnel-create_tunnel_example =
    get_tunnel-create_tunnel keys old game mc key_bytes tcp keys-IsRuntime bob.1

abbrev host : Host.HostTunnel toy
host = Host.made toy game mc secret tcp

abbrev client : Client.ClientTunnel toy
client = Client.made toy app mc secret tcp

calls-IsConsistent_example :
    HostLife.IsConsistent toy
      (HostLife.calls toy (HostLife.starts (ok 3) 4 ∷ HostLife.stops true ∷ []) host)
calls-IsConsistent_example =
    HostLife.calls-IsConsistent toy (HostLife.starts (ok 3) 4 ∷ HostLife.stops true ∷ []) host
      (tt, (refl, tt)) (HostLife.made-IsConsistent toy game mc secret tcp)

start-stop_example :
    let opened = (Host.start toy (ok 3) 4 host).0 in
    ((Host.start toy (ok 3) 4 host).1 ≡ ok tt)
    × (Host.is_running toy opened ≡ true)
    × (Host.start toy (ok 5) 4 opened ≡ (opened, err Host.tunnel_already_open))
    × (Host.stop toy true opened ≡ (host, ok tt))
    × (Host.stop toy true host ≡ (host, ok tt))
start-stop_example =
    HostLife.start-stop toy host 3 4 (ok 5) (HostLife.made-IsConsistent toy game mc secret tcp) refl

create_tunnel-connects_example :
    let (tunnels', handed) = Client.create_tunnel keys [] app mc key_bytes udp in
    (t : Client.ClientTunnel keys) × (handed ≡ ok t)
    × (profile (client_tunnel keys) t ≡ record {
      secret = key_bytes;
      protocol = udp;
      is_running = false;
      name = mc;
      num_active_connections = 0;
      addr = app;
    })
    × ((endpoint conn stop_tx : ℕ)
        → ((Client.connect keys (ok endpoint) (ok conn) stop_tx t).1 ≡ ok tt)
          × (Client.is_running keys (Client.connect keys (ok endpoint) (ok conn) stop_tx t).0
              ≡ true))
    × ((k : Client.TunnelKey)
        → Client.get_tunnel keys tunnels' k.0 k.1
          ≡ (if k == (app, udp) then some t else Client.get_tunnel keys [] k.0 k.1))
    × ((other : Text) (secret' : Bytes)
        → Client.create_tunnel keys tunnels' app other secret' udp
          ≡ (tunnels', err (Client.tunnel_already_exists app udp)))
unfolding Client.get_tunnel get
create_tunnel-connects_example =
    ClientTunnels.create_tunnel-connects keys [] app mc key_bytes udp bob keys-IsRuntime refl
      (keys-IsRuntime.public_from-public_bytes bob)

connect-disconnect_example :
    let opened = (Client.connect toy (ok 3) (ok 5) 4 client).0 in
    ((Client.connect toy (ok 3) (ok 5) 4 client).1 ≡ ok tt)
    × (Client.num_active_connections toy opened ≡ 0)
    × (Client.connect toy (ok 6) (ok 7) 4 opened ≡ (opened, err Client.already_connected))
    × (Client.disconnect toy true opened ≡ (client, ok tt))
    × (Client.disconnect toy true client ≡ (client, err Client.not_connected))
connect-disconnect_example =
    ClientLife.connect-disconnect toy client 3 5 4 (ok 6) (ok 7)
      (ClientLife.made-IsConsistent toy app mc secret tcp) refl

-- A client whose local port was in use: its task has ended, and the tunnel says it is connected.
abbrev bound_twice : ClientLife.Client toy
bound_twice = record {
  tunnel = record client {
    is_connected = true;
    running_props =
        some (record { local_connections = []; endpoint = 3; connection = 5; stop_tx = 4 });
  };
  task = record { phase = ended (err (Client.io_error (codes "in use"))); local_connections = [] };
  detached = 0;
}

disconnect_of_ended_example :
    let (t, result) = ClientLife.disconnect_from toy toy_send bound_twice in
    let (t', result') =
      ClientLife.disconnect_from toy toy_send (record bound_twice { tunnel = t }) in
    (result ≡ panic)
    × (Client.is_running toy t ≡ true)
    × (Client.num_active_connections toy t ≡ 0)
    × ((endpoint conn : Outcome Text ℕ) (stop_tx : ℕ)
        → Client.connect toy endpoint conn stop_tx t ≡ (t, err Client.already_connected))
    × (result' ≡ ok tt)
    × (Client.is_running toy t' ≡ false)
    × ClientLife.IsConsistent toy t'
disconnect_of_ended_example =
    ClientLife.disconnect_of_ended toy toy_send bound_twice (err (Client.io_error (codes "in use")))
      toy_send-IsWatch (record { connected_has = λ e p. cc; parted_lacks = λ e. cc }) refl refl refl
