-- ===== src/Tests/Closing.antt =====
-- The theorem on the task of a host after a stop at a concrete state (host.rs).
use lantun.Connections.{disconnect_local_client_connection}
use lantun.Map.{contains_key, remove, insert, get}
use lantun.Host.{peer_eq}
use lantun.Addr.{addr_eq}
use lantun.Net.Tcp.{tcp-IsLoop}
use lantun.Host.Task.Stopping.{Steps-closed}
use lantun.Protocol.{tcp}
use lantun.Tests.Toy.{game, app, toy}
use lantun.Net.Tcp
use lantun.Host.Server
use lantun.Base.{
  bytes_eq, nat_eq, none, true, err, codes, ◌≡◌, Bytes, List, some, ◌≤◌, refl, ◌⊎◌, [], ◌∷◌,
}
use lantun.Host.Task.{next, here, Steps, Step, Task, forwards, returns, refuses}
use lantun.Forward.Session.{wake_socket, arm_socket, wake_tunnel, arm_tunnel, joined, step, start}
use lantun.Forward.{timeout_of, stopped, finished, Wake}

abbrev secret : Bytes
secret = 1 ∷ []

-- The task forwards a local connection when `stop` has set the flag and closed the endpoint.
abbrev busy : Task toy
busy = record {
  server = record {
    phase = Server.forwarding secret (Server.local_connection app);
    clients =
        (
          secret,
          record {
            local_connections =
                ((Server.local_connection app).client_virtual_addr, Server.local_connection app)
                ∷ [];
            connection = 5;
          },
        )
        ∷ [];
  };
  session = start 0;
  stop = true;
  closed = true;
  arrived = 0;
}

abbrev waits : Task toy
waits = record {
  server = record {
    phase = Server.accepting;
    clients = (secret, record { local_connections = []; connection = 5 }) ∷ [];
  };
  session = record {
    tunnel = record { phase = finished stopped; sent = [] };
    socket = record { phase = finished stopped; sent = [] };
    last_active = 0;
  };
  stop = true;
  closed = true;
  arrived = 0;
}

abbrev lost : Server.Request
lost = record {
  stream_error = some (codes "closed");
  packet = err [];
  socket_error = none;
  bind_error = λ v4 addr. none;
  connect_error = λ from to. none;
  has_peer = true;
}

busy-Steps : Steps toy tcp game Tcp.host_reader Tcp.host_writer busy 6 waits
unfolding start step joined nat_eq addr_eq bytes_eq peer_eq Tcp.tunnel_to_tcp_host
    Tcp.tcp_to_tunnel_host timeout_of Server.on_event Server.handle_request Server.drop_local
    Server.local_connection get insert remove contains_key disconnect_local_client_connection
busy-Steps = next (forwards busy secret (Server.local_connection app) (arm_tunnel 0) refl refl tt) (
    next
      (forwards _ secret (Server.local_connection app) (wake_tunnel 1 (Wake.stop_changed true)) refl
        (20, refl) tt)
      (next (forwards _ secret (Server.local_connection app) (arm_socket 0) refl refl tt) (
        next
          (forwards _ secret (Server.local_connection app) (wake_socket 1 (Wake.stop_changed true))
            refl (20, refl) tt)
          (next (returns _ secret (Server.local_connection app) refl (λ p. cc))
            (next (refuses _ secret lost (codes "closed") refl refl refl) here)))))

abbrev quiet : List (Server.Event toy)
quiet = Server.no_connection ∷ Server.handshake_failed ∷ []

Steps-closed_example :
    (6 ≤ 6)
    × ((((waits.server.phase ≡ Server.accepting)
            × (Server.run toy tcp game quiet waits.server ≡ waits.server))
          ⊎ (waits.server.phase ≡ Server.crashed))
        ⊎ ((t : Task toy) × Step toy tcp game Tcp.host_reader Tcp.host_writer waits t))
Steps-closed_example =
    Steps-closed toy tcp game Tcp.host_reader Tcp.host_writer tcp-IsLoop.0 tcp-IsLoop.1 quiet
      busy-Steps refl refl (tt, (tt, tt))
