-- ===== src/Tests/Serving.antt =====
-- The theorems on the tasks of the tunnels at concrete inputs (host.rs, client.rs).
use lantun.Host.Hosted.Bounds.{acts-bound}
use lantun.Host.Hosted.{serves, starts, Act, Hosted, acts, seen}
use lantun.Host.Server.Failed.{run-failed, with_local}
use lantun.Host.Server.Peers.{returning_peer_ignored}
use lantun.Host.Server.Safety.{run-Known, Known}
use lantun.Connections.{disconnect_local_client_connection, conn_req}
use lantun.Addr.{addr_eq}
use lantun.Client.Listener.Sessions.{run-Exact, Exact}
use lantun.Tests.Toy.{app, game, toy}
use lantun.Map.{remove, get, contains_key, insert}
use lantun.Protocol.{tcp, udp}
use lantun.Base.{◌*◌, refl, true, codes, ◌≡◌, [], bytes_eq, ok, some, ◌∷◌, Bytes, List, none, ◌≤◌}
use lantun.Host.{peer_eq}
use lantun.Host.Server
use lantun.Host
use lantun.Client.Listener

abbrev secret : Bytes
secret = 1 ∷ []

abbrev good : Server.Request
good = record {
  stream_error = none;
  packet = ok (conn_req app);
  socket_error = none;
  bind_error = λ v4 addr. none;
  connect_error = λ from to. none;
  has_peer = true;
}

abbrev visit : List (Server.Event toy)
visit =
    Server.incoming (some secret) 5
    ∷ Server.request good
    ∷ Server.forwarded
    ∷ Server.request (record good { stream_error = some (codes "closed") })
    ∷ []

abbrev known : Server.Server toy
known = record {
  phase = Server.accepting;
  clients = (secret, record { local_connections = []; connection = 5 }) ∷ [];
}

visit_ends : Server.run toy tcp game visit (Server.spawned toy) ≡ known
unfolding Server.run Server.accept Server.handle_request Server.add_local Server.drop_local
    Server.open_socket Server.local_connection insert get remove contains_key
    disconnect_local_client_connection bytes_eq addr_eq peer_eq
visit_ends = refl

returning_peer_ignored_example :
    let t = Server.run toy tcp game visit known in
    (contains_key secret t.clients ≡ true)
    × (Server.on_event toy tcp game (Server.incoming (some secret) 6) t ≡ t)
unfolding contains_key bytes_eq peer_eq
returning_peer_ignored_example = returning_peer_ignored toy tcp game visit known secret 6 refl

run-Known_example :
    let t = Server.run toy tcp game visit (Server.spawned toy) in Known toy t.phase t.clients
run-Known_example =
    run-Known toy tcp game visit (Server.spawned toy)
      (tt, ((λ p. cc, refl), (tt, ((λ p. cc, refl), tt)))) tt

abbrev session : List Listener.Event
session = Listener.bound none ∷ Listener.incoming app none none ∷ []

run-Exact_example :
    let t = Listener.run udp session Listener.spawned in Exact t.phase t.local_connections
run-Exact_example = run-Exact udp session Listener.spawned refl

session_runs : Listener.run udp session Listener.spawned ≡ record {
  phase = Listener.forwarding (Listener.local_connection app);
  local_connections = (app, Listener.local_connection app) ∷ [];
}
unfolding Listener.run contains_key insert addr_eq
session_runs = refl

-- The exposed service refuses the connection.
abbrev refused : Server.Request
refused = record good { connect_error = λ from to. some (codes "refused") }

run-failed_example :
    get secret
      (Server.run toy tcp game visit
        (Server.handle_request toy tcp game refused secret known)).clients
    ≡ some (with_local toy tcp game app (record { local_connections = []; connection = 5 }))
unfolding get bytes_eq peer_eq Server.open_socket Server.local_connection
run-failed_example =
    run-failed toy tcp game refused secret (record { local_connections = []; connection = 5 }) known
      app (Host.io_error (codes "refused")) visit refl refl refl

abbrev day : List (Act toy)
day = starts (ok 3) 4 ∷ serves (Server.incoming (some secret) 5) ∷ serves (Server.request good) ∷ []

abbrev fresh_host : Hosted toy
fresh_host = record {
  tunnel = Host.made toy game (codes "mc") secret tcp;
  task = Server.spawned toy;
}

-- The tunnel counts the local connection that its task serves.
day_counts : Host.num_active_connections toy (seen toy (acts toy day fresh_host)) ≡ 1
unfolding acts Host.start Host.num_active_connections Server.on_event Server.accept
    Server.handle_request Server.add_local Server.open_socket Server.local_connection insert get
    contains_key bytes_eq addr_eq peer_eq
day_counts = refl

acts-bound_example :
    Host.num_active_connections toy (seen toy (acts toy day fresh_host))
    ≤ 2 * Host.num_clients toy (seen toy (acts toy day fresh_host))
acts-bound_example = acts-bound toy day fresh_host.tunnel
