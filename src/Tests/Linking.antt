-- ===== src/Tests/Linking.antt =====
-- The theorems on a client connected with its host at a concrete connection (client.rs, host.rs).
use lantun.Host.Server.Failed.{with_local}
use lantun.Link.Reached.{application-reaches, idle}
use lantun.Protocol.{udp, tcp}
use lantun.Link.Paired.{Steps-paired}
use lantun.Tests.Toy.{game, toy}
use lantun.Packets.{receive_packet, send_packet, SendCalls}
use lantun.Map.{contains_key, get, insert}
use lantun.Host.{peer_eq, ConnectedClient}
use lantun.Addr.{without_scope, SocketAddr, addr_eq, v6, v4}
use lantun.Connections.{conn_req, ControlMsg}
use lantun.Link.Unwritten.{Silent, IsWaiting, Silent-IsWaiting}
use lantun.Link.{
  client_shows, here, received, server_answers, whole, client_opens, client_moves, server_moves,
  next, linked, Steps, Link, IsPacketCodec, PacketCodec,
}
use lantun.Base.{
  bytes_eq, true, length, none, some, refl, err, zero, arith, suc, [], ok, ◌≢◌, ◌++◌, ◌∷◌, Text,
  ◌≡◌, Outcome, codes, ℕ, Bytes,
}
use lantun.Host.Server
use lantun.Client.Listener

-- The IP address and the port, after a number that tells the two kinds apart, as bincode does.
abbrev toy_encode : ControlMsg → Bytes
toy_encode (conn_req (v4 ip port)) = 0 ∷ ip ∷ port ∷ []
toy_encode (conn_req (v6 ip port flowinfo scope_id)) = 1 ∷ ip ∷ port ∷ []

abbrev toy_decode : Bytes → Outcome Text (ControlMsg × ℕ)
toy_decode (zero ∷ ip ∷ port ∷ []) = ok (conn_req (v4 ip port), 3)
toy_decode (suc k ∷ ip ∷ port ∷ []) = ok (conn_req (v6 ip port 0 0), 3)
toy_decode _ = err (codes "cut")

abbrev toy_codec : PacketCodec
toy_codec = record { encode = toy_encode; decode = toy_decode; shown = λ e. codes "not received" }

toy_cut :
    (p : ControlMsg) (b rest : Bytes) (x : ControlMsg × ℕ)
    → toy_encode p ≡ b ++ rest
    → rest ≢ []
    → toy_decode b ≢ ok x
toy_cut (conn_req (v4 ip port)) (zero ∷ a ∷ c ∷ []) rest x e n d = n (ground (arith, e))
toy_cut (conn_req (v6 ip port f s)) (suc k ∷ a ∷ c ∷ []) rest x e n d = n (ground (arith, e))
toy_cut p b rest x e n d = ground (arith, d, e)

decode-encode :
    (a : SocketAddr)
    → toy_decode (toy_encode (conn_req a))
      ≡ ok (conn_req (without_scope a), length (toy_encode (conn_req a)))
decode-encode (v4 ip port) = refl
decode-encode (v6 ip port f s) = refl

toy_codec-IsPacketCodec : IsPacketCodec toy_codec
toy_codec-IsPacketCodec = record { decode-encode = decode-encode; decode_cut = toy_cut }

-- An application at the link-local address fe80::1%3, and how the host knows it.
abbrev local_app : SocketAddr
local_app = v6 338288524927261089654018896841347694593 5000 0 3

abbrev known_app : SocketAddr
known_app = v6 338288524927261089654018896841347694593 5000 0 0

abbrev visitor : Bytes
visitor = 1 ∷ []

abbrev quiet : SendCalls
quiet = record { open_uni = none; write_all = none; flush = none; finish = none }

abbrev request : Server.Request
request = record {
  stream_error = none;
  packet = ok (conn_req known_app);
  socket_error = none;
  bind_error = λ v4 addr. none;
  connect_error = λ from to. none;
  has_peer = true;
}

abbrev entry : ConnectedClient toy
entry = record { local_connections = []; connection = 5 }

-- The host lets the client in, the client listens.
abbrev serving : Server.Server toy
serving = record { phase = Server.serving visitor; clients = (visitor, entry) ∷ [] }

abbrev listening : Listener.Listener
listening = record { phase = Listener.listening; local_connections = [] }

-- An application comes, and its request is answered.
abbrev forwarding : Link toy
forwarding = record {
  client = record {
    phase = Listener.forwarding (Listener.local_connection local_app);
    local_connections = (local_app, Listener.local_connection local_app) ∷ [];
  };
  server = record {
    phase = Server.forwarding visitor (Server.local_connection known_app);
    clients =
        (
          visitor,
          record {
            local_connections =
                (
                  (Server.local_connection known_app).client_virtual_addr,
                  Server.local_connection known_app,
                )
                ∷ [];
            connection = 5;
          },
        )
        ∷ [];
  };
  streams = [];
  shown = 0;
  requests = [];
  current = some local_app;
}

forwarding-Steps :
    Steps toy toy_codec visitor tcp tcp game (linked toy (Server.spawned toy)) forwarding
unfolding Server.on_event Server.accept Server.handle_request Server.add_local Server.open_socket
    Server.local_connection insert get contains_key bytes_eq addr_eq peer_eq Listener.on_event
    send_packet receive_packet
forwarding-Steps = next (server_moves _ (Server.incoming (some visitor) 5) (λ r at. cc)) (
    next (client_moves _ (Listener.bound none) tt) (
      next
        (client_opens _ local_app quiet (toy_encode (conn_req local_app) ∷ []) refl tt
          (whole (toy_encode (conn_req local_app)) refl))
        (next (client_shows _) (
          next
            (server_answers _ request [] [] (some local_app) refl
              (received local_app [] (toy_encode (conn_req local_app) ∷ []) [] []
                (ok (conn_req known_app)) refl refl refl)
              (omega arith))
            here))))

Steps-paired_example :
    (addr : SocketAddr) × (forwarding.current ≡ some addr)
    × ((Server.local_connection known_app).client_local_addr ≡ without_scope addr)
unfolding Server.local_connection
Steps-paired_example =
    Steps-paired toy toy_codec toy_codec-IsPacketCodec visitor tcp tcp game (Server.spawned toy)
      (Server.local_connection known_app) (λ x. x) forwarding-Steps refl

application-reaches_example :
    (t : Link toy) × Steps toy toy_codec visitor udp udp game
      (idle toy udp game toy_codec toy_codec-IsPacketCodec visitor udp listening serving none)
      t
    × (t.client.phase ≡ Listener.forwarding (Listener.local_connection local_app))
    × (get local_app t.client.local_connections ≡ some (Listener.local_connection local_app))
    × (t.server.phase ≡ Server.forwarding visitor (Server.local_connection known_app))
    × (get visitor t.server.clients ≡ some (with_local toy udp game known_app entry))
    × (t.current ≡ some local_app)
unfolding get peer_eq bytes_eq contains_key send_packet receive_packet Server.open_socket
    Server.local_connection
application-reaches_example =
    application-reaches toy udp game toy_codec toy_codec-IsPacketCodec visitor udp listening serving
      none entry local_app quiet
      ((1 ∷ []) ∷ (338288524927261089654018896841347694593 ∷ 5000 ∷ []) ∷ []) []
      (ok (conn_req known_app)) request refl refl refl refl refl refl refl refl refl

-- The application has a connection, and the service is to speak first.
abbrev silent : Link toy
silent = record {
  client = record {
    phase = Listener.forwarding (Listener.local_connection local_app);
    local_connections = (local_app, Listener.local_connection local_app) ∷ [];
  };
  server = serving;
  streams = local_app ∷ [];
  shown = 0;
  requests = toy_encode (conn_req local_app) ∷ [];
  current = none;
}

silent-Steps : Silent toy toy_codec visitor tcp tcp game (linked toy (Server.spawned toy)) silent
unfolding Server.on_event Server.accept insert get contains_key bytes_eq peer_eq addr_eq
    Listener.on_event send_packet
silent-Steps =
    Silent.next (server_moves _ (Server.incoming (some visitor) 5) (λ r at. cc)) (λ x. x)
      (Silent.next (client_moves _ (Listener.bound none) tt) (λ x. x)
        (Silent.next
          (client_opens _ local_app quiet (toy_encode (conn_req local_app) ∷ []) refl tt
            (whole (toy_encode (conn_req local_app)) refl))
          (λ x. x) Silent.here))

Silent-IsWaiting_example : IsWaiting toy toy_codec visitor tcp tcp game silent
Silent-IsWaiting_example =
    Silent-IsWaiting toy toy_codec visitor tcp tcp game silent-Steps (refl, λ l h. cc)
