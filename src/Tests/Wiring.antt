-- ===== src/Tests/Wiring.antt =====
-- The theorem on the bytes of a connection at a concrete run (net/tcp.rs).
use lantun.Net.Tcp.{tcp-IsLoop}
use lantun.Forward.Delivery.{from_socket}
use lantun.Forward.Wire.Carried.{connected-Carried, Carried}
use lantun.Forward.{received, timeout_of, arming}
use lantun.Net.Tcp
use lantun.Net.Readers.{tcp-IsReader}
use lantun.Base.{true, nat_eq, [], ◌∷◌, refl}
use lantun.Forward.Session.{arm_tunnel, wake_socket, arm_socket, step, start}
use lantun.Forward.Wire.{next, here, near_turn, far_turn, far_reads, connected, Steps, Wire}
use lantun.Forward.Session.{fresh}

-- The client has written three bytes, of which the host has passed on the first two.
abbrev two_of_three : Wire
two_of_three = record {
  near = record {
    tunnel = fresh;
    socket = record { phase = arming; sent = (1 ∷ 2 ∷ 3 ∷ []) ∷ [] };
    last_active = 100;
  };
  far = record {
    tunnel = record { phase = arming; sent = (1 ∷ 2 ∷ []) ∷ [] };
    socket = fresh;
    last_active = 101;
  };
  up = 3 ∷ [];
  down = [];
}

two_of_three-Steps :
    Steps Tcp.client_reader Tcp.client_writer Tcp.host_reader Tcp.host_writer
      (connected 100 100)
      two_of_three
unfolding start step timeout_of from_socket Tcp.tcp_to_tunnel_client Tcp.tunnel_to_tcp_host nat_eq
two_of_three-Steps = next (near_turn _ (arm_socket 100) refl tt) (
    next (near_turn _ (wake_socket 100 (received (1 ∷ 2 ∷ 3 ∷ []) true)) (20, refl) tt) (
      next (far_turn _ (arm_tunnel 100) refl tt)
        (next (far_reads _ 101 20 (1 ∷ 2 ∷ []) (3 ∷ []) true refl refl) here)))

connected-Carried_example :
    Carried two_of_three.far.tunnel two_of_three.near.socket.sent two_of_three.up
    × Carried two_of_three.near.tunnel two_of_three.far.socket.sent two_of_three.down
connected-Carried_example =
    connected-Carried Tcp.client_reader Tcp.client_writer Tcp.host_reader Tcp.host_writer
      tcp-IsReader.1 tcp-IsLoop.3 tcp-IsReader.0 tcp-IsLoop.1 100 100 two_of_three-Steps
