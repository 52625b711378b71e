-- ===== src/Tests/Stopping.antt =====
-- The theorems on the tasks after a stop at concrete states (client.rs, host.rs).
use lantun.Net.Tcp.{tcp-IsLoop}
use lantun.Client.Task.Stopping.{Steps-stop}
use lantun.Protocol.{tcp}
use lantun.Addr.{addr_eq}
use lantun.Client.{ClientError}
use lantun.Forward.{Wake, timeout_of, stopped, finished}
use lantun.Map.{remove, contains_key}
use lantun.Base.{refl, nat_eq, ◌⊎◌, ◌≡◌, true, Outcome, [], ◌∷◌, ok, ◌≤◌}
use lantun.Connections.{disconnect_local_connection}
use lantun.Tests.Toy.{app}
use lantun.Forward.Session.{wake_socket, wake_tunnel, arm_socket, arm_tunnel, start, step, joined}
use lantun.Client.Task.{forwards, returns, hears, next, here, Task, Steps, Step}
use lantun.Client.Listener.{forwarding, ended, local_connection, on_event}
use lantun.Net.Tcp

-- A task that serves one application when `disconnect` sets the flag.
abbrev served : Task
served = record {
  listener = record {
    phase = forwarding (local_connection app);
    local_connections = (app, local_connection app) ∷ [];
  };
  session = start 0;
  stop = true;
}

abbrev over : Task
over = record {
  listener = record { phase = ended (ok tt); local_connections = [] };
  session = record {
    tunnel = record { phase = finished stopped; sent = [] };
    socket = record { phase = finished stopped; sent = [] };
    last_active = 0;
  };
  stop = true;
}

served-Steps : Steps tcp Tcp.client_reader (λ addr. Tcp.client_writer) served 6 over
unfolding start step on_event joined disconnect_local_connection contains_key remove addr_eq nat_eq
    Tcp.tunnel_to_tcp_client Tcp.tcp_to_tunnel_client timeout_of
served-Steps = next (forwards _ (local_connection app) (arm_tunnel 0) refl refl tt) (
    next (forwards _ (local_connection app) (arm_socket 0) refl refl tt) (
      next
        (forwards _ (local_connection app) (wake_tunnel 1 (Wake.stop_changed true)) refl (20, refl)
          tt)
        (next
          (forwards _ (local_connection app) (wake_socket 1 (Wake.stop_changed true)) refl
            (20, refl) tt)
          (next (returns _ (local_connection app) refl (λ p. cc))
            (next (hears _ refl refl) here)))))

Steps-stop_example :
    (6 ≤ 6)
    × (((r : Outcome ClientError (Unit {0})) × (over.listener.phase ≡ ended r)
          × (over.listener.local_connections ≡ []))
        ⊎ ((t : Task) × Step tcp Tcp.client_reader (λ addr. Tcp.client_writer) over t))
Steps-stop_example =
    Steps-stop tcp Tcp.client_reader (λ addr. Tcp.client_writer) tcp-IsLoop.2 (λ addr. tcp-IsLoop.3)
      served-Steps refl refl
