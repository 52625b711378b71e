-- ===== src/Client/Listener.antt =====
-- The task that `ClientTunnel::connect` spawns (lantun-core/src/client.rs), for TCP and for UDP.
-- What is awaited from outside comes as an event.
pub mod Sessions
use lantun.Map.{insert, contains_key}
use lantun.Client.{connection_error, io_error, ClientError}
use lantun.Protocol.{udp, tcp, TunnelProtocol}
use lantun.Addr.{addr_eq, ip_unspecified, v4, SocketAddr}
use lantun.Connections.{disconnect_local_connection, LocalClientConnection, LocalConnections}
use lantun.Base.{
  true, none, ok, Bool, err, if◌then◌else◌, ◌∷◌, List, Outcome, Text, some, Option, [], ℕ,
}

-- Where the task waits: for its socket, in `select!`, for the forwarder of one local connection, or
-- no more.
pub data Phase : Type 0 where
  binding : Phase
  listening : Phase
  forwarding : LocalClientConnection → Phase
  ended : Outcome ClientError (Unit {0}) → Phase

pub record Listener : Type 0 where
  pub phase : Phase
  pub local_connections : LocalConnections

pub data Event : Type 0 where
  -- The result of `bind`, `none` for `Ok`.
  bound : Option Text → Event
  -- `stop_rx.changed()` completes, with the flag now in the channel.
  stop_changed : (stop : Bool) → Event
  -- `accept` or `peek_from` shows a local application; then `open_bi` and `send_packet`.
  incoming : (client_local_addr : SocketAddr) (open_error send_error : Option Text) → Event
  -- `bi_tcp_stream_client` or `bi_udp_client` returns.
  forwarded : Event

-- We do not need the virtual address on the client side.
abbrev pub local_connection : SocketAddr → LocalClientConnection
local_connection client_local_addr = record {
  client_local_addr = client_local_addr;
  client_virtual_addr = v4 ip_unspecified 0;
  last_active = 0;
}

-- `open_bi` and `send_packet`, with their `?`, and the insertion.
abbrev pub open_local : SocketAddr → Option Text → Option Text → Listener → Listener
open_local addr (some message) send_error s = record s {
  phase = ended (err (connection_error message));
}
open_local addr none (some message) s = record s { phase = ended (err (io_error message)) }
open_local addr none none s = record {
  phase = forwarding (local_connection addr);
  local_connections = insert addr (local_connection addr) s.local_connections;
}

-- UDP looks first whether the application has a connection already.
abbrev pub on_incoming :
    TunnelProtocol → SocketAddr → Option Text → Option Text → Listener → Listener
on_incoming tcp addr open_error send_error s = open_local addr open_error send_error s
on_incoming udp addr open_error send_error s =
    if contains_key addr s.local_connections then s else open_local addr open_error send_error s

abbrev pub dispatch : TunnelProtocol → Phase → Event → Listener → Listener
dispatch protocol binding (bound none) s = record s { phase = listening }
dispatch protocol binding (bound (some message)) s = record s {
  phase = ended (err (io_error message));
}
dispatch protocol listening (stop_changed true) s = record s { phase = ended (ok tt) }
dispatch protocol listening (incoming addr open_error send_error) s =
    on_incoming protocol addr open_error send_error s
dispatch protocol (forwarding l) forwarded s = record {
  phase = listening;
  local_connections = (disconnect_local_connection s.local_connections l).1;
}
dispatch protocol _ _ s = s

-- An event that the task does not wait for leaves it alone, and so does a stop flag that is not set.
unfoldable pub on_event : TunnelProtocol → Event → Listener → Listener
on_event protocol e s = dispatch protocol s.phase e s

unfoldable pub run : TunnelProtocol → List Event → Listener → Listener
unfolding on_event
run protocol [] s = s
run protocol (e ∷ es) s = run protocol es (on_event protocol e s)

-- The task as `connect` spawns it.
abbrev pub spawned : Listener
spawned = record { phase = binding; local_connections = [] }

-- The receivers of the stop channel that the task keeps: its own, and one for each forwarder loop.
abbrev pub receivers : Phase → ℕ
receivers (ended result) = 0
receivers (forwarding l) = 3
receivers _ = 1
