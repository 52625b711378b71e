-- ===== src/Client/Listener/Sessions.antt =====
-- The task of a client tunnel serves one local application at a time (lantun-core/src/client.rs).
use lantun.Base.{true, arith, none, some, refl, [], ◌∷◌, ◌≡◌, List}
use lantun.Client.Listener.{
  forwarded, listening, binding, incoming, stop_changed, bound, dispatch, on_event, Listener,
  forwarding, Event, Phase, run,
}
use lantun.Protocol.{udp, tcp, TunnelProtocol}
use lantun.Map.{contains_key, remove, insert}
use lantun.Connections.{LocalConnections, disconnect_local_connection}

-- Outside a session the map of connections is empty; in one it holds that session alone.
abbrev pub Exact : Phase → LocalConnections → Type 0
Exact (forwarding l) m = m ≡ (l.client_local_addr, l) ∷ []
Exact _ m = m ≡ []

on_event-Exact :
    (protocol : TunnelProtocol) (p : Phase) (e : Event) (s : Listener)
    → s.phase ≡ p
    → Exact p s.local_connections
    → let t = dispatch protocol p e s in Exact t.phase t.local_connections
unfolding disconnect_local_connection insert remove contains_key
on_event-Exact protocol binding (bound none) s same h = h
on_event-Exact protocol binding (bound (some message)) s same h = h
on_event-Exact protocol listening (stop_changed true) s same h = h
on_event-Exact tcp listening (incoming addr (some m) send_error) s same h = h
on_event-Exact tcp listening (incoming addr none (some m)) s same h = h
on_event-Exact tcp listening (incoming addr none none) s same h = rw h
on_event-Exact udp listening (incoming addr (some m) send_error) s same h = rw h
on_event-Exact udp listening (incoming addr none (some m)) s same h = rw h
on_event-Exact udp listening (incoming addr none none) s same h = rw h
on_event-Exact protocol (forwarding l) forwarded s same h = rw h (ground arith)
on_event-Exact protocol p e s same h = rw same h

-- Whatever events come, the map of local connections of a client tunnel is empty outside a session
-- and holds just the connection of the session in one, if that held at first.
pub run-Exact :
    (protocol : TunnelProtocol) (es : List Event) (s : Listener)
    → Exact s.phase s.local_connections
    → let t = run protocol es s in Exact t.phase t.local_connections
unfolding run
run-Exact protocol [] s h = h
run-Exact protocol (e ∷ es) s h =
    run-Exact protocol es (on_event protocol e s)
      (unfold on_event in on_event-Exact protocol s.phase e s refl h)
