-- ===== src/Client/Task.antt =====
-- The task of a client tunnel together with the forwarders that it awaits and the stop flag that
-- `disconnect` sets (lantun-core/src/client.rs, net/tcp.rs, net/udp.rs).
pub mod Stopping
use lantun.Forward.Heeding.{Heeds}
use lantun.Connections.{LocalClientConnection}
use lantun.Addr.{SocketAddr}
use lantun.Forward.Loop.{Loop}
use lantun.Forward.Session.{
  waiting, joined, step, Enabled, wake_socket, start, wake_tunnel, Session, Turn,
}
use lantun.Forward.{Wake}
use lantun.Protocol.{TunnelProtocol}
use lantun.Base.{◌≢◌, Text, Option, suc, false, ℕ, ◌≡◌, true, Bool}
use lantun.Client.Listener.{
  forwarded, forwarding, incoming, listening, bound, binding, on_event, Event, Listener, spawned,
}

-- `session` is that of the forwarder while the task awaits it. `stop` is the value in the watch
-- channel; it changes once.
pub record Task : Type 0 where
  pub listener : Listener
  pub session : Session
  pub stop : Bool

module _ {A B : Type 0} (protocol : TunnelProtocol) (reader : Loop A)
    (writer : SocketAddr → Loop B) where
  abbrev pub listens : Event → Task → Task
  listens e s = record s { listener = on_event protocol e s.listener }

  pub data Step : Task → Task → Type 0 where
    disconnects : (s : Task) → s.stop ≡ false → Step s (record s { stop = true })
    binds :
        (s : Task) (error : Option Text)
        → s.listener.phase ≡ binding
        → Step s (listens (bound error) s)
    hears :
        (s : Task)
        → s.listener.phase ≡ listening
        → s.stop ≡ true
        → Step s (listens (Event.stop_changed true) s)
    accepts :
        (s : Task) (addr : SocketAddr) (open_error send_error : Option Text) (now : ℕ)
        → s.listener.phase ≡ listening
        → s.stop ≡ false
        → Step s (record (listens (incoming addr open_error send_error) s) { session = start now })
    forwards :
        (s : Task) (l : LocalClientConnection) (t : Turn A B)
        → s.listener.phase ≡ forwarding l
        → Enabled t s.session
        → Heeds s.stop t
        → Step s (record s { session = step reader (writer l.client_local_addr) t s.session })
    returns :
        (s : Task) (l : LocalClientConnection)
        → s.listener.phase ≡ forwarding l
        → joined s.session ≢ waiting
        → Step s (listens forwarded s)

  pub data Steps : Task → ℕ → Task → Type 0 where
    here : {s : Task} → Steps s 0 s
    next : {s t u : Task} {n : ℕ} → Step s t → Steps t n u → Steps s (suc n) u

-- The task as `connect` spawns it.
abbrev pub spawned_task : Task
spawned_task = record { listener = spawned; session = start 0; stop = false }
