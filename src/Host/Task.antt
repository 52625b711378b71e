-- ===== src/Host/Task.antt =====
-- The task of a host tunnel together with the forwarders that it awaits, the stop flag that `stop`
-- sets, and the endpoint that it closes (lantun-core/src/host.rs, net/tcp.rs, net/udp.rs).
pub mod Stopping
use lantun.Forward.Heeding.{Heeds}
use lantun.Connections.{LocalClientConnection}
use lantun.Base.{◌≢◌, some, Text, none, Option, true, false, suc, ℕ, ◌≡◌, Bool}
use lantun.Forward.Loop.{Loop}
use lantun.Addr.{SocketAddr}
use lantun.Forward.Session.{waiting, joined, step, Enabled, Turn, start, Session}
use lantun.Host.Server.{Server}
use lantun.Protocol.{TunnelProtocol}
use lantun.Runtime.{Runtime}
use lantun.Host.Server

module _ (R : Runtime) where
  open R use {PublicKey, Connection}

  -- `session` is that of the forwarder while the task awaits it, and `arrived` counts the streams
  -- of the served client that have come and are not accepted.
  pub record Task : Type 0 where
    pub server : Server R
    pub session : Session
    pub stop : Bool
    pub closed : Bool
    pub arrived : ℕ

  module _ {A B : Type 0} (protocol : TunnelProtocol) (tunnel_local_addr : SocketAddr)
      (reader : Loop A) (writer : Loop B) where
    abbrev pub serves : Server.Event R → Task → Task
    serves e s = record s { server = Server.on_event R protocol tunnel_local_addr e s.server }

    pub data Step : Task → Task → Type 0 where
      stops : (s : Task) → s.stop ≡ false → Step s (record s { stop = true })
      -- `stop` sends first, and closes then.
      closes : (s : Task) → s.stop ≡ true → s.closed ≡ false → Step s (record s { closed = true })
      arrives : (s : Task) → s.closed ≡ false → Step s (record s { arrived = suc s.arrived })
      comes :
          (s : Task) (peer : Option PublicKey) (conn : Connection)
          → s.server.phase ≡ Server.accepting
          → s.closed ≡ false
          → Step s (record (serves (Server.incoming peer conn) s) { arrived = 0 })
      -- `accept_bi` gives the next stream, and the round goes on with it.
      requests :
          (s : Task) (peer : PublicKey) (r : Server.Request) (n now : ℕ)
          → s.server.phase ≡ Server.serving peer
          → s.arrived ≡ suc n
          → r.stream_error ≡ none
          → Step s (record (serves (Server.request r) s) { session = start now; arrived = n })
      -- `accept_bi` fails, with nothing left to accept.
      refuses :
          (s : Task) (peer : PublicKey) (r : Server.Request) (message : Text)
          → s.server.phase ≡ Server.serving peer
          → s.arrived ≡ 0
          → r.stream_error ≡ some message
          → Step s (serves (Server.request r) s)
      forwards :
          (s : Task) (peer : PublicKey) (l : LocalClientConnection) (t : Turn A B)
          → s.server.phase ≡ Server.forwarding peer l
          → Enabled t s.session
          → Heeds s.stop t
          → Step s (record s { session = step reader writer t s.session })
      returns :
          (s : Task) (peer : PublicKey) (l : LocalClientConnection)
          → s.server.phase ≡ Server.forwarding peer l
          → joined s.session ≢ waiting
          → Step s (serves Server.forwarded s)

    pub data Steps : Task → ℕ → Task → Type 0 where
      here : {s : Task} → Steps s 0 s
      next : {s t u : Task} {n : ℕ} → Step s t → Steps t n u → Steps s (suc n) u
