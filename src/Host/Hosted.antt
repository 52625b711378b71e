-- ===== src/Host/Hosted.antt =====
-- A host tunnel together with the task of its last `start`: they share the map of the clients
-- (lantun-core/src/host.rs, `connections`).
pub mod Bounds
use lantun.Host.{HostError, RunningHostTunnelProps, HostTunnel}
use lantun.Host.Server.{Event, spawned, Server, on_event}
use lantun.Base.{[], none, Bool, ok, some, Text, ◌∷◌, List, Option, Outcome}
use lantun.Runtime.{Runtime}
use lantun.Host
use lantun.Host.Server

module _ (R : Runtime) where
  open R use {Endpoint, StopSender}

  pub record Hosted : Type 0 where
    pub tunnel : HostTunnel R
    pub task : Server R

  -- The running values with the map as the task has left it.
  abbrev pub shared :
      Option (RunningHostTunnelProps R) → Server R → Option (RunningHostTunnelProps R)
  shared none task = none
  shared (some props) task = some (record props { connections = task.clients })

  -- The tunnel as its methods see it.
  abbrev pub seen : Hosted → HostTunnel R
  seen h = record (h.tunnel) { running_props = shared h.tunnel.running_props h.task }

  pub data Act : Type 0 where
    starts : Outcome Text Endpoint → StopSender → Act
    stops : (sent : Bool) → Act
    serves : Event R → Act

  -- A start that succeeds spawns a task, with a new map.
  abbrev pub spawning : HostTunnel R × Outcome HostError (Unit {0}) → Server R → Hosted
  spawning (t, ok _) task = record { tunnel = t; task = spawned R }
  spawning (t, r) task = record { tunnel = t; task = task }

  unfoldable pub act : Act → Hosted → Hosted
  act (starts bound stop_tx) h = spawning (Host.start R bound stop_tx h.tunnel) h.task
  act (stops sent) h = record h { tunnel = (Host.stop R sent h.tunnel).0 }
  act (serves e) h = record h { task = on_event R h.tunnel.protocol h.tunnel.host_addr e h.task }

  unfoldable pub acts : List Act → Hosted → Hosted
  unfolding act
  acts [] h = h
  acts (a ∷ more) h = acts more (act a h)
