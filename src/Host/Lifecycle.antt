-- ===== src/Host/Lifecycle.antt =====
-- `HostTunnel::start` and `HostTunnel::stop` in any order (lantun-core/src/host.rs).
use lantun.Host.{
  tunnel_already_open, is_running, HostError, num_active_connections, HostTunnel, made, num_clients,
  stop,
}
use lantun.Protocol.{TunnelProtocol}
use lantun.Host.{start}
use lantun.Base.{
  panic, [], err, none, All, arith, false, ok, ◌∷◌, ◌≢◌, Bool, Bytes, Text, true, List, Outcome,
  ◌≡◌,
}
use lantun.Addr.{SocketAddr}
use lantun.Runtime.{Runtime}

module _ (R : Runtime) where
  open R use {Endpoint, StopSender}

  -- The flag says whether the tunnel has its running values.
  pub record IsConsistent (t : HostTunnel R) : Type 0 where
    pub open_has : t.is_open ≡ true → t.running_props ≢ none
    pub shut_lacks : t.is_open ≡ false → t.running_props ≡ none

  -- A tunnel that was just made is consistent.
  pub made-IsConsistent :
      (local_addr : SocketAddr) (name : Text) (secret : Bytes) (protocol : TunnelProtocol)
      → IsConsistent (made R local_addr name secret protocol)
  made-IsConsistent local_addr name secret protocol = ground arith

  pub data Call : Type 0 where
    starts : Outcome Text Endpoint → StopSender → Call
    stops : (sent : Bool) → Call

  pub call : Call → HostTunnel R → HostTunnel R × Outcome HostError (Unit {0})
  call (starts bound stop_tx) t = start R bound stop_tx t
  call (stops sent) t = stop R sent t

  pub calls : List Call → HostTunnel R → HostTunnel R
  calls [] t = t
  calls (c ∷ cs) t = calls cs (call c t).0

  -- A stop whose signal some task still hears.
  abbrev pub IsHeard : Call → Type 0
  IsHeard (starts bound stop_tx) = Unit
  IsHeard (stops sent) = sent ≡ true

  call-IsConsistent :
      (c : Call) (t : HostTunnel R) → IsHeard c → IsConsistent t → IsConsistent (call c t).0
  unfolding call start stop
  call-IsConsistent (starts (ok e) stop_tx) t h v = ground arith
  call-IsConsistent (starts (err m) stop_tx) t h v = ground arith
  call-IsConsistent (starts panic stop_tx) t h v = ground arith
  call-IsConsistent (stops sent) t h v = ground arith

  -- Over any sequence of starts and of stops whose signal is heard, a host tunnel that was
  -- consistent stays so: its flag is set exactly if it has its running values.
  pub calls-IsConsistent :
      (cs : List Call) (t : HostTunnel R)
      → All IsHeard cs
      → IsConsistent t
      → IsConsistent (calls cs t)
  unfolding calls
  calls-IsConsistent [] t h v = v
  calls-IsConsistent (c ∷ cs) t (h, hs) v =
      calls-IsConsistent cs (call c t).0 hs (call-IsConsistent c t h v)

  -- For a consistent host tunnel that is not open: start with a bound endpoint succeeds and opens
  -- it, a second start is refused and changes nothing, a heard stop brings back the tunnel as it
  -- was, and stop without start succeeds and changes nothing.
  pub start-stop :
      (t : HostTunnel R) (endpoint : Endpoint) (stop_tx : StopSender)
      (bound : Outcome Text Endpoint)
      → IsConsistent t
      → t.is_open ≡ false
      → let opened = (start R (ok endpoint) stop_tx t).0 in
        ((start R (ok endpoint) stop_tx t).1 ≡ ok tt)
        × (is_running R opened ≡ true)
        × (start R bound stop_tx opened ≡ (opened, err tunnel_already_open))
        × (stop R true opened ≡ (t, ok tt))
        × (stop R true t ≡ (t, ok tt))
  unfolding start stop
  start-stop t endpoint stop_tx bound v shut =
      (ground arith, ground arith, ground arith, ground arith, ground arith)

  -- A tunnel that is not open counts no clients and no connections.
  pub counts_of_shut :
      (t : HostTunnel R)
      → IsConsistent t
      → t.is_open ≡ false
      → (num_clients R t ≡ 0) × (num_active_connections R t ≡ 0)
  unfolding num_clients num_active_connections
  counts_of_shut t v shut = ground arith
