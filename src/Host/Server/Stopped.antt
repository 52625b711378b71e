-- ===== src/Host/Server/Stopped.antt =====
-- The task of a host tunnel that was stopped: `stop` closes the endpoint, after which `accept` gives
-- `None`, and the task does not read its stop channel (lantun-core/src/host.rs).
use lantun.Host.Lifecycle.{IsConsistent}
use lantun.Base.{◌∙◌, ap, arith, refl, false, ok, [], true, ◌∷◌, All, ◌≡◌, List}
use lantun.Host.{is_running, stop, HostTunnel}
use lantun.Addr.{SocketAddr}
use lantun.Protocol.{TunnelProtocol}
use lantun.Host.Server.{
  crashed, forwarding, serving, Phase, accepting, dispatch, on_event, Server, run, incoming, Event,
}
use lantun.Runtime.{Runtime}

-- No new connection: what a closed endpoint still gives.
abbrev pub IsClosed : (R : Runtime) → Event R → Type 0
IsClosed R (incoming peer conn) = ⊥
IsClosed R _ = Unit

module _ (R : Runtime) (protocol : TunnelProtocol) (tunnel_local_addr : SocketAddr) where
  dispatch-closed :
      (p : Phase R) (e : Event R) (s : Server R)
      → p ≡ accepting
      → IsClosed R e
      → dispatch R protocol tunnel_local_addr p e s ≡ s
  dispatch-closed accepting (incoming peer conn) s same h = absurd h
  dispatch-closed accepting e s same h = refl
  dispatch-closed (serving peer) e s same h = cc
  dispatch-closed (forwarding peer l) e s same h = cc
  dispatch-closed crashed e s same h = refl

  pub run-closed :
      (es : List (Event R)) (s : Server R)
      → s.phase ≡ accepting
      → All (IsClosed R) es
      → run R protocol tunnel_local_addr es s ≡ s
  unfolding run on_event
  run-closed [] s same h = refl
  run-closed (e ∷ es) s same (h, hs) =
      ap (run R protocol tunnel_local_addr es) (dispatch-closed s.phase e s same h)
      ∙ run-closed es s same hs

  -- A stop whose signal is heard succeeds on a consistent host tunnel, which then does not run;
  -- but the task of the tunnel, if it waits for a connection, is as it was after any events of an
  -- endpoint that gives no new connection: it never ends.
  pub stop-run :
      (t : HostTunnel R) (s : Server R) (es : List (Event R))
      → IsConsistent R t
      → s.phase ≡ accepting
      → All (IsClosed R) es
      → let (stopped, r) = stop R true t in
        (r ≡ ok tt) × (is_running R stopped ≡ false) × (run R protocol tunnel_local_addr es s ≡ s)
  unfolding stop
  stop-run t s es c same h = (ground arith, ground arith, run-closed es s same h)
