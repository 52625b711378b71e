-- ===== src/Link/Unwritten.antt =====
-- A host waits for the first bytes of the client's application (lantun-core/src/client.rs, host.rs).
use lantun.Host.Server.Served.{on_event-forwarding}
use lantun.Connections.{LocalClientConnection}
use lantun.Host.Server.{Request}
use lantun.Addr.{SocketAddr}
use lantun.Protocol.{TunnelProtocol}
use lantun.Link.{
  received, broken, no_request, no_stream, server_answers, Round, server_moves, client_opens,
  client_moves, client_shows, Step, Link, PacketCodec,
}
use lantun.Runtime.{Runtime}
use lantun.Base.{arith, inr, ok, inl, ◌≤◌, length, Option, ◌≢◌, Bytes, List, ◌≡◌}
use mathlib.Core.Path.{subst}
use lantun.Host.Server

module _ (R : Runtime) (C : PacketCodec) (peer : R.PublicKey)
    (client_protocol protocol : TunnelProtocol) (tunnel_local_addr : SocketAddr) where
  abbrev pub IsShow :
      {s t : Link R} → Step R C peer client_protocol protocol tunnel_local_addr s t → Type 0
  IsShow (client_shows s) = Unit
  IsShow _ = ⊥

  -- Steps in which nothing is written to a stream of the client, and none is dropped.
  pub data Silent : Link R → Link R → Type 0 where
    here : {s : Link R} → Silent s s
    next :
        {s t u : Link R} (st : Step R C peer client_protocol protocol tunnel_local_addr s t)
        → ¬ IsShow st
        → Silent t u
        → Silent s u

  -- The host can see no stream, and forwards nothing for the client.
  abbrev pub IsWaiting : Link R → Type 0
  IsWaiting s =
      (s.shown ≡ 0) × ((l : LocalClientConnection) → s.server.phase ≢ Server.forwarding peer l)

  same_request :
      (r q : Request) → ◌≡◌ {A = Server.Event R} (Server.request r) (Server.request q) → q ≡ r
  same_request r q e = cc

  Round-unseen :
      {r : Request} {streams streams' : List SocketAddr} {requests requests' : List Bytes}
      {current : Option SocketAddr} (a : SocketAddr)
      → Round C r streams requests streams' requests' current
      → length streams ≤ length streams'
      → Server.requested r ≢ ok a
  Round-unseen a (no_stream streams requests m e) few h = ground arith
  Round-unseen a (no_request addr streams requests m e) few h = omega (arith, few)
  Round-unseen a (broken addr streams b requests m e) few h = omega (arith, few)
  Round-unseen a (received addr streams chunks requests rest o e read packet) few h =
      omega (arith, few)

  Step-IsWaiting :
      {s t : Link R} (st : Step R C peer client_protocol protocol tunnel_local_addr s t)
      → ¬ IsShow st
      → IsWaiting s
      → IsWaiting t
  Step-IsWaiting (client_moves s e quiet) n (unseen, none_yet) = (unseen, none_yet)
  Step-IsWaiting (client_opens s addr calls out at new sent) n (unseen, none_yet) =
      (unseen, none_yet)
  Step-IsWaiting (client_shows s) n w = absurd (n tt)
  Step-IsWaiting (server_moves s e other) n (unseen, none_yet) = (
    unseen,
    λ l h. elim (on_event-forwarding R protocol tunnel_local_addr peer e s.server l h) [
      | inl before ↦ absurd (none_yet l before)
      | inr (r, at, same, asked) ↦ absurd (other r at same)
    ],
  )
  Step-IsWaiting (server_answers s r streams requests current at round shown) n (unseen, none_yet) =
      (
        omega (arith, unseen),
        λ l h.
            elim (on_event-forwarding R protocol tunnel_local_addr peer (Server.request r) s.server
              l h) [
                | inl before ↦ absurd (none_yet l before)
                | inr (q, at', same, asked) ↦ absurd (
                    Round-unseen l.client_local_addr round (omega (arith, unseen, shown)) (
                      subst (λ x. Server.requested x ≡ ok l.client_local_addr)
                        (same_request r q same) asked))
              ],
      )

  -- As long as nothing is written to a stream of the client, and none is dropped, a host that
  -- could see none of its streams and forwarded nothing for it still sees none and forwards
  -- nothing for it, whatever else the two do: with a service that is to speak first, both sides
  -- wait.
  pub Silent-IsWaiting : {s t : Link R} → Silent s t → IsWaiting s → IsWaiting t
  Silent-IsWaiting here w = w
  Silent-IsWaiting (next st n more) w = Silent-IsWaiting more (Step-IsWaiting st n w)
