-- ===== src/Link/Paired.antt =====
-- Each stream is forwarded for the application that it was opened for (lantun-core/src/client.rs,
-- host.rs).
use lantun.Link.Rounds.{Round-requested}
use mathlib.Core.Path.{subst}
use lantun.Host.Server.{Server, Request}
use lantun.Packets.{SendCalls}
use lantun.Map.{contains_key}
use lantun.Link.Queues.{opening-Even, Sent-Aligned, dispatch-Even, Even, Aligned}
use lantun.Host.Server.Served.{
  on_event-forwarding, contains_key-on_event, on_event-known, on_event-away,
}
use lantun.Host.Server.Moves.{request-Answer, opens, leaves, Answer, IsServed}
use lantun.Host.{peer_eq}
use lantun.Connections.{conn_req, LocalClientConnection}
use mathlib.Core.Option
use mathlib.Core.Option.{some-injective}
use lantun.Base.{
  none, arith, ◌≢◌, Option, List, inr, inl, refl, sym, some, true, ◌⊎◌, ◌≡◌, Bytes, Eq,
}
use lantun.Addr.{without_scope, SocketAddr}
use lantun.Protocol.{TunnelProtocol}
use lantun.Link.{
  client_shows, here, linked, next, Steps, answering, Round, server_answers, opening, Sent,
  server_moves, IsNew, client_opens, client_moves, Quiet, Step, Link, IsPacketCodec, PacketCodec,
}
use lantun.Runtime.{Runtime}
use lantun.Client.Listener
use lantun.Host.Server

taken_for :
    (current : Option SocketAddr) (a : SocketAddr)
    → Option.map without_scope current ≡ some a
    → (addr : SocketAddr) × (current ≡ some addr) × (a ≡ without_scope addr)
taken_for none a e = cc
taken_for (some addr) a e = (addr, refl, sym (some-injective _ _ e))

module _ (R : Runtime) (C : PacketCodec) (L : IsPacketCodec C) (peer : R.PublicKey)
    (client_protocol protocol : TunnelProtocol) (tunnel_local_addr : SocketAddr) where
  instance abbrev peers : Eq R.PublicKey
  peers = peer_eq R

  -- The queues agree; or the host has been with the client, and is not any more.
  abbrev pub Queued : Link R → Type 0
  Queued s =
      (Aligned C s.requests s.streams × Even C s.client.phase s.requests s.streams)
      ⊎ ((contains_key peer s.server.clients ≡ true) × ¬ IsServed R peer s.server.phase)

  abbrev pub IsPaired : Link R → Type 0
  IsPaired s =
      (l : LocalClientConnection)
      → s.server.phase ≡ Server.forwarding peer l
      → Option.map without_scope s.current ≡ some l.client_local_addr

  pub record Inv (s : Link R) : Type 0 where
    pub known : IsServed R peer s.server.phase → contains_key peer s.server.clients ≡ true
    pub queued : Queued s
    pub paired : IsPaired s

  client-Queued :
      (s : Link R) (e : Listener.Event)
      → Quiet client_protocol e s.client
      → Queued s
      → Queued (record s { client = Listener.on_event client_protocol e s.client })
  unfolding Listener.on_event
  client-Queued s e quiet (inl (aligned, even)) = inl (
    aligned,
    dispatch-Even C s.requests s.streams client_protocol s.client.phase e s.client refl even quiet,
  )
  client-Queued s e quiet (inr left) = inr left

  opening-Queued :
      (s : Link R) (addr : SocketAddr) (calls : SendCalls) (out : List Bytes)
      → s.client.phase ≡ Listener.listening
      → IsNew client_protocol addr s.client
      → Sent C (conn_req addr) calls out
      → Queued s
      → Queued (opening R C peer client_protocol protocol tunnel_local_addr addr calls out s)
  unfolding Listener.on_event
  opening-Queued s addr calls out at new sent (inl (aligned, even)) =
      let n = subst (λ p. Even C p s.requests s.streams) at even in
      inl (
        Sent-Aligned C addr calls out s.requests s.streams sent n aligned,
        opening-Even C client_protocol addr calls out s.requests s.streams s.client s.client.phase
            at new sent n,
      )
  opening-Queued s addr calls out at new sent (inr left) = inr left

  server-Queued :
      (s : Link R) (e : Server.Event R)
      → Queued s
      → Queued (record s { server = Server.on_event R protocol tunnel_local_addr e s.server })
  server-Queued s e (inl q) = inl q
  server-Queued s e (inr (known, away)) = inr (
    contains_key-on_event R protocol tunnel_local_addr peer e s.server known,
    on_event-away R protocol tunnel_local_addr peer e s.server known away,
  )

  answering-Queued :
      (s : Link R) (r : Request) (streams : List SocketAddr) (requests : List Bytes)
      (current : Option SocketAddr)
      → s.server.phase ≡ Server.serving peer
      → Round C r s.streams s.requests streams requests current
      → (IsServed R peer s.server.phase → contains_key peer s.server.clients ≡ true)
      → Queued s
      → let t =
          answering R C peer client_protocol protocol tunnel_local_addr r streams requests current
            s in
        Queued t × IsPaired t
  answering-Queued s r streams requests current at round known q =
      by_answer (request-Answer R protocol tunnel_local_addr r peer s.server at) q
    where
      t : Link R
      t = answering R C peer client_protocol protocol tunnel_local_addr r streams requests current s

      still : contains_key peer t.server.clients ≡ true
      still =
          contains_key-on_event R protocol tunnel_local_addr peer (Server.request r) s.server
            (known (subst (IsServed R peer) (sym at) refl))

      by_answer : Answer R r peer t.server.phase → Queued s → Queued t × IsPaired t
      by_answer (leaves nobody) q = (
        inr (still, nobody peer),
        λ l h. absurd (nobody peer (subst (IsServed R peer) (sym h) refl)),
      )
      by_answer (opens l asked at') (inr (known', away)) =
          absurd (away (subst (IsServed R peer) (sym at) refl))
      by_answer (opens l asked at') (inl (aligned, even)) =
          let (aligned', even', same) =
            Round-requested C L s.client.phase l.client_local_addr round asked aligned even in
          (
            inl (aligned', even'),
            λ k h. let l_is : l ≡ k = ground (arith, at', h) in rw (same, l_is) refl,
          )

  server-IsPaired :
      (s : Link R) (e : Server.Event R)
      → ((r : Request) → s.server.phase ≡ Server.serving peer → e ≢ Server.request r)
      → IsPaired s
      → IsPaired (record s { server = Server.on_event R protocol tunnel_local_addr e s.server })
  server-IsPaired s e other paired l h =
      elim (on_event-forwarding R protocol tunnel_local_addr peer e s.server l h) [
        | inl before ↦ paired l before
        | inr (r, at, same, asked) ↦ absurd (other r at same)
      ]

  Step-Inv :
      {s t : Link R} → Step R C peer client_protocol protocol tunnel_local_addr s t → Inv s → Inv t
  Step-Inv (client_moves s e quiet) inv = record {
    known = inv.known;
    queued = client-Queued s e quiet inv.queued;
    paired = inv.paired;
  }
  Step-Inv (client_opens s addr calls out at new sent) inv = record {
    known = inv.known;
    queued = opening-Queued s addr calls out at new sent inv.queued;
    paired = inv.paired;
  }
  Step-Inv (server_moves s e other) inv = record {
    known = on_event-known R protocol tunnel_local_addr peer e s.server inv.known;
    queued = server-Queued s e inv.queued;
    paired = server-IsPaired s e other inv.paired;
  }
  Step-Inv (client_shows s) inv = record {
    known = inv.known;
    queued = inv.queued;
    paired = inv.paired;
  }
  Step-Inv (server_answers s r streams requests current at round shown) inv =
      let (queued, paired) =
        answering-Queued s r streams requests current at round inv.known inv.queued in
      record {
        known =
            on_event-known R protocol tunnel_local_addr peer (Server.request r) s.server inv.known;
        queued = queued;
        paired = paired;
      }

  Steps-Inv :
      {s t : Link R} → Steps R C peer client_protocol protocol tunnel_local_addr s t → Inv s → Inv t
  Steps-Inv here inv = inv
  Steps-Inv (next st more) inv = Steps-Inv more (Step-Inv st inv)

  -- Whatever a client and its host do, from a client as it is spawned and a host that does not
  -- serve it, with a codec that keeps the kind, IP and port of an address, and of which a cut
  -- message is not decoded: where the host forwards a local connection of this client, the stream
  -- that it took is one that the client opened for an application, and the connection has the
  -- address of that application, but for its flow and scope.
  pub Steps-paired :
      (server : Server R) {t : Link R} (l : LocalClientConnection)
      → ¬ IsServed R peer server.phase
      → Steps R C peer client_protocol protocol tunnel_local_addr (linked R server) t
      → t.server.phase ≡ Server.forwarding peer l
      → (addr : SocketAddr) × (t.current ≡ some addr) × (l.client_local_addr ≡ without_scope addr)
  Steps-paired server {t} l away steps at =
      let start : Inv (linked R server) = record {
        known = λ served. absurd (away served);
        queued = inl (tt, refl);
        paired = λ k e. absurd (away (subst (IsServed R peer) (sym e) refl));
      } in
      let end : Inv t = Steps-Inv steps start in
      taken_for t.current l.client_local_addr (end.paired l at)
