-- ===== src/Host/Server/Safety.antt =====
-- The task of a host tunnel does not panic (lantun-core/src/host.rs, `start` and
-- `handle_connection`).
use lantun.Host.Server.Peers.{drop_local-Change, wrote, kept, Change}
use lantun.Map.Laws.{contains_key-iff_get, contains_key-insert}
use lantun.Map.{get, contains_key}
use lantun.Addr.{SocketAddr}
use lantun.Host.{HostError, Clients, peer_eq}
use lantun.Protocol.{udp, tcp, TunnelProtocol}
use lantun.Connections.{LocalClientConnection}
use lantun.Base.{
  none, inr, inl, Option-cases, [], refl, err, ok, ◌∷◌, All, some, List, arith, true, Outcome, ◌≡◌,
  panic, Eq, ◌≢◌,
}
use lantun.Runtime.{Runtime}
use lantun.Host.Server.{
  forwarded, on_event, crashed, after_open, after_request, drop_local, forwarding, accepting,
  dispatch, add_local, handle_request, request, requested, run, serving, Server, incoming, Event,
  Phase, accept, Request, open_socket,
}

-- The entry that the task works on is there.
abbrev pub Known : (R : Runtime) → Phase R → Clients R → Type 0
Known R accepting clients = Unit
Known R (serving peer) clients = contains_key ⦃e = peer_eq R⦄ peer clients ≡ true
Known R (forwarding peer l) clients = contains_key ⦃e = peer_eq R⦄ peer clients ≡ true
Known R crashed clients = ⊥

-- What comes from outside is no panic: a connection has a node id, a message is read or refused,
-- and a connected UDP socket has a peer.
abbrev pub IsBenign : (R : Runtime) → Event R → Type 0
IsBenign R (incoming none conn) = ⊥
IsBenign R (request r) = (r.packet ≢ panic) × (r.has_peer ≡ true)
IsBenign R _ = Unit

requested-ne-panic : (r : Request) → r.packet ≢ panic → requested r ≢ panic
requested-ne-panic r h = ground arith

open_socket-ne-panic :
    (protocol : TunnelProtocol) (addr virtual : SocketAddr) (r : Request)
    → r.has_peer ≡ true
    → open_socket protocol addr virtual r ≢ panic
unfolding open_socket
open_socket-ne-panic tcp addr virtual r h = ground arith
open_socket-ne-panic udp addr virtual r h = ground arith

module _ (R : Runtime) where
  open R use {PublicKey, Connection}

  instance abbrev peers : Eq PublicKey
  peers = peer_eq R

  accept-Known :
      (peer : PublicKey) (conn : Connection) (s : Server R)
      → s.phase ≡ accepting
      → let t = accept R (some peer) conn s in Known R t.phase t.clients
  unfolding accept
  accept-Known peer conn s h = ground (
    arith,
    contains_key-insert peer peer (record { local_connections = []; connection = conn }) s.clients,
  )

  drop_local-contains :
      (peer : PublicKey) (l : LocalClientConnection) (m : Clients R)
      → contains_key peer m ≡ true
      → contains_key peer (drop_local R peer l m) ≡ true
  drop_local-contains peer l m h = after (drop_local-Change R peer l m)
    where
      after : {m' : Clients R} → Change R m m' → contains_key peer m' ≡ true
      after (kept same) = rw same h
      after (wrote other c same) = rw (same, contains_key-insert peer other c m, h) (ground arith)

  module _ (protocol : TunnelProtocol) (tunnel_local_addr : SocketAddr) where
    after_open-Known :
        (o : Outcome HostError (Unit {0})) (peer : PublicKey) (l : LocalClientConnection)
        (m : Clients R)
        → o ≢ panic
        → contains_key peer m ≡ true
        → Known R (after_open R protocol tunnel_local_addr o peer l) m
    after_open-Known (ok _) peer l m n h = h
    after_open-Known (err e) peer l m n h = tt
    after_open-Known panic peer l m n h = absurd (n refl)

    handle_request-Known :
        (r : Request) (peer : PublicKey) (s : Server R) (a : Outcome HostError SocketAddr)
        → a ≢ panic
        → r.has_peer ≡ true
        → contains_key peer s.clients ≡ true
        → let t = after_request R protocol tunnel_local_addr a r peer s in Known R t.phase t.clients
    unfolding add_local
    handle_request-Known r peer s (err e) n p h = tt
    handle_request-Known r peer s panic n p h = absurd (n refl)
    handle_request-Known r peer s (ok a) n p h = elim (Option-cases (get peer s.clients)) [
      | inl e ↦ absurd ((contains_key-iff_get peer s.clients).0 h e)
      | inr (c, e) ↦ rw e (
          after_open-Known _ peer _ _ (open_socket-ne-panic protocol tunnel_local_addr _ r p)
            (rw contains_key-insert (ground arith)))
    ]

    on_event-Known :
        (p : Phase R) (e : Event R) (s : Server R)
        → s.phase ≡ p
        → IsBenign R e
        → Known R p s.clients
        → let t = dispatch R protocol tunnel_local_addr p e s in Known R t.phase t.clients
    unfolding handle_request
    on_event-Known accepting (incoming (some peer) conn) s same b h = accept-Known peer conn s same
    on_event-Known (serving peer) (request r) s same b h =
        handle_request-Known r peer s (requested r) (requested-ne-panic r b.0) b.1 h
    on_event-Known (forwarding peer l) forwarded s same b h = drop_local-contains peer l s.clients h
    on_event-Known accepting (incoming none conn) s same b h = absurd b
    on_event-Known p e s same b h = rw same h

    -- Whatever connections, requests and errors come, the task of a host tunnel does not panic,
    -- and the client that it serves is in its map, if that held at first, every connection has a
    -- node id, no receive panics and every connected UDP socket has a peer.
    pub run-Known :
        (es : List (Event R)) (s : Server R)
        → All (IsBenign R) es
        → Known R s.phase s.clients
        → let t = run R protocol tunnel_local_addr es s in Known R t.phase t.clients
    unfolding run
    run-Known [] s b h = h
    run-Known (e ∷ es) s (b, bs) h =
        run-Known es (on_event R protocol tunnel_local_addr e s) bs
          (unfold on_event in on_event-Known s.phase e s refl b h)
