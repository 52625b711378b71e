-- ===== src/Host/Server/Peers.antt =====
-- Which clients the task of a host tunnel knows (lantun-core/src/host.rs, `start`).
use lantun.Map.Laws.{contains_key-insert, length-insert}
use lantun.Map.{contains_key, get, insert}
use lantun.Connections.{disconnect_local_client_connection, LocalClientConnection}
use lantun.Addr.{addr_eq, SocketAddr}
use lantun.Protocol.{TunnelProtocol}
use lantun.Base.{
  ◌∷◌, ◌≤◌, length, true, List, [], panic, ok, err, refl, none, arith, Outcome, inr, Bool-cases,
  inl, some, Option-cases, Option, ◌≡◌, Eq,
}
use lantun.Host.Server.{
  crashed, accepting, run, forwarded, local_connection, requested, forwarding, request,
  after_request, serving, incoming, dispatch, Phase, Request, Event, add_local, Server,
  handle_request, on_event, accept, drop_local,
}
use lantun.Host.{HostError, ConnectedClient, peer_eq, Clients}
use lantun.Runtime.{Runtime}

module _ (R : Runtime) where
  open R use {PublicKey, Connection}

  instance abbrev peers : Eq PublicKey
  peers = peer_eq R

  -- An event writes the entry of one client, or none.
  pub data Change (m m' : Clients R) : Type 0 where
    kept : m' ≡ m → Change m m'
    wrote : (peer : PublicKey) (c : ConnectedClient R) → m' ≡ insert peer c m → Change m m'

  accept-Change :
      (peer : Option PublicKey) (conn : Connection) (s : Server R)
      → Change s.clients (accept R peer conn s).clients
  unfolding accept
  accept-Change none conn s = kept refl
  accept-Change (some peer) conn s = elim (Bool-cases (contains_key peer s.clients)) [
    | inl e ↦ kept (ground arith)
    | inr e ↦ wrote peer (record { local_connections = []; connection = conn }) (ground arith)
  ]

  pub drop_local-Change :
      (peer : PublicKey) (l : LocalClientConnection) (m : Clients R)
      → Change m (drop_local R peer l m)
  unfolding drop_local
  drop_local-Change peer l m = elim (Option-cases (get peer m)) [
    | inl e ↦ kept (ground arith)
    | inr (c, e) ↦
        wrote peer
          (record c {
            local_connections = (disconnect_local_client_connection c.local_connections l).1;
          })
          (ground arith)
  ]

  module _ (protocol : TunnelProtocol) (tunnel_local_addr : SocketAddr) where
    handle_request-Change :
        (r : Request) (peer : PublicKey) (s : Server R)
        → Change s.clients (handle_request R protocol tunnel_local_addr r peer s).clients
    unfolding handle_request add_local
    handle_request-Change r peer s = after (requested r)
      where
        with_local : SocketAddr → ConnectedClient R → ConnectedClient R
        with_local a c =
            let l = local_connection a in
            record c { local_connections = insert l.client_virtual_addr l c.local_connections }

        after :
            (a : Outcome HostError SocketAddr)
            → Change s.clients (after_request R protocol tunnel_local_addr a r peer s).clients
        after (err e) = kept refl
        after panic = kept refl
        after (ok a) = elim (Option-cases (get peer s.clients)) [
          | inl e ↦ kept (ground arith)
          | inr (c, e) ↦ wrote peer (with_local a c) (ground arith)
        ]

    on_event-Change :
        (e : Event R) (s : Server R)
        → Change s.clients (on_event R protocol tunnel_local_addr e s).clients
    unfolding on_event
    on_event-Change e s = by_phase s.phase e
      where
        by_phase :
            (p : Phase R) (e : Event R)
            → Change s.clients (dispatch R protocol tunnel_local_addr p e s).clients
        by_phase (accepting) (incoming peer conn) = accept-Change peer conn s
        by_phase (serving peer) (request r) = handle_request-Change r peer s
        by_phase (forwarding peer l) forwarded = drop_local-Change peer l s.clients
        by_phase accepting e = kept (ground arith)
        by_phase (serving peer) e = kept (ground arith)
        by_phase (forwarding peer l) e = kept (ground arith)
        by_phase crashed e = kept refl

    -- A client that the task knows, it knows after any events.
    pub contains_key-run :
        (es : List (Event R)) (s : Server R) (peer : PublicKey)
        → contains_key peer s.clients ≡ true
        → contains_key peer (run R protocol tunnel_local_addr es s).clients ≡ true
    unfolding run
    contains_key-run [] s peer h = h
    contains_key-run (e ∷ es) s peer h =
        contains_key-run es (on_event R protocol tunnel_local_addr e s) peer
          (still (on_event-Change e s))
      where
        still : {m : Clients R} → Change s.clients m → contains_key peer m ≡ true
        still (kept same) = rw same h
        still (wrote other c same) =
            rw (same, contains_key-insert peer other c s.clients, h) (ground arith)

    -- The number of clients in the map of a host tunnel never falls, whatever events come.
    pub length-clients-run :
        (es : List (Event R)) (s : Server R)
        → length s.clients ≤ length (run R protocol tunnel_local_addr es s).clients
    unfolding run
    length-clients-run [] s = omega arith
    length-clients-run (e ∷ es) s = omega (
      arith,
      longer (on_event-Change e s),
      length-clients-run es (on_event R protocol tunnel_local_addr e s),
    )
      where
        longer : {m : Clients R} → Change s.clients m → length s.clients ≤ length m
        longer (kept same) = rw same (omega arith)
        longer (wrote other c same) = rw same (ground (arith, length-insert other c s.clients))

    -- A client that the task of a host tunnel knows is known after any events, and when it comes
    -- again it is passed over: the state does not change.
    pub returning_peer_ignored :
        (es : List (Event R)) (s : Server R) (peer : PublicKey) (conn : Connection)
        → contains_key peer s.clients ≡ true
        → let t = run R protocol tunnel_local_addr es s in
          (contains_key peer t.clients ≡ true)
          × (on_event R protocol tunnel_local_addr (incoming (some peer) conn) t ≡ t)
    unfolding on_event accept
    returning_peer_ignored es s peer conn h = (
      contains_key-run es s peer h,
      ignored (run R protocol tunnel_local_addr es s) (contains_key-run es s peer h),
    )
      where
        ignored :
            (t : Server R)
            → contains_key peer t.clients ≡ true
            → on_event R protocol tunnel_local_addr (incoming (some peer) conn) t ≡ t
        ignored t known = ground arith
