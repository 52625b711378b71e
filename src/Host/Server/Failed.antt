-- ===== src/Host/Server/Failed.antt =====
-- A client whose request failed: `handle_connection` returns with `?`, before the forwarder that
-- would remove the local connection (lantun-core/src/host.rs).
use lantun.Map.Laws.{contains_key-get, get-insert}
use lantun.Map.{insert, contains_key, get}
use lantun.Connections.{disconnect_local_client_connection, LocalClientConnection}
use lantun.Addr.{addr_eq, SocketAddr}
use lantun.Host.{HostError, Clients, ConnectedClient, peer_eq}
use lantun.Host.Server.{
  forwarded, local_connection, request, incoming, on_event, open_socket, dispatch, requested, Event,
  handle_request, run, crashed, after_open, after_request, forwarding, Request, accepting, Server,
  add_local, serving, Phase, accept, drop_local,
}
use lantun.Base.{
  [], ◌∷◌, List, arith, none, refl, ◌∙◌, inr, Bool-cases, inl, panic, Option-cases, err, ok, some,
  false, ◌≡◌, Option, Outcome, ◌==◌, Eq,
}
use lantun.Protocol.{TunnelProtocol}
use lantun.Runtime.{Runtime}

module _ (R : Runtime) where
  open R use {PublicKey, Connection}

  instance abbrev peers : Eq PublicKey
  peers = peer_eq R

  -- The task does not serve this client.
  abbrev Away : PublicKey → Phase R → Type 0
  Away peer accepting = Unit
  Away peer (serving other) = (peer == other) ≡ false
  Away peer (forwarding other l) = (peer == other) ≡ false
  Away peer crashed = Unit

  accept-Away :
      (peer : PublicKey) (c : ConnectedClient R) (other : Option PublicKey) (conn : Connection)
      (s : Server R)
      → s.phase ≡ accepting
      → get peer s.clients ≡ some c
      → let t = accept R other conn s in Away peer t.phase × (get peer t.clients ≡ some c)
  unfolding accept
  accept-Away peer c none conn s same h = (tt, h)
  accept-Away peer c (some other) conn s same h = elim (Bool-cases (contains_key other s.clients)) [
    | inl e ↦ rw (e, same) (tt, h)
    | inr e ↦ elim (Bool-cases (peer == other)) [
      | inl f ↦ ground (arith, contains_key-get other s.clients)
      | inr f ↦ rw e (f, get-insert peer other _ s.clients ∙ rw (f, h) refl)
    ]
  ]

  drop_local-Away :
      (peer other : PublicKey) (l : LocalClientConnection) (m : Clients R)
      → (peer == other) ≡ false
      → get peer (drop_local R other l m) ≡ get peer m
  unfolding drop_local
  drop_local-Away peer other l m e = elim (Option-cases (get other m)) [
    | inl f ↦ ground arith
    | inr (c, f) ↦ ground (
      arith,
      get-insert peer other
          (record c {
            local_connections = (disconnect_local_client_connection c.local_connections l).1;
          })
          m,
    )
  ]

  module _ (protocol : TunnelProtocol) (tunnel_local_addr : SocketAddr) where
    after_open-Away :
        (o : Outcome HostError (Unit {0})) (peer other : PublicKey) (l : LocalClientConnection)
        → (peer == other) ≡ false
        → Away peer (after_open R protocol tunnel_local_addr o other l)
    after_open-Away (ok _) peer other l e = e
    after_open-Away (err x) peer other l e = tt
    after_open-Away panic peer other l e = tt

    after_request-Away :
        (a : Outcome HostError SocketAddr) (r : Request) (peer other : PublicKey) (s : Server R)
        → (peer == other) ≡ false
        → let t = after_request R protocol tunnel_local_addr a r other s in
          Away peer t.phase × (get peer t.clients ≡ get peer s.clients)
    unfolding add_local
    after_request-Away (err x) r peer other s e = (tt, refl)
    after_request-Away panic r peer other s e = (tt, refl)
    after_request-Away (ok a) r peer other s e = elim (Option-cases (get other s.clients)) [
      | inl f ↦ rw f (tt, refl)
      | inr (c, f) ↦
          rw f (after_open-Away _ peer other _ e, get-insert peer other _ s.clients ∙ rw e refl)
    ]

    on_event-Away :
        (peer : PublicKey) (c : ConnectedClient R) (p : Phase R) (e : Event R) (s : Server R)
        → s.phase ≡ p
        → Away peer p
        → get peer s.clients ≡ some c
        → let t = dispatch R protocol tunnel_local_addr p e s in
          Away peer t.phase × (get peer t.clients ≡ some c)
    unfolding handle_request
    on_event-Away peer c accepting (incoming other conn) s same a h =
        accept-Away peer c other conn s same h
    on_event-Away peer c (serving other) (request r) s same a h =
        let (away, kept) = after_request-Away (requested r) r peer other s a in (away, kept ∙ h)
    on_event-Away peer c (forwarding other l) forwarded s same a h =
        (a, drop_local-Away peer other l s.clients a ∙ h)
    on_event-Away peer c p e s same a h = (rw same a, h)

    run-Away :
        (peer : PublicKey) (c : ConnectedClient R) (es : List (Event R)) (s : Server R)
        → Away peer s.phase
        → get peer s.clients ≡ some c
        → get peer (run R protocol tunnel_local_addr es s).clients ≡ some c
    unfolding run on_event
    run-Away peer c [] s a h = h
    run-Away peer c (e ∷ es) s a h =
        let (away, kept) = on_event-Away peer c s.phase e s refl a h in
        run-Away peer c es (on_event R protocol tunnel_local_addr e s) away kept

    -- The client's entry with the local connection in it.
    abbrev pub with_local : SocketAddr → ConnectedClient R → ConnectedClient R
    with_local a c =
        let l = local_connection a in
        record c { local_connections = insert l.client_virtual_addr l c.local_connections }

    handle_request-failed :
        (r : Request) (peer : PublicKey) (c : ConnectedClient R) (s : Server R) (a : SocketAddr)
        (error : HostError)
        → get peer s.clients ≡ some c
        → requested r ≡ ok a
        → open_socket protocol tunnel_local_addr (local_connection a).client_virtual_addr r
          ≡ err error
        → handle_request R protocol tunnel_local_addr r peer s
          ≡ record { phase = accepting; clients = insert peer (with_local a c) s.clients }
    unfolding handle_request add_local
    handle_request-failed r peer c s a error h read failed = rw (read, h, failed) refl

    -- If the request of a client that the task of a host tunnel knows is read, but the socket to
    -- the exposed service cannot be opened, then the local connection is in the entry of the
    -- client, and the entry never changes again, whatever events come.
    pub run-failed :
        (r : Request) (peer : PublicKey) (c : ConnectedClient R) (s : Server R) (a : SocketAddr)
        (error : HostError) (es : List (Event R))
        → get peer s.clients ≡ some c
        → requested r ≡ ok a
        → open_socket protocol tunnel_local_addr (local_connection a).client_virtual_addr r
          ≡ err error
        → get peer
            (run R protocol tunnel_local_addr es
              (handle_request R protocol tunnel_local_addr r peer s)).clients
          ≡ some (with_local a c)
    run-failed r peer c s a error es h read failed =
        rw (handle_request-failed r peer c s a error h read failed) (
          run-Away peer (with_local a c) es _ tt
            (get-insert peer peer (with_local a c) s.clients ∙ ground arith))
