-- ===== src/Host/Server/Moves.antt =====
-- Which client the task of a host tunnel serves, from one event to the next (lantun-core/src/host.rs,
-- `start` and `handle_connection`).
use mathlib.Core.Path.{subst}
use lantun.Map.Laws.{contains_key-insert}
use lantun.Map.{contains_key}
use lantun.Addr.{SocketAddr}
use lantun.Host.{Clients, HostError, peer_eq}
use lantun.Protocol.{TunnelProtocol}
use lantun.Base.{
  sym, none, [], inr, panic, refl, arith, err, inl, true, Bool-cases, false, Outcome, ok, some,
  Option, Eq, ◌≡◌,
}
use lantun.Connections.{LocalClientConnection}
use lantun.Runtime.{Runtime}
use lantun.Host.Server.{
  crashed, forwarded, open_socket, add_local, after_add, request, after_open, after_request,
  incoming, dispatch, local_connection, handle_request, on_event, accepting, forwarding, requested,
  accept, serving, Phase, Server, Event, Request,
}

module _ (R : Runtime) where
  open R use {PublicKey, Connection}

  instance abbrev peers : Eq PublicKey
  peers = peer_eq R

  -- The task is in `handle_connection` for this client.
  abbrev pub IsServed : PublicKey → Phase R → Type 0
  IsServed q (serving peer) = peer ≡ q
  IsServed q (forwarding peer l) = peer ≡ q
  IsServed q _ = ⊥

  -- Where a round of `handle_connection` leads: to the forwarder of the connection that was asked
  -- for, or out of `handle_connection`.
  pub data Answer (r : Request) (peer : PublicKey) (p : Phase R) : Type 0 where
    opens :
        (l : LocalClientConnection)
        → requested r ≡ ok l.client_local_addr
        → p ≡ forwarding peer l
        → Answer r peer p
    leaves : ((q : PublicKey) → ¬ IsServed q p) → Answer r peer p

  pub data Move (e : Event R) (s s' : Server R) : Type 0 where
    stays : s' ≡ s → Move e s s'
    accepts :
        (peer : PublicKey)
        → s.phase ≡ accepting
        → contains_key peer s.clients ≡ false
        → contains_key peer s'.clients ≡ true
        → s'.phase ≡ serving peer
        → Move e s s'
    crashes : ((q : PublicKey) → ¬ IsServed q s'.phase) → Move e s s'
    answers :
        (r : Request) (peer : PublicKey)
        → s.phase ≡ serving peer
        → e ≡ request r
        → Answer r peer s'.phase
        → Move e s s'
    returns :
        (peer : PublicKey) (l : LocalClientConnection)
        → s.phase ≡ forwarding peer l
        → s'.phase ≡ serving peer
        → Move e s s'

  accept-Move :
      (e : Event R) (peer : Option PublicKey) (conn : Connection) (s : Server R)
      → s.phase ≡ accepting
      → Move e s (accept R peer conn s)
  unfolding accept
  accept-Move e none conn s h = crashes (λ q x. x)
  accept-Move e (some peer) conn s h = elim (Bool-cases (contains_key peer s.clients)) [
    | inl known ↦ stays (ground arith)
    | inr new ↦ rw new (
        accepts peer h new
          (ground (
            arith,
            contains_key-insert peer peer (record { local_connections = []; connection = conn })
                s.clients,
          ))
          refl)
  ]

  module _ (protocol : TunnelProtocol) (tunnel_local_addr : SocketAddr) where
    after_open-Answer :
        (o : Outcome HostError (Unit {0})) (r : Request) (peer : PublicKey)
        (l : LocalClientConnection)
        → requested r ≡ ok l.client_local_addr
        → Answer r peer (after_open R protocol tunnel_local_addr o peer l)
    after_open-Answer (ok done) r peer l h = opens l h refl
    after_open-Answer (err e) r peer l h = leaves (λ q x. x)
    after_open-Answer panic r peer l h = leaves (λ q x. x)

    after_add-Answer :
        (a : Outcome HostError (Clients R)) (r : Request) (peer : PublicKey)
        (l : LocalClientConnection) (s : Server R)
        → requested r ≡ ok l.client_local_addr
        → Answer r peer (after_add R protocol tunnel_local_addr a r peer l s).phase
    after_add-Answer (ok m) r peer l s h =
        after_open-Answer (open_socket protocol tunnel_local_addr l.client_virtual_addr r) r peer l
          h
    after_add-Answer (err e) r peer l s h = leaves (λ q x. x)
    after_add-Answer panic r peer l s h = leaves (λ q x. x)

    pub handle_request-Answer :
        (r : Request) (peer : PublicKey) (s : Server R)
        → Answer r peer (handle_request R protocol tunnel_local_addr r peer s).phase
    unfolding handle_request local_connection
    handle_request-Answer r peer s = by_address (requested r) refl
      where
        by_address :
            (a : Outcome HostError SocketAddr)
            → requested r ≡ a
            → Answer r peer (after_request R protocol tunnel_local_addr a r peer s).phase
        by_address (ok a) e =
            let l = local_connection a in
            after_add-Answer (add_local R peer l s.clients) r peer l s e
        by_address (err x) e = leaves (λ q y. y)
        by_address panic e = leaves (λ q y. y)

    pub request-Answer :
        (r : Request) (peer : PublicKey) (s : Server R)
        → s.phase ≡ serving peer
        → Answer r peer (on_event R protocol tunnel_local_addr (request r) s).phase
    unfolding on_event
    request-Answer r peer s at =
        subst (λ p. Answer r peer (dispatch R protocol tunnel_local_addr p (request r) s).phase)
          (sym at) (handle_request-Answer r peer s)

    pub on_event-Move :
        (e : Event R) (s : Server R) → Move e s (on_event R protocol tunnel_local_addr e s)
    unfolding on_event
    on_event-Move e s = by_phase s.phase e refl
      where
        by_phase :
            (p : Phase R) (e : Event R)
            → s.phase ≡ p
            → Move e s (dispatch R protocol tunnel_local_addr p e s)
        by_phase accepting (incoming peer conn) h = accept-Move (incoming peer conn) peer conn s h
        by_phase (serving peer) (request r) h =
            answers r peer h refl (handle_request-Answer r peer s)
        by_phase (forwarding peer l) forwarded h = returns peer l h refl
        by_phase accepting e h = stays (ground arith)
        by_phase (serving peer) e h = stays (ground arith)
        by_phase (forwarding peer l) e h = stays (ground arith)
        by_phase crashed e h = stays refl
