-- ===== src/Host/Server/Served.antt =====
-- Which client the task of a host tunnel serves after an event (lantun-core/src/host.rs, `start` and
-- `handle_connection`).
use lantun.Host.Server.Peers.{contains_key-run}
use mathlib.Core.Path.{subst}
use lantun.Map.{contains_key}
use lantun.Addr.{SocketAddr}
use lantun.Host.{peer_eq}
use lantun.Protocol.{TunnelProtocol}
use lantun.Base.{ap, ◌∙◌, ◌∷◌, sym, ◌⊎◌, [], inr, refl, arith, inl, true, false, ok, Eq, ◌≡◌}
use lantun.Connections.{LocalClientConnection}
use lantun.Runtime.{Runtime}
use lantun.Host.Server.{
  run, request, on_event, forwarding, requested, serving, Server, Event, Request,
}
use lantun.Host.Server.Moves.{
  returns, leaves, opens, answers, crashes, accepts, stays, on_event-Move, Move, IsServed,
}

module _ (R : Runtime) (protocol : TunnelProtocol) (tunnel_local_addr : SocketAddr) where
  open R use {PublicKey, Connection}

  instance abbrev peers : Eq PublicKey
  peers = peer_eq R

  module _ (peer : PublicKey) (e : Event R) (s : Server R) where
    pub contains_key-on_event :
        contains_key peer s.clients ≡ true
        → contains_key peer (on_event R protocol tunnel_local_addr e s).clients ≡ true
    unfolding run
    contains_key-on_event h = contains_key-run R protocol tunnel_local_addr (e ∷ []) s peer h

    -- A client that is served is known.
    pub on_event-known :
        (IsServed R peer s.phase → contains_key peer s.clients ≡ true)
        → let t = on_event R protocol tunnel_local_addr e s in
          IsServed R peer t.phase → contains_key peer t.clients ≡ true
    on_event-known known served = by_move (on_event-Move R protocol tunnel_local_addr e s) served
      where
        t : Server R
        t = on_event R protocol tunnel_local_addr e s

        by_move : Move R e s t → IsServed R peer t.phase → contains_key peer t.clients ≡ true
        by_move (stays same) served =
            contains_key-on_event (known (subst (λ u. IsServed R peer u.phase) same served))
        by_move (accepts p h new there at) served =
            subst (λ q. contains_key q t.clients ≡ true) (subst (IsServed R peer) at served) there
        by_move (crashes nobody) served = absurd (nobody peer served)
        by_move (answers r p at same (opens l asked at')) served =
            contains_key-on_event
              (known (subst (IsServed R peer) (sym at) (subst (IsServed R peer) at' served)))
        by_move (answers r p at same (leaves nobody)) served = absurd (nobody peer served)
        by_move (returns p l at at') served =
            contains_key-on_event
              (known (subst (IsServed R peer) (sym at) (subst (IsServed R peer) at' served)))

    -- A client that is known and not served is not served again.
    pub on_event-away :
        contains_key peer s.clients ≡ true
        → ¬ IsServed R peer s.phase
        → ¬ IsServed R peer (on_event R protocol tunnel_local_addr e s).phase
    on_event-away known away = by_move (on_event-Move R protocol tunnel_local_addr e s)
      where
        by_move : {t : Server R} → Move R e s t → ¬ IsServed R peer t.phase
        by_move (stays same) served = away (subst (λ u. IsServed R peer u.phase) same served)
        by_move (accepts p h new there at) served =
            let known' =
              subst (λ q. contains_key q s.clients ≡ false) (subst (IsServed R peer) at served)
                new in
            cc
        by_move (crashes nobody) served = nobody peer served
        by_move (answers r p at same (opens l asked at')) served =
            away (subst (IsServed R peer) (sym at) (subst (IsServed R peer) at' served))
        by_move (answers r p at same (leaves nobody)) served = nobody peer served
        by_move (returns p l at at') served =
            away (subst (IsServed R peer) (sym at) (subst (IsServed R peer) at' served))

    -- A connection that is forwarded was so before, or has been asked for.
    pub on_event-forwarding :
        (l : LocalClientConnection)
        → (on_event R protocol tunnel_local_addr e s).phase ≡ forwarding peer l
        → (s.phase ≡ forwarding peer l)
          ⊎ ((r : Request) × (s.phase ≡ serving peer)
              × (e ≡ request r)
              × (requested r ≡ ok l.client_local_addr))
    on_event-forwarding l h = by_move (on_event-Move R protocol tunnel_local_addr e s) h
      where
        by_move :
            {t : Server R}
            → Move R e s t
            → t.phase ≡ forwarding peer l
            → (s.phase ≡ forwarding peer l)
              ⊎ ((r : Request) × (s.phase ≡ serving peer)
                  × (e ≡ request r)
                  × (requested r ≡ ok l.client_local_addr))
        by_move (stays same) h = inl (rw (← same) h)
        by_move (accepts p f new there at) h = cc
        by_move (crashes nobody) h = absurd (nobody peer (rw h refl))
        by_move (answers r p at same (opens k asked at')) h =
            let both : (p ≡ peer) × (k ≡ l) = ground (arith, at', h) in
            inr (r, at ∙ ap serving both.0, same, asked ∙ ap (λ k. ok k.client_local_addr) both.1)
        by_move (answers r p at same (leaves nobody)) h = absurd (nobody peer (rw h refl))
        by_move (returns p k at at') h = cc
