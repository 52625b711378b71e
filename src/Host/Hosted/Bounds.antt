-- ===== src/Host/Hosted/Bounds.antt =====
-- How many local connections a host tunnel can count (lantun-core/src/host.rs).
use lantun.Protocol.{TunnelProtocol}
use lantun.Host.Hosted.{serves, stops, spawned, spawning, starts, seen, Hosted, Act, act, acts}
use lantun.Host.{
  start, HostTunnel, HostError, num_clients, count_local, num_active_connections, Clients, peer_eq,
  ConnectedClient,
}
use lantun.Map.Laws.{
  AllValues-get, AllKeys-remove, AllValues-insert, remove-NodupKeys, AllKeys-insert,
  insert-NodupKeys,
}
use lantun.Runtime.{Runtime}
use lantun.Host.Server.{
  accepting, on_event, Event, crashed, forwarded, forwarding, requested, request, serving, incoming,
  after_request, dispatch, Request, Phase, handle_request, change_client, Server, accept, add_local,
  drop_local, local_connection,
}
use lantun.Base.{
  panic, err, ◌*◌, List, Outcome, none, inr, Option-cases, inl, some, ok, Bool-cases, Option, Eq,
  [], ◌∷◌, ◌⊎◌, arith, true, false, ◌≤◌, length, ◌==◌, ◌≡◌,
}
use lantun.Connections.{LocalClientConnection, disconnect_local_client_connection, LocalConnections}
use lantun.Addr.{addr_eq, get_unspecified, SocketAddr}
use lantun.Map.{values, AllValues, contains_key, insert, AllKeys, NodupKeys, get}

-- A local connection is kept under the address that its socket is bound to, which is one of two.
abbrev pub Unspecified : SocketAddr → Type 0
Unspecified a = (a ≡ get_unspecified true) ⊎ (a ≡ get_unspecified false)

abbrev pub AtUnspecified : LocalConnections → Type 0
AtUnspecified m = NodupKeys m × AllKeys Unspecified m

same-Unspecified :
    (a b c : SocketAddr)
    → Unspecified a
    → Unspecified b
    → Unspecified c
    → (a == b) ≡ false
    → (a == c) ≡ false
    → (b == c) ≡ false
    → ⊥
same-Unspecified a b c h k l e f g = ground arith

AtUnspecified-length : (m : LocalConnections) → AtUnspecified m → length m ≤ 2
unfolding get
AtUnspecified-length [] h = omega arith
AtUnspecified-length (x ∷ []) h = omega arith
AtUnspecified-length (x ∷ y ∷ []) h = omega arith
AtUnspecified-length ((a, _) ∷ (b, _) ∷ (c, _) ∷ m) ((n, (n', _)), (h, (k, (l, _)))) =
    absurd (same-Unspecified a b c h k l (ground arith) (ground arith) (ground arith))

local_connection-Unspecified :
    (a : SocketAddr) → Unspecified (local_connection a).client_virtual_addr
unfolding local_connection
local_connection-Unspecified a = ground arith

insert-AtUnspecified :
    (a : SocketAddr) (m : LocalConnections)
    → AtUnspecified m
    → AtUnspecified (insert (local_connection a).client_virtual_addr (local_connection a) m)
insert-AtUnspecified a m (n, h) = (
  insert-NodupKeys (local_connection a).client_virtual_addr (local_connection a) m n,
  AllKeys-insert Unspecified (local_connection a).client_virtual_addr (local_connection a) m
      (local_connection-Unspecified a) h,
)

disconnect-AtUnspecified :
    (m : LocalConnections) (l : LocalClientConnection)
    → AtUnspecified m
    → AtUnspecified (disconnect_local_client_connection m l).1
unfolding disconnect_local_client_connection
disconnect-AtUnspecified m l (n, h) = elim (Bool-cases (contains_key l.client_virtual_addr m)) [
  | inl e ↦ rw e (
    remove-NodupKeys l.client_virtual_addr m n,
    AllKeys-remove Unspecified l.client_virtual_addr m h,
  )
  | inr e ↦ rw e (n, h)
]

module _ (R : Runtime) where
  open R use {PublicKey, Connection}

  instance abbrev peers : Eq PublicKey
  peers = peer_eq R

  abbrev pub IsFew : ConnectedClient R → Type 0
  IsFew c = AtUnspecified c.local_connections

  accept-IsFew :
      (peer : Option PublicKey) (conn : Connection) (s : Server R)
      → AllValues IsFew s.clients
      → AllValues IsFew (accept R peer conn s).clients
  unfolding accept
  accept-IsFew none conn s h = h
  accept-IsFew (some peer) conn s h = elim (Bool-cases (contains_key peer s.clients)) [
    | inl e ↦ rw e h
    | inr e ↦ rw e (AllValues-insert IsFew peer _ s.clients (tt, tt) h)
  ]

  drop_local-none :
      (peer : PublicKey) (l : LocalClientConnection) (m : Clients R)
      → get peer m ≡ none
      → drop_local R peer l m ≡ m
  unfolding drop_local
  drop_local-none peer l m e = ground arith

  drop_local-some :
      (peer : PublicKey) (l : LocalClientConnection) (m : Clients R) (c : ConnectedClient R)
      → get peer m ≡ some c
      → drop_local R peer l m
        ≡ change_client R (λ x. (disconnect_local_client_connection x l).1) peer c m
  unfolding drop_local
  drop_local-some peer l m c e = ground arith

  drop_local-IsFew :
      (peer : PublicKey) (l : LocalClientConnection) (m : Clients R)
      → AllValues IsFew m
      → AllValues IsFew (drop_local R peer l m)
  drop_local-IsFew peer l m h = elim (Option-cases (get peer m)) [
    | inl e ↦ rw (drop_local-none peer l m e) h
    | inr (c, e) ↦ rw (drop_local-some peer l m c e) (
        AllValues-insert IsFew peer _ m
          (disconnect-AtUnspecified c.local_connections l (AllValues-get IsFew peer m h e)) h)
  ]

  module _ (protocol : TunnelProtocol) (tunnel_local_addr : SocketAddr) where
    after_request-IsFew :
        (o : Outcome HostError SocketAddr) (r : Request) (peer : PublicKey) (s : Server R)
        → AllValues IsFew s.clients
        → AllValues IsFew (after_request R protocol tunnel_local_addr o r peer s).clients
    unfolding add_local
    after_request-IsFew (err e) r peer s h = h
    after_request-IsFew panic r peer s h = h
    after_request-IsFew (ok a) r peer s h = elim (Option-cases (get peer s.clients)) [
      | inl e ↦ rw e h
      | inr (c, e) ↦ rw e (
          AllValues-insert IsFew peer _ s.clients
            (insert-AtUnspecified a c.local_connections (AllValues-get IsFew peer s.clients h e)) h)
    ]

    dispatch-IsFew :
        (p : Phase R) (e : Event R) (s : Server R)
        → AllValues IsFew s.clients
        → AllValues IsFew (dispatch R protocol tunnel_local_addr p e s).clients
    unfolding handle_request
    dispatch-IsFew accepting (incoming peer conn) s h = accept-IsFew peer conn s h
    dispatch-IsFew (serving peer) (request r) s h = after_request-IsFew (requested r) r peer s h
    dispatch-IsFew (forwarding peer l) forwarded s h = drop_local-IsFew peer l s.clients h
    dispatch-IsFew accepting e s h = h
    dispatch-IsFew (serving peer) e s h = h
    dispatch-IsFew (forwarding peer l) e s h = h
    dispatch-IsFew crashed e s h = h

  count_local-le : (m : Clients R) → AllValues IsFew m → count_local R (values m) ≤ 2 * length m
  count_local-le [] h = omega arith
  count_local-le ((peer, c) ∷ m) (few, h) =
      omega (arith, AtUnspecified-length c.local_connections few, count_local-le m h)

  spawning-IsFew :
      (x : HostTunnel R × Outcome HostError (Unit {0})) (task : Server R)
      → AllValues IsFew task.clients
      → AllValues IsFew (spawning R x task).task.clients
  spawning-IsFew (t, ok done) task h = tt
  spawning-IsFew (t, err e) task h = h
  spawning-IsFew (t, panic) task h = h

  act-IsFew :
      (a : Act R) (h : Hosted R)
      → AllValues IsFew h.task.clients
      → AllValues IsFew (act R a h).task.clients
  unfolding act on_event
  act-IsFew (starts bound stop_tx) h few =
      spawning-IsFew (start R bound stop_tx h.tunnel) h.task few
  act-IsFew (stops sent) h few = few
  act-IsFew (serves e) h few =
      dispatch-IsFew h.tunnel.protocol h.tunnel.host_addr h.task.phase e h.task few

  acts-IsFew :
      (calls : List (Act R)) (h : Hosted R)
      → AllValues IsFew h.task.clients
      → AllValues IsFew (acts R calls h).task.clients
  unfolding acts
  acts-IsFew [] h few = few
  acts-IsFew (a ∷ more) h few = acts-IsFew more (act R a h) (act-IsFew a h few)

  seen-bound :
      (h : Hosted R)
      → AllValues IsFew h.task.clients
      → num_active_connections R (seen R h) ≤ 2 * num_clients R (seen R h)
  unfolding num_active_connections num_clients
  seen-bound h few = elim (Option-cases h.tunnel.running_props) [
    | inl e ↦ rw e (omega arith)
    | inr (props, e) ↦ rw e (count_local-le h.task.clients few)
  ]

  -- Over any starts, stops and events of its task, from a task without clients, a host tunnel
  -- counts at most two active connections for each of its clients.
  pub acts-bound :
      (calls : List (Act R)) (t : HostTunnel R)
      → let h = acts R calls (record { tunnel = t; task = spawned R }) in
        num_active_connections R (seen R h) ≤ 2 * num_clients R (seen R h)
  acts-bound calls t =
      let h : Hosted R = record { tunnel = t; task = spawned R } in
      seen-bound (acts R calls h) (acts-IsFew calls h tt)
