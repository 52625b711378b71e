-- ===== src/Host/Task/Stopping.antt =====
-- After `stop` the task of a host tunnel gives up its sessions, and then waits for a connection that
-- cannot come (lantun-core/src/host.rs).
use lantun.Host.Server.Stopped.{run-closed, IsClosed}
use mathlib.Core.Path.{subst}
use lantun.Forward.Heeding.{Heeds, Heeds-IsEnding}
use lantun.Forward.Loop.{IsLoop, Loop}
use lantun.Forward.Ending.{joined-or-turn, step-ending, turns_left-le, turns_left}
use lantun.Connections.{LocalClientConnection}
use lantun.Host.Server.{Server}
use lantun.Addr.{SocketAddr}
use lantun.Base.{
  zero, sym, none, [], inr, All, err, inl, List, Option, ap, ◌⊎◌, suc, refl, true, arith, some,
  Text, ◌*◌, ◌≡◌, ◌+◌, ℕ, ◌≤◌,
}
use lantun.Forward.{Wake}
use lantun.Host.Task.{
  next, here, Steps, returns, forwards, refuses, requests, comes, arrives, closes, stops, Step,
  Task,
}
use lantun.Forward.Session.{start, Session}
use lantun.Protocol.{TunnelProtocol}
use lantun.Runtime.{Runtime}
use lantun.Host.Server

module _ (R : Runtime) where
  -- The steps that the task has left once the flag is set and the endpoint is closed.
  abbrev pub steps_of : Server.Phase R → Session → ℕ → ℕ
  steps_of Server.accepting session arrived = 0
  steps_of (Server.serving peer) session arrived = 1 + 7 * arrived
  steps_of (Server.forwarding peer l) session arrived = 2 + turns_left session + 7 * arrived
  steps_of Server.crashed session arrived = 0

  abbrev pub steps_left : Task R → ℕ
  steps_left s = steps_of s.server.phase s.session s.arrived

  steps_left-le :
      (s : Task R) (p : Server.Phase R) → steps_of p s.session s.arrived ≤ 6 + 7 * s.arrived
  steps_left-le s Server.accepting = omega arith
  steps_left-le s (Server.serving peer) = omega arith
  steps_left-le s (Server.forwarding peer l) = omega (arith, turns_left-le s.session)
  steps_left-le s Server.crashed = omega arith

  module _ (protocol : TunnelProtocol) (tunnel_local_addr : SocketAddr) where
    -- A round that has taken a stream.
    request-left :
        (r : Server.Request) (peer : R.PublicKey) (s : Server R) (now n : ℕ)
        → s.phase ≡ Server.serving peer
        → steps_of
            (Server.on_event R protocol tunnel_local_addr (Server.request r) s).phase
            (start now)
            n
          ≤ 6 + 7 * n
    request-left r peer s now n at =
        steps_left-le
          (record { server = s; session = start now; stop = true; closed = true; arrived = n }) _

    refused-left :
        (r : Server.Request) (peer : R.PublicKey) (s : Server R) (message : Text)
        (session : Session) (n : ℕ) (p : Server.Phase R)
        → p ≡ Server.serving peer
        → r.stream_error ≡ some message
        → steps_of
            (Server.dispatch R protocol tunnel_local_addr p (Server.request r) s).phase
            session
            n
          ≡ 0
    unfolding Server.handle_request
    refused-left r peer s message session n (Server.serving q) at refused = rw refused refl
    refused-left r peer s message session n Server.accepting at refused = cc
    refused-left r peer s message session n (Server.forwarding q l) at refused = cc
    refused-left r peer s message session n Server.crashed at refused = cc

    returned-left :
        (peer : R.PublicKey) (l : LocalClientConnection) (s : Server R) (session : Session) (n : ℕ)
        (p : Server.Phase R)
        → p ≡ Server.forwarding peer l
        → steps_of
            (Server.dispatch R protocol tunnel_local_addr p Server.forwarded s).phase
            session
            n
          ≡ 1 + 7 * n
    returned-left peer l s session n (Server.forwarding q k) at = refl
    returned-left peer l s session n Server.accepting at = cc
    returned-left peer l s session n (Server.serving q) at = cc
    returned-left peer l s session n Server.crashed at = cc

  module _ {A B : Type 0} (protocol : TunnelProtocol) (tunnel_local_addr : SocketAddr)
      (reader : Loop A) (writer : Loop B) (hr : IsLoop reader) (hw : IsLoop writer) where
    Step-left :
        {s t : Task R}
        → Step R protocol tunnel_local_addr reader writer s t
        → s.stop ≡ true
        → s.closed ≡ true
        → (t.stop ≡ true) × (t.closed ≡ true) × (suc (steps_left t) ≤ steps_left s)
    unfolding Server.on_event
    Step-left (stops s e) h c = cc
    Step-left (closes s e f) h c = cc
    Step-left (arrives s e) h c = cc
    Step-left (comes s peer conn at e) h c = cc
    Step-left (requests s peer r n now at some_left e) h c =
        let held = ap (λ p. steps_of p s.session s.arrived) at in
        let more = request-left protocol tunnel_local_addr r peer s.server now n at in
        (h, c, omega (arith, held, more, some_left))
    Step-left (refuses s peer r m at none_left e) h c =
        let held = ap (λ p. steps_of p s.session s.arrived) at in
        let none_more =
          refused-left protocol tunnel_local_addr r peer s.server m s.session s.arrived
            s.server.phase at e in
        (h, c, omega (arith, held, none_more))
    Step-left (forwards s peer l t at en heeds) h c =
        let (one, same) =
          step-ending reader writer hr hw t s.session en
            (Heeds-IsEnding t s.session.last_active (subst (λ b. Heeds b t) h heeds)) in
        (h, c, rw at (omega (arith, one)))
    Step-left (returns s peer l at over) h c =
        let held = ap (λ p. steps_of p s.session s.arrived) at in
        let one =
          returned-left protocol tunnel_local_addr peer l s.server s.session s.arrived
            s.server.phase at in
        (h, c, omega (arith, held, one))

    Steps-left :
        {s u : Task R} {n : ℕ}
        → Steps R protocol tunnel_local_addr reader writer s n u
        → s.stop ≡ true
        → s.closed ≡ true
        → (u.stop ≡ true) × (n + steps_left u ≤ steps_left s)
    Steps-left here h c = (h, omega arith)
    Steps-left (next st more) h c =
        let (h', c', one) = Step-left st h c in
        let (h'', left) = Steps-left more h' c' in (h'', omega (arith, one, left))

    -- Whatever the client asks for.
    abbrev asking : Option Text → Server.Request
    asking error = record {
      stream_error = error;
      packet = err [];
      socket_error = none;
      bind_error = λ v4 addr. none;
      connect_error = λ from to. none;
      has_peer = true;
    }

    -- The task waits for a connection, or has panicked, or has a step.
    Step-next :
        (s : Task R) (p : Server.Phase R) (n : ℕ)
        → s.stop ≡ true
        → s.server.phase ≡ p
        → s.arrived ≡ n
        → ((p ≡ Server.accepting) ⊎ (p ≡ Server.crashed))
          ⊎ ((t : Task R) × Step R protocol tunnel_local_addr reader writer s t)
    Step-next s Server.accepting n h at left = inl (inl refl)
    Step-next s Server.crashed n h at left = inl (inr refl)
    Step-next s (Server.serving peer) zero h at left =
        inr (_, refuses s peer (asking (some [])) [] at left refl)
    Step-next s (Server.serving peer) (suc n) h at left =
        inr (_, requests s peer (asking none) n 0 at left refl)
    Step-next s (Server.forwarding peer l) n h at left =
        let turn =
          joined-or-turn {A = A} {B = B} s.session (Heeds true) 0 (Wake.stop_changed true)
            (Wake.stop_changed true) (tt, tt, tt, tt) in
        elim turn [
          | inl over ↦ inr (_, returns s peer l at over)
          | inr (t, en, heeds) ↦
              inr (_, forwards s peer l t at en (subst (λ b. Heeds b t) (sym h) heeds))
        ]

    -- Once the stop flag of a host tunnel is set and its endpoint is closed, its task, with the
    -- forwarders that it awaits, takes at most six more steps, and seven for each stream of the
    -- served client that had arrived: after them it waits for a connection, and is as it was after
    -- any events of an endpoint that gives none, so that it never ends; or it has panicked, or has
    -- a further step.
    pub Steps-closed :
        {s u : Task R} {n : ℕ} (es : List (Server.Event R))
        → Steps R protocol tunnel_local_addr reader writer s n u
        → s.stop ≡ true
        → s.closed ≡ true
        → All (IsClosed R) es
        → (n ≤ 6 + 7 * s.arrived)
          × ((((u.server.phase ≡ Server.accepting)
                  × (Server.run R protocol tunnel_local_addr es u.server ≡ u.server))
                ⊎ (u.server.phase ≡ Server.crashed))
              ⊎ ((t : Task R) × Step R protocol tunnel_local_addr reader writer u t))
    Steps-closed {s} {u} {n} es steps h c quiet =
        let (h', left) = Steps-left steps h c in
        let bound : n ≤ 6 + 7 * s.arrived = omega (arith, left, steps_left-le s s.server.phase) in
        elim (Step-next u u.server.phase u.arrived h' refl refl) [
          | inl (inl waits) ↦ (
            bound,
            inl (inl (waits, run-closed R protocol tunnel_local_addr es u.server waits quiet)),
          )
          | inl (inr dead) ↦ (bound, inl (inr dead))
          | inr more ↦ (bound, inr more)
        ]
