-- ===== src/Client/Task/Stopping.antt =====
-- After `disconnect` the task of a client tunnel ends within six steps, whatever it is about
-- (lantun-core/src/client.rs).
use lantun.Forward.Heeding.{Heeds, Heeds-IsEnding}
use lantun.Client.Listener.Sessions.{run-Exact, Exact}
use lantun.Client.{ClientError}
use mathlib.Core.Path.{subst}
use lantun.Forward.{Wake}
use lantun.Addr.{SocketAddr}
use lantun.Forward.Loop.{IsLoop, Loop}
use lantun.Connections.{LocalClientConnection}
use lantun.Base.{
  ◌∷◌, [], sym, inr, inl, ◌⊎◌, Outcome, none, some, suc, arith, refl, true, ◌+◌, Text, ◌≡◌, ◌≤◌,
  Option, ℕ,
}
use lantun.Forward.Ending.{joined-or-turn, step-ending, turns_left-le, turns_left}
use lantun.Protocol.{TunnelProtocol}
use lantun.Client.Task.{
  here, next, Steps, returns, forwards, accepts, hears, binds, disconnects, Step, Task,
}
use lantun.Forward.Session.{Session}
use lantun.Client.Listener.{
  incoming, run, Event, bound, ended, forwarded, on_event, binding, dispatch, listening, forwarding,
  Listener, Phase,
}

-- The steps that the task has left once the flag is set.
abbrev pub steps_of : Phase → Session → ℕ
steps_of binding session = 2
steps_of listening session = 1
steps_of (forwarding l) session = 2 + turns_left session
steps_of (ended result) session = 0

abbrev pub steps_left : Task → ℕ
steps_left s = steps_of s.listener.phase s.session

module _ (protocol : TunnelProtocol) (session : Session) where
  bound-left :
      (p : Phase) (error : Option Text) (s : Listener)
      → p ≡ binding
      → steps_of (dispatch protocol p (bound error) s).phase session ≤ 1
  bound-left binding none s e = ground arith
  bound-left binding (some m) s e = ground arith
  bound-left listening error s e = cc
  bound-left (forwarding l) error s e = cc
  bound-left (ended r) error s e = cc

  hears-left :
      (p : Phase) (s : Listener)
      → p ≡ listening
      → steps_of (dispatch protocol p (Event.stop_changed true) s).phase session ≡ 0
  hears-left listening s e = refl
  hears-left binding s e = cc
  hears-left (forwarding l) s e = cc
  hears-left (ended r) s e = cc

  forwarded-left :
      (p : Phase) (l : LocalClientConnection) (s : Listener)
      → p ≡ forwarding l
      → steps_of (dispatch protocol p forwarded s).phase session ≡ 1
  forwarded-left (forwarding k) l s e = refl
  forwarded-left binding l s e = cc
  forwarded-left listening l s e = cc
  forwarded-left (ended r) l s e = cc

module _ {A B : Type 0} (protocol : TunnelProtocol) (reader : Loop A) (writer : SocketAddr → Loop B)
    (hr : IsLoop reader) (hw : (addr : SocketAddr) → IsLoop (writer addr)) where
  Step-left :
      {s t : Task}
      → Step protocol reader writer s t
      → s.stop ≡ true
      → (t.stop ≡ true) × (suc (steps_left t) ≤ steps_left s)
  unfolding on_event
  Step-left (disconnects s e) h = ground arith
  Step-left (binds s error e) h =
      (h, rw e (ground (arith, bound-left protocol s.session s.listener.phase error s.listener e)))
  Step-left (hears s e f) h =
      (h, rw e (ground (arith, hears-left protocol s.session s.listener.phase s.listener e)))
  Step-left (accepts s addr open_error send_error now e f) h = ground arith
  Step-left (forwards s l t e en heeds) h =
      let (one, same) =
        step-ending reader (writer l.client_local_addr) hr (hw l.client_local_addr) t s.session en
          (Heeds-IsEnding t s.session.last_active (subst (λ b. Heeds b t) h heeds)) in
      (h, rw e (omega (arith, one)))
  Step-left (returns s l e over) h =
      (h, rw e (ground (arith, forwarded-left protocol s.session s.listener.phase l s.listener e)))

  Steps-left :
      {s u : Task} {n : ℕ}
      → Steps protocol reader writer s n u
      → s.stop ≡ true
      → (u.stop ≡ true) × (n + steps_left u ≤ steps_left s)
  Steps-left here h = (h, omega arith)
  Steps-left (next st more) h =
      let (h', one) = Step-left st h in
      let (h'', left) = Steps-left more h' in (h'', omega (arith, one, left))

  steps_left-le : (s : Task) (p : Phase) → steps_of p s.session ≤ 6
  steps_left-le s binding = omega arith
  steps_left-le s listening = omega arith
  steps_left-le s (forwarding l) = omega (arith, turns_left-le s.session)
  steps_left-le s (ended r) = omega arith

  -- A task that has not ended has a step.
  Step-next :
      (s : Task) (p : Phase)
      → s.stop ≡ true
      → s.listener.phase ≡ p
      → ((r : Outcome ClientError (Unit {0})) × (p ≡ ended r))
        ⊎ ((t : Task) × Step protocol reader writer s t)
  Step-next s (ended r) h e = inl (r, refl)
  Step-next s binding h e = inr (_, binds s none e)
  Step-next s listening h e = inr (_, hears s e h)
  Step-next s (forwarding l) h e =
      let turn =
        joined-or-turn {A = A} {B = B} s.session (Heeds true) 0 (Wake.stop_changed true)
          (Wake.stop_changed true) (tt, tt, tt, tt) in
      elim turn [
        | inl over ↦ inr (_, returns s l e over)
        | inr (t, en, heeds) ↦ inr (_, forwards s l t e en (subst (λ b. Heeds b t) (sym h) heeds))
      ]

  Step-Exact :
      {s t : Task}
      → Step protocol reader writer s t
      → Exact s.listener.phase s.listener.local_connections
      → Exact t.listener.phase t.listener.local_connections
  unfolding run
  Step-Exact (disconnects s e) x = x
  Step-Exact (binds s error e) x = run-Exact protocol (bound error ∷ []) s.listener x
  Step-Exact (hears s e f) x = run-Exact protocol (Event.stop_changed true ∷ []) s.listener x
  Step-Exact (accepts s addr open_error send_error now e f) x =
      run-Exact protocol (incoming addr open_error send_error ∷ []) s.listener x
  Step-Exact (forwards s l t e en heeds) x = x
  Step-Exact (returns s l e over) x = run-Exact protocol (forwarded ∷ []) s.listener x

  Steps-Exact :
      {s u : Task} {n : ℕ}
      → Steps protocol reader writer s n u
      → Exact s.listener.phase s.listener.local_connections
      → Exact u.listener.phase u.listener.local_connections
  Steps-Exact here x = x
  Steps-Exact (next st more) x = Steps-Exact more (Step-Exact st x)

  -- Once the stop flag of a client tunnel is set, its task, with the forwarders that it awaits,
  -- takes at most six more steps, if its map was empty outside a session and held just the
  -- connection of the session in one: after them it has ended with an empty map, or has a further
  -- step.
  pub Steps-stop :
      {s u : Task} {n : ℕ}
      → Steps protocol reader writer s n u
      → s.stop ≡ true
      → Exact s.listener.phase s.listener.local_connections
      → (n ≤ 6)
        × (((r : Outcome ClientError (Unit {0})) × (u.listener.phase ≡ ended r)
              × (u.listener.local_connections ≡ []))
            ⊎ ((t : Task) × Step protocol reader writer u t))
  Steps-stop {s} {u} steps h x =
      let (h', left) = Steps-left steps h in
      let few = steps_left-le s s.listener.phase in
      elim (Step-next u u.listener.phase h' refl) [
        | inl (r, over) ↦ (
          omega (arith, left, few),
          inl (
            r,
            over,
            subst (λ p. Exact p u.listener.local_connections) over (Steps-Exact steps x),
          ),
        )
        | inr more ↦ (omega (arith, left, few), inr more)
      ]
