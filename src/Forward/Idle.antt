-- ===== src/Forward/Idle.antt =====
-- When a session is idle: the shared `last_active`, the timer, and who may end by it (net/tcp.rs,
-- net/udp.rs).
use lantun.Forward.Session.{
  done, socket_flow, arm_socket, tunnel_flow, arm_tunnel, next, wake_socket, Run, wake_tunnel,
  Session, Turn, step,
}
use lantun.Base.{
  ap, ◌∙◌, ◌++◌, [], ◌∷◌, List, ℕ_discrete, ℕ, ◌+◌, ◌≤◌, ◌≡◌, refl, ◌≢◌, Bool, Option, none, some,
  Bytes, arith,
}
use lantun.Forward.{
  Flow, Phase, finished, timed_out, Wake, stop_changed, received, slept, on_sleep, timeout_of,
  connection_timeout_seconds,
}
use lantun.Forward.Loop.{Loop, IsLoop}

-- The timer is set for the moment at which 20 seconds have passed since the last activity, and
-- never for more than 20 seconds.
pub timeout_of_bounds :
    (now last : ℕ)
    → last ≤ now
    → (timeout_of now last ≤ connection_timeout_seconds)
      × (last + connection_timeout_seconds ≤ now + timeout_of now last)
unfolding timeout_of
timeout_of_bounds now last h = ground arith

-- A read with a payload is activity, at the time of the clock after it.
abbrev pub active : Option Bytes → ℕ → ℕ → ℕ
active none now last = last
active (some bytes) now last = now

module _ {A : Type 0} (l : Loop A) where
  abbrev pub wake_active : Wake A → ℕ → ℕ → ℕ
  wake_active (received a written) now last = active (l.payload a) now last
  wake_active _ now last = last

  module _ (h : IsLoop l) where
    read-active :
        (a : A) (written : Bool) (now : ℕ) (f : Flow) (p : Option Bytes)
        → l.payload a ≡ p
        → (l.wake (received a written) now f).last_active ≡ active p now f.last_active
    read-active a written now f none e = ground (arith, h.drops a written now f e)
    read-active a written now f (some bytes) e = ground (arith, h.forwards a written now f bytes e)

    pub wake-active :
        (w : Wake A) (now : ℕ) (f : Flow)
        → (l.wake w now f).last_active ≡ wake_active w now f.last_active
    unfolding on_sleep
    wake-active (stop_changed stop) now f = ground (arith, h.obeys_stop stop now f)
    wake-active (received a written) now f = read-active a written now f (l.payload a) refl
    wake-active slept now f = ground (arith, h.checks_idle now f)

    read-ne-timed_out :
        (a : A) (written : Bool) (now : ℕ) (f : Flow) (p : Option Bytes)
        → l.payload a ≡ p
        → (l.wake (received a written) now f).phase ≢ finished timed_out
    read-ne-timed_out a written now f none e = ground (arith, h.drops a written now f e)
    read-ne-timed_out a written now f (some bytes) e =
        ground (arith, h.forwards a written now f bytes e)

    pub wake-timed_out :
        (w : Wake A) (now : ℕ) (f : Flow)
        → (l.wake w now f).phase ≡ finished timed_out
        → (w ≡ slept) × (f.last_active + connection_timeout_seconds ≤ now)
    unfolding on_sleep
    wake-timed_out (stop_changed stop) now f e = ground (arith, h.obeys_stop stop now f)
    wake-timed_out (received a written) now f e =
        absurd (read-ne-timed_out a written now f (l.payload a) refl e)
    wake-timed_out slept now f e = ground (arith, h.checks_idle now f)

Phase-discrete : Discrete Phase
Phase-discrete = hlevel ℕ_discrete

module _ {A B : Type 0} (reader : Loop A) (writer : Loop B) where
  -- The time of the last activity in either direction, from one before the turns.
  unfoldable pub activity : ℕ → List (Turn A B) → ℕ
  activity last [] = last
  activity last (wake_tunnel now w ∷ ts) = activity (wake_active reader w now last) ts
  activity last (wake_socket now w ∷ ts) = activity (wake_active writer w now last) ts
  activity last (_ ∷ ts) = activity last ts

  -- The tunnel task went to sleep and woke when the session had been idle for 20 seconds.
  pub record TunnelExpired (last : ℕ) (ts : List (Turn A B)) : Type 0 where
    pub before : List (Turn A B)
    pub now : ℕ
    pub after : List (Turn A B)
    pub turns : ts ≡ before ++ wake_tunnel now slept ∷ after
    pub idle : activity last before + connection_timeout_seconds ≤ now

  module _ (hr : IsLoop reader) (hw : IsLoop writer) where
    step-last_active :
        (t : Turn A B) (s : Session)
        → (step reader writer t s).last_active ≡ activity s.last_active (t ∷ [])
    unfolding step activity
    step-last_active (arm_tunnel now) s = refl
    step-last_active (wake_tunnel now w) s = wake-active reader hr w now (tunnel_flow s)
    step-last_active (arm_socket now) s = refl
    step-last_active (wake_socket now w) s = wake-active writer hw w now (socket_flow s)

    activity-cons :
        (last : ℕ) (t : Turn A B) (ts : List (Turn A B))
        → activity (activity last (t ∷ [])) ts ≡ activity last (t ∷ ts)
    unfolding activity
    activity-cons last (arm_tunnel now) ts = refl
    activity-cons last (wake_tunnel now w) ts = refl
    activity-cons last (arm_socket now) ts = refl
    activity-cons last (wake_socket now w) ts = refl

    -- After any interleaving the shared counter is the time of the last read with a payload in
    -- either direction, or its old value if there was none.
    pub Run-last_active :
        {s u : Session} {ts : List (Turn A B)}
        → Run reader writer s ts u
        → u.last_active ≡ activity s.last_active ts
    unfolding activity
    Run-last_active done = refl
    Run-last_active {s} (next {t} {ts} en r) =
        Run-last_active r ∙ rw (step-last_active t s) (activity-cons s.last_active t ts)

    step-timed_out :
        (t : Turn A B) (s : Session)
        → s.tunnel.phase ≢ finished timed_out
        → (step reader writer t s).tunnel.phase ≡ finished timed_out
        → (now : ℕ) × (t ≡ wake_tunnel now slept)
          × (s.last_active + connection_timeout_seconds ≤ now)
    unfolding step
    step-timed_out (arm_tunnel now) s n e = cc
    step-timed_out (wake_tunnel now w) s n e =
        let (by_timer, idle) = wake-timed_out reader hr w now (tunnel_flow s) e in
        (now, ap (wake_tunnel now) by_timer, idle)
    step-timed_out (arm_socket now) s n e = absurd (n e)
    step-timed_out (wake_socket now w) s n e = absurd (n e)

    -- If the tunnel task has timed out after an interleaving before which it had not, then it was
    -- last woken by its timer, at least 20 seconds after the last activity in either direction.
    pub Run-timed_out :
        {s u : Session} {ts : List (Turn A B)}
        → Run reader writer s ts u
        → s.tunnel.phase ≢ finished timed_out
        → u.tunnel.phase ≡ finished timed_out
        → TunnelExpired s.last_active ts
    unfolding activity
    Run-timed_out done n e = absurd (n e)
    Run-timed_out {s} (next {t} {ts} en r) n e =
        elim (Phase-discrete (step reader writer t s).tunnel.phase (finished timed_out)) [
          | yes now ↦
              let (now, turn, idle) = step-timed_out t s n now in
              record {
                before = [];
                now = now;
                after = ts;
                turns = ap (λ x. x ∷ ts) turn;
                idle = idle;
              }
          | no later ↦
              let x = Run-timed_out r later e in
              record {
                before = t ∷ x.before;
                now = x.now;
                after = x.after;
                turns = ap (◌∷◌ t) x.turns;
                idle = omega (
                  arith,
                  ap (λ (k : ℕ). activity k x.before) (step-last_active t s),
                  activity-cons s.last_active t x.before,
                );
              }
        ]
