-- ===== src/Forward/Ending.antt =====
-- How a session ends: by the stop flag, or by the timers of an idle connection (net/tcp.rs,
-- net/udp.rs).
use lantun.Forward.Loop.{IsLoop, Loop}
use lantun.Forward.Session.{
  next, socket_flow, arm_socket, done, tunnel_flow, arm_tunnel, waiting, joined, Enabled, Run,
  wake_socket, step, wake_tunnel, Session, Turn,
}
use lantun.Forward.{
  panicked, finished, received, slept, Flow, Wake, arming, connection_timeout_seconds, stop_changed,
  selecting, Phase, on_sleep,
}
use lantun.Base.{
  refl, false, inr, arith, inl, length, All, suc, ◌⊎◌, true, ◌≤◌, List, ℕ, ◌+◌, ◌≡◌, ◌≢◌,
}

-- The wakes of a task that is to end: the flag is set, or the timer fires when the connection has
-- been idle for 20 seconds. Nothing is read any more.
abbrev pub EndingWake : {A : Type 0} → Wake A → ℕ → ℕ → Type 0
EndingWake (stop_changed true) now last = Unit
EndingWake slept now last = last + connection_timeout_seconds ≤ now
EndingWake _ now last = ⊥

abbrev pub IsEnding : {A B : Type 0} → ℕ → Turn A B → Type 0
IsEnding last (wake_tunnel now w) = EndingWake w now last
IsEnding last (wake_socket now w) = EndingWake w now last
IsEnding last _ = Unit

-- Such turns that a task has left.
abbrev pub turns_of : Phase → ℕ
turns_of arming = 2
turns_of (selecting timeout) = 1
turns_of _ = 0

turns_of-le : (p : Phase) → turns_of p ≤ 2
turns_of-le arming = omega arith
turns_of-le (selecting t) = omega arith
turns_of-le (finished r) = omega arith
turns_of-le panicked = omega arith

abbrev pub turns_left : Session → ℕ
turns_left s = turns_of s.tunnel.phase + turns_of s.socket.phase

-- A session never has more than four.
pub turns_left-le : (s : Session) → turns_left s ≤ 4
turns_left-le s = omega (arith, turns_of-le s.tunnel.phase, turns_of-le s.socket.phase)

wake-ending :
    {A : Type 0} (l : Loop A) (h : IsLoop l) (w : Wake A) (now : ℕ) (f : Flow)
    → EndingWake w now f.last_active
    → (turns_of (l.wake w now f).phase ≡ 0) × ((l.wake w now f).last_active ≡ f.last_active)
unfolding on_sleep
wake-ending l h (stop_changed true) now f c = ground (arith, h.obeys_stop true now f)
wake-ending l h (stop_changed false) now f c = absurd c
wake-ending l h (received a written) now f c = absurd c
wake-ending l h slept now f c = ground (arith, h.checks_idle now f)

module _ {A B : Type 0} (reader : Loop A) (writer : Loop B) where
  module _ (hr : IsLoop reader) (hw : IsLoop writer) where
    pub step-ending :
        (t : Turn A B) (s : Session)
        → Enabled t s
        → IsEnding s.last_active t
        → (suc (turns_left (step reader writer t s)) ≡ turns_left s)
          × ((step reader writer t s).last_active ≡ s.last_active)
    unfolding step
    step-ending (arm_tunnel now) s en h = ground arith
    step-ending (wake_tunnel now w) s (t, en) h =
        ground (arith, wake-ending reader hr w now (tunnel_flow s) h)
    step-ending (arm_socket now) s en h = ground arith
    step-ending (wake_socket now w) s (t, en) h =
        ground (arith, wake-ending writer hw w now (socket_flow s) h)

    -- A run in which every wake is by a set stop flag, or by a timer that fires 20 seconds or more
    -- after the last activity, takes one turn off the turns that the session has left for each of
    -- its turns; a session never has more than four left.
    pub Run-ending :
        {s u : Session} {ts : List (Turn A B)}
        → Run reader writer s ts u
        → All (IsEnding s.last_active) ts
        → (length ts + turns_left u ≡ turns_left s) × (turns_left s ≤ 4)
    Run-ending {s} done h = ground arith
    Run-ending {s} (next {t} {ts} en r) (h, hs) =
        let (one, same) = step-ending t s en h in
        let (left, few) = Run-ending r (rw same hs) in ground arith

module _ {A B : Type 0} (s : Session) (P : Turn A B → Type 0) where
  joined-or-some :
      (now : ℕ) (v : Wake A) (w : Wake B) (p q : Phase)
      → P (arm_tunnel now) × P (arm_socket now) × P (wake_tunnel now v) × P (wake_socket now w)
      → s.tunnel.phase ≡ p
      → s.socket.phase ≡ q
      → (joined s ≢ waiting) ⊎ ((t : Turn A B) × Enabled t s × P t)
  unfolding joined
  joined-or-some now v w arming q h e d = inr (arm_tunnel now, e, h.0)
  joined-or-some now v w (selecting t) q h e d = inr (wake_tunnel now v, (t, e), h.2)
  joined-or-some now v w p arming h e d = inr (arm_socket now, d, h.1)
  joined-or-some now v w p (selecting t) h e d = inr (wake_socket now w, (t, d), h.3)
  joined-or-some now v w panicked q h e d = inl (ground arith)
  joined-or-some now v w (finished r) q h e d = inl (ground arith)

  -- Until a session is joined, it has a turn: a task can be armed, or woken by a given wake.
  pub joined-or-turn :
      (now : ℕ) (v : Wake A) (w : Wake B)
      → P (arm_tunnel now) × P (arm_socket now) × P (wake_tunnel now v) × P (wake_socket now w)
      → (joined s ≢ waiting) ⊎ ((t : Turn A B) × Enabled t s × P t)
  joined-or-turn now v w h = joined-or-some now v w s.tunnel.phase s.socket.phase h refl refl

-- The turns that need no read and no stop flag.
abbrev pub IsTimer : {A B : Type 0} → Turn A B → Type 0
IsTimer (wake_tunnel now slept) = Unit
IsTimer (wake_tunnel now _) = ⊥
IsTimer (wake_socket now slept) = Unit
IsTimer (wake_socket now _) = ⊥
IsTimer _ = Unit

module _ {A B : Type 0} (reader : Loop A) (writer : Loop B) (hr : IsLoop reader)
    (hw : IsLoop writer) where
  abbrev Joins : ℕ → Session → Type 0
  Joins n s =
      (ts : List (Turn A B)) × (u : Session) × Run reader writer s ts u
      × All IsTimer ts
      × (length ts ≤ n)
      × (joined u ≢ waiting)
      × (u.last_active ≡ s.last_active)
