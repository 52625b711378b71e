-- ===== src/Forward/Session.antt =====
-- A `bi_…` function of net/tcp.rs and net/udp.rs while its two tasks run: one reads the tunnel, the
-- other the socket, and they share `last_active`.
use lantun.Base.{ℕ, ◌≡◌, List, [], ◌∷◌, Bytes}
use lantun.Forward.{Flow, Phase, arming, selecting, finished, panicked, Wake, arm}
use lantun.Forward.Loop.{Loop}

-- What a task has of its own.
pub record Task : Type 0 where
  pub phase : Phase
  pub sent : List Bytes

pub record Session : Type 0 where
  pub tunnel : Task
  pub socket : Task
  pub last_active : ℕ

abbrev pub fresh : Task
fresh = record { phase = arming; sent = [] }

-- `last_active.store(now_secs())`, and the two calls of `tokio::spawn`.
unfoldable pub start : ℕ → Session
start now = record { tunnel = fresh; socket = fresh; last_active = now }

abbrev pub tunnel_flow : Session → Flow
tunnel_flow s = record { phase = s.tunnel.phase; sent = s.tunnel.sent; last_active = s.last_active }

abbrev pub socket_flow : Session → Flow
socket_flow s = record { phase = s.socket.phase; sent = s.socket.sent; last_active = s.last_active }

abbrev pub set_tunnel : Session → Flow → Session
set_tunnel s f = record s {
  tunnel = record { phase = f.phase; sent = f.sent };
  last_active = f.last_active;
}

abbrev pub set_socket : Session → Flow → Session
set_socket s f = record s {
  socket = record { phase = f.phase; sent = f.sent };
  last_active = f.last_active;
}

-- The scheduler lets one task go on, which reads the clock as `now`.
pub data Turn (A B : Type 0) : Type 0 where
  arm_tunnel : (now : ℕ) → Turn A B
  wake_tunnel : (now : ℕ) → Wake A → Turn A B
  arm_socket : (now : ℕ) → Turn A B
  wake_socket : (now : ℕ) → Wake B → Turn A B

module _ {A B : Type 0} (reader : Loop A) (writer : Loop B) where
  unfoldable pub step : Turn A B → Session → Session
  unfolding arm
  step (arm_tunnel now) s = set_tunnel s (arm now (tunnel_flow s))
  step (wake_tunnel now w) s = set_tunnel s (reader.wake w now (tunnel_flow s))
  step (arm_socket now) s = set_socket s (arm now (socket_flow s))
  step (wake_socket now w) s = set_socket s (writer.wake w now (socket_flow s))

-- A task is armed at the head of its loop only, and woken in `select!` only.
abbrev pub Enabled : {A B : Type 0} → Turn A B → Session → Type 0
Enabled (arm_tunnel now) s = s.tunnel.phase ≡ arming
Enabled (wake_tunnel now w) s = (t : ℕ) × (s.tunnel.phase ≡ selecting t)
Enabled (arm_socket now) s = s.socket.phase ≡ arming
Enabled (wake_socket now w) s = (t : ℕ) × (s.socket.phase ≡ selecting t)

-- An interleaving of the two tasks.
pub data Run {A B : Type 0} (reader : Loop A) (writer : Loop B)
    : Session → List (Turn A B) → Session → Type 0 where
  done : {s : Session} → Run reader writer s [] s
  next :
      {s u : Session} {t : Turn A B} {ts : List (Turn A B)}
      → Enabled t s
      → Run reader writer (step reader writer t s) ts u
      → Run reader writer s (t ∷ ts) u

-- `tokio::try_join!` of the two handles: a panic is a `JoinError`, which ends the wait at once.
pub data Joined : Type 0 where
  waiting both join_error : Joined

unfoldable pub try_join : Phase → Phase → Joined
try_join panicked _ = join_error
try_join (finished r) panicked = join_error
try_join (finished r) (finished q) = both
try_join (finished r) _ = waiting
try_join _ panicked = join_error
try_join _ _ = waiting

unfoldable pub joined : Session → Joined
unfolding try_join
joined s = try_join s.tunnel.phase s.socket.phase
