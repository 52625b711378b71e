-- ===== src/Forward.antt =====
-- One forwarder task: the loop that each half of a tunnelled connection runs, of which
-- lantun-core/src/net/tcp.rs and net/udp.rs have eight. Here are its parts that do not differ,
-- with the constants of lantun-core/src/common.rs.
pub mod Loop
pub mod Session
pub mod Delivery
pub mod Idle
pub mod Ending
pub mod Across
pub mod Detached
pub mod Heeding
pub mod Wire
use lantun.Base.{
  ℕ, ◌-◌, ◌+◌, Bool, true, false, Option, none, some, List, [], ◌∷◌, ◌++◌, Bytes, leb,
  if◌then◌else◌,
}

abbrev pub tunnel_forwarder_buffer_size : ℕ
tunnel_forwarder_buffer_size = 1024

abbrev pub connection_timeout_seconds : ℕ
connection_timeout_seconds = 20

-- Why a loop was left.
pub data Reason : Type 0 where
  stopped closed timed_out : Reason

-- Where a task stands: at the head of its loop, in `select!` with its timer, past the loop, or
-- dead by an `unwrap`.
pub data Phase : Type 0 where
  arming : Phase
  selecting : (timeout : ℕ) → Phase
  finished : Reason → Phase
  panicked : Phase

-- One task as it runs: `last_active` is the counter that it shares with the other task.
pub record Flow : Type 0 where
  pub phase : Phase
  pub sent : List Bytes
  pub last_active : ℕ

-- `now.saturating_sub(last)`, over `u64`.
abbrev pub elapsed : ℕ → ℕ → ℕ
elapsed now last = now - last

unfoldable pub timeout_of : ℕ → ℕ → ℕ
timeout_of now last =
    if leb connection_timeout_seconds (elapsed now last)
    then 0
    else connection_timeout_seconds - elapsed now last

-- The head of the loop, up to `select!`.
unfoldable pub arm : ℕ → Flow → Flow
unfolding timeout_of
arm now f = record f { phase = selecting (timeout_of now f.last_active) }

-- The branch of `select!` that completed: the watch channel with the flag now in it, a read that
-- returned `Ok` (with the result of the write that may follow it), or the timer.
pub data Wake (A : Type 0) : Type 0 where
  stop_changed : (stop : Bool) → Wake A
  received : (read : A) (written : Bool) → Wake A
  slept : Wake A

-- The branch of `stop_rx.changed()`.
abbrev pub on_stop : Bool → Flow → Flow
on_stop true f = record f { phase = finished stopped }
on_stop false f = record f { phase = arming }

-- The branch of `sleep(timeout)`.
unfoldable pub on_sleep : ℕ → Flow → Flow
on_sleep now f =
    if leb connection_timeout_seconds (elapsed now f.last_active)
    then record f { phase = finished timed_out }
    else record f { phase = arming }

-- `last_active.store(now_secs())`, and the write with its `unwrap`.
abbrev pub deliver : Bytes → Bool → ℕ → Flow → Flow
deliver chunk true now f = record {
  phase = arming;
  sent = f.sent ++ (chunk ∷ []);
  last_active = now;
}
deliver chunk false now f = record { phase = panicked; sent = f.sent; last_active = now }
