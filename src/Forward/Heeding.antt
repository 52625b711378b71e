-- ===== src/Forward/Heeding.antt =====
-- The stop flag in the `select!` of a forwarder (net/tcp.rs, net/udp.rs).
use lantun.Forward.Ending.{IsEnding}
use lantun.Forward.{Wake}
use lantun.Base.{false, true, ℕ, Bool}
use lantun.Forward.Session.{arm_socket, arm_tunnel, wake_socket, wake_tunnel, Turn}

-- Every `select!` is biased: with the flag set the branch of `stop_rx.changed()` comes first. With
-- the flag not set that branch can complete only if the sender is gone, and then the flag is false.
abbrev pub HeedsWake : {A : Type 0} → Bool → Wake A → Type 0
HeedsWake true (Wake.stop_changed true) = Unit
HeedsWake true _ = ⊥
HeedsWake false (Wake.stop_changed true) = ⊥
HeedsWake false _ = Unit

abbrev pub Heeds : {A B : Type 0} → Bool → Turn A B → Type 0
Heeds stop (wake_tunnel now w) = HeedsWake stop w
Heeds stop (wake_socket now w) = HeedsWake stop w
Heeds stop _ = Unit

pub Heeds-IsEnding : {A B : Type 0} (t : Turn A B) (last : ℕ) → Heeds true t → IsEnding last t
Heeds-IsEnding (arm_tunnel now) last h = tt
Heeds-IsEnding (arm_socket now) last h = tt
Heeds-IsEnding (wake_tunnel now (Wake.stop_changed true)) last h = tt
Heeds-IsEnding (wake_socket now (Wake.stop_changed true)) last h = tt
Heeds-IsEnding (wake_tunnel now w) last h = absurd h
Heeds-IsEnding (wake_socket now w) last h = absurd h
