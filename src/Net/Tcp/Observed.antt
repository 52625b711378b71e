-- ===== src/Net/Tcp/Observed.antt =====
-- What the four TCP loops do, told without their parts (lantun-core/src/net/tcp.rs).
use lantun.Forward.{
  panicked, closed, received, stopped, timed_out, finished, slept, stop_changed, Flow, Wake,
}
use lantun.Base.{
  ◌⊎◌, ◌≢◌, ◌-◌, ◌≤◌, ◌↔◌, false, none, true, some, ◌++◌, ◌≡◌, [], concat, ℕ, Bool, Bytes, List,
  Option,
}

-- The bytes that a read of the tunnel brings: none at the end of the stream.
abbrev pub bytes_read : Option Bytes → Bytes
bytes_read none = []
bytes_read (some chunk) = chunk

abbrev pub whole_read : Bytes → Bytes
whole_read chunk = chunk

-- What is to be seen of a loop at a wake: its phase, what it has written and the time of the last
-- activity, before and after. `read` is the bytes that the wake brings.
pub record IsForwarder {A : Type 0} (wake : Wake A → ℕ → Flow → Flow) (read : A → Bytes)
    : Type 0 where
  pub stopped_iff :
      (stop : Bool) (now : ℕ) (f : Flow)
      → ((wake (stop_changed stop) now f).phase ≡ finished stopped) ↔ (stop ≡ true)
  pub stop_keeps :
      (stop : Bool) (now : ℕ) (f : Flow)
      → ((wake (stop_changed stop) now f).sent ≡ f.sent)
        × ((wake (stop_changed stop) now f).last_active ≡ f.last_active)
  pub timed_out_iff :
      (now : ℕ) (f : Flow)
      → ((wake slept now f).phase ≡ finished timed_out) ↔ (20 ≤ now - f.last_active)
  pub sleep_keeps :
      (now : ℕ) (f : Flow)
      → ((wake slept now f).sent ≡ f.sent) × ((wake slept now f).last_active ≡ f.last_active)
  pub closed_iff :
      (a : A) (written : Bool) (now : ℕ) (f : Flow)
      → ((wake (received a written) now f).phase ≡ finished closed) ↔ (read a ≡ [])
  pub read_written :
      (a : A) (now : ℕ) (f : Flow)
      → concat (wake (received a true) now f).sent ≡ concat f.sent ++ read a
  -- A task whose write fails dies by an `unwrap`.
  pub unwritten_iff :
      (a : A) (written : Bool) (now : ℕ) (f : Flow)
      → ((wake (received a written) now f).phase ≡ panicked) ↔ ((read a ≢ []) × (written ≡ false))
  pub unwritten_keeps : (a : A) (now : ℕ) (f : Flow) → (wake (received a false) now f).sent ≡ f.sent
  pub read_active :
      (a : A) (written : Bool) (now : ℕ) (f : Flow)
      → ((read a ≡ []) × ((wake (received a written) now f).last_active ≡ f.last_active))
        ⊎ ((read a ≢ []) × ((wake (received a written) now f).last_active ≡ now))
