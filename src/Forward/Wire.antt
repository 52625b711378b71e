-- ===== src/Forward/Wire.antt =====
-- A connection from end to end while it runs: the four tasks of its two sessions, and the bytes on
-- the way between them (net/tcp.rs, net/udp.rs).
pub mod Carried
use lantun.Forward.Delivery.{from_socket}
use lantun.Forward.{selecting, received}
use lantun.Forward.Session.{step, Enabled, wake_tunnel, Turn, start, Session}
use lantun.Forward.Loop.{Loop}
use lantun.Base.{Bool, ◌∷◌, none, concat, ◌≡◌, some, ◌++◌, [], Option, Bytes, ℕ}

-- `up` are the bytes on the way from the client to the host, `down` those that come back.
pub record Wire : Type 0 where
  pub near : Session
  pub far : Session
  pub up : Bytes
  pub down : Bytes

-- A write that fails leaves nothing to be read: the stream was stopped, or the connection lost.
-- A turn that takes nothing from the stream: the end of the stream is read where nothing is left.
abbrev pub Local : {B : Type 0} → Bytes → Turn (Option Bytes) B → Type 0
Local way (wake_tunnel now (received (some chunk) written)) = ⊥
Local way (wake_tunnel now (received none written)) = way ≡ []
Local way _ = Unit

module _ {B D : Type 0} (near_reader : Loop (Option Bytes)) (near_writer : Loop B)
    (far_reader : Loop (Option Bytes)) (far_writer : Loop D) where
  pub data Step : Wire → Wire → Type 0 where
    near_turn :
        (w : Wire) (t : Turn (Option Bytes) B)
        → Enabled t w.near
        → Local w.down t
        → Step w (record w {
          near = step near_reader near_writer t w.near;
          up = w.up ++ concat (from_socket near_reader near_writer (t ∷ []));
        })
    far_turn :
        (w : Wire) (t : Turn (Option Bytes) D)
        → Enabled t w.far
        → Local w.up t
        → Step w (record w {
          far = step far_reader far_writer t w.far;
          down = w.down ++ concat (from_socket far_reader far_writer (t ∷ []));
        })
    near_reads :
        (w : Wire) (now timeout : ℕ) (chunk rest : Bytes) (written : Bool)
        → w.near.tunnel.phase ≡ selecting timeout
        → w.down ≡ chunk ++ rest
        → Step w (record w {
          near =
              step near_reader near_writer (wake_tunnel now (received (some chunk) written)) w.near;
          down = rest;
        })
    far_reads :
        (w : Wire) (now timeout : ℕ) (chunk rest : Bytes) (written : Bool)
        → w.far.tunnel.phase ≡ selecting timeout
        → w.up ≡ chunk ++ rest
        → Step w (record w {
          far = step far_reader far_writer (wake_tunnel now (received (some chunk) written)) w.far;
          up = rest;
        })

  pub data Steps : Wire → Wire → Type 0 where
    here : {w : Wire} → Steps w w
    next : {w v u : Wire} → Step w v → Steps v u → Steps w u

-- The two sessions from their starts.
abbrev pub connected : ℕ → ℕ → Wire
connected now now' = record { near = start now; far = start now'; up = []; down = [] }
