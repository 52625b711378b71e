-- ===== src/Forward/Delivery.antt =====
-- What a session has written after any interleaving of its two tasks (net/tcp.rs, net/udp.rs).
use mathlib.Core.List.{append-nil, append_assoc}
use lantun.Base.{
  ℕ, ◌≡◌, refl, ◌∙◌, Bool, true, Option, none, some, List, [], ◌∷◌, ◌++◌, Bytes, arith,
}
use lantun.Forward.{Flow, Wake, stop_changed, received, slept, on_sleep}
use lantun.Forward.Loop.{Loop, IsLoop}
use lantun.Forward.Session.{
  Session, Turn, arm_tunnel, wake_tunnel, arm_socket, wake_socket, step, Run, done, next,
  tunnel_flow, socket_flow,
}

-- A payload goes out if its write succeeds.
abbrev pub chunk : Option Bytes → Bool → List Bytes
chunk (some bytes) true = bytes ∷ []
chunk _ _ = []

module _ {A : Type 0} (l : Loop A) where
  abbrev pub wake_chunk : Wake A → List Bytes
  wake_chunk (received a written) = chunk (l.payload a) written
  wake_chunk _ = []

  module _ (h : IsLoop l) where
    read-sent :
        (a : A) (written : Bool) (now : ℕ) (f : Flow) (p : Option Bytes)
        → l.payload a ≡ p
        → (l.wake (received a written) now f).sent ≡ f.sent ++ chunk p written
    read-sent a written now f none e = ground (arith, append-nil f.sent, h.drops a written now f e)
    read-sent a written now f (some bytes) e =
        ground (arith, append-nil f.sent, h.forwards a written now f bytes e)

    -- One round of a loop appends what it read, or nothing.
    pub wake-sent :
        (w : Wake A) (now : ℕ) (f : Flow) → (l.wake w now f).sent ≡ f.sent ++ wake_chunk w
    unfolding on_sleep
    wake-sent (stop_changed stop) now f = ground (arith, append-nil f.sent, h.obeys_stop stop now f)
    wake-sent (received a written) now f = read-sent a written now f (l.payload a) refl
    wake-sent slept now f = ground (arith, append-nil f.sent, h.checks_idle now f)

module _ {A B : Type 0} (reader : Loop A) (writer : Loop B) where
  -- What the turns bring from the tunnel to the socket, and what from the socket to the tunnel.
  unfoldable pub from_tunnel : List (Turn A B) → List Bytes
  from_tunnel [] = []
  from_tunnel (wake_tunnel now w ∷ ts) = wake_chunk reader w ++ from_tunnel ts
  from_tunnel (_ ∷ ts) = from_tunnel ts

  unfoldable pub from_socket : List (Turn A B) → List Bytes
  from_socket [] = []
  from_socket (wake_socket now w ∷ ts) = wake_chunk writer w ++ from_socket ts
  from_socket (_ ∷ ts) = from_socket ts

  module _ (hr : IsLoop reader) (hw : IsLoop writer) where
    pub step-sent :
        (t : Turn A B) (s : Session)
        → ((step reader writer t s).tunnel.sent ≡ s.tunnel.sent ++ from_tunnel (t ∷ []))
          × ((step reader writer t s).socket.sent ≡ s.socket.sent ++ from_socket (t ∷ []))
    unfolding step from_tunnel from_socket
    step-sent (arm_tunnel now) s = (rw append-nil, rw append-nil)
    step-sent (wake_tunnel now w) s =
        (rw append-nil (wake-sent reader hr w now (tunnel_flow s)), rw append-nil)
    step-sent (arm_socket now) s = (rw append-nil, rw append-nil)
    step-sent (wake_socket now w) s =
        (rw append-nil, rw append-nil (wake-sent writer hw w now (socket_flow s)))

    split_tunnel :
        (t : Turn A B) (ts : List (Turn A B))
        → from_tunnel (t ∷ ts) ≡ from_tunnel (t ∷ []) ++ from_tunnel ts
    unfolding from_tunnel
    split_tunnel (wake_tunnel now w) ts = rw append-nil
    split_tunnel _ ts = refl

    split_socket :
        (t : Turn A B) (ts : List (Turn A B))
        → from_socket (t ∷ ts) ≡ from_socket (t ∷ []) ++ from_socket ts
    unfolding from_socket
    split_socket (wake_socket now w) ts = rw append-nil
    split_socket _ ts = refl

    -- However the two tasks of a session are interleaved, each has written exactly the payloads
    -- that it read and could write, every one once and in the order of the reads, after what it
    -- had written before. The loops are any that meet IsLoop.
    pub Run-sent :
        {s u : Session} {ts : List (Turn A B)}
        → Run reader writer s ts u
        → (u.tunnel.sent ≡ s.tunnel.sent ++ from_tunnel ts)
          × (u.socket.sent ≡ s.socket.sent ++ from_socket ts)
    unfolding from_tunnel from_socket
    Run-sent done = (rw append-nil, rw append-nil)
    Run-sent {s} (next {t} {ts} en r) =
        let (tunnel, socket) = Run-sent r in
        let (tunnel_step, socket_step) = step-sent t s in
        (
          tunnel ∙ rw (tunnel_step, append_assoc, ← split_tunnel t ts) refl,
          socket ∙ rw (socket_step, append_assoc, ← split_socket t ts) refl,
        )
