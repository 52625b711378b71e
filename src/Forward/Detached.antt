-- ===== src/Forward/Detached.antt =====
-- A session of which one task has panicked: `try_join!` gives up at once, and the handle of the other
-- task is dropped, which does not end it (net/tcp.rs, net/udp.rs).
use mathlib.Core.Path.{subst}
use mathlib.Core.List.{append_assoc, append-nil}
use lantun.Forward.{received, arming, selecting}
use lantun.Forward.Session.{
  tunnel_flow, next, join_error, arm_socket, done, wake_tunnel, Run, wake_socket, Session, Turn,
  joined, step,
}
use lantun.Forward.Loop.{IsLoop, Loop}
use lantun.Base.{◌∙◌, [], sym, ◌∷◌, false, true, ◌++◌, All, some, ◌≡◌, map, Bytes, List, ℕ, refl}

module _ {A B : Type 0} (reader : Loop A) (writer : Loop B) (hr : IsLoop reader)
    (hw : IsLoop writer) where
  -- Rounds of the socket task that each read something and write it.
  abbrev pub rounds : ℕ → List (B × Bytes) → List (Turn A B)
  rounds now [] = []
  rounds now ((b, chunk) ∷ reads) =
      arm_socket now ∷ wake_socket now (received b true) ∷ rounds now reads

  abbrev pub chunks : List (B × Bytes) → List Bytes
  chunks reads = map (λ x. x.1) reads

  after_round :
      (now : ℕ) (b : B) (chunk : Bytes) (s : Session)
      → writer.payload b ≡ some chunk
      → step reader writer
          (wake_socket now (received b true))
          (step reader writer (arm_socket now) s)
        ≡ record s {
          socket = record { phase = arming; sent = s.socket.sent ++ (chunk ∷ []) };
          last_active = now;
        }
  unfolding step
  after_round now b chunk s e = rw (hw.forwards b true now _ chunk e) refl

  rounds-Run :
      (now : ℕ) (reads : List (B × Bytes)) (s : Session)
      → s.socket.phase ≡ arming
      → All (λ x. writer.payload x.0 ≡ some x.1) reads
      → (u : Session) × Run reader writer s (rounds now reads) u
        × (u.tunnel.phase ≡ s.tunnel.phase)
        × (u.socket.phase ≡ arming)
        × (u.socket.sent ≡ s.socket.sent ++ chunks reads)
  unfolding step
  rounds-Run now [] s at h = (s, done, refl, at, sym (append-nil s.socket.sent))
  rounds-Run now ((b, chunk) ∷ reads) s at (e, h) =
      let t : Session = record s {
        socket = record { phase = arming; sent = s.socket.sent ++ (chunk ∷ []) };
        last_active = now;
      } in
      let (u, run, dead, at', sent) = rounds-Run now reads t refl h in
      (
        u,
        next at (
            next (_, refl)
              (subst (λ t. Run reader writer t (rounds now reads) u)
                (sym (after_round now b chunk s e)) run)),
        dead,
        at',
        sent ∙ append_assoc s.socket.sent (chunk ∷ []) (chunks reads),
      )

  -- If the write of the tunnel task of a session fails while the socket task is at the head of its
  -- loop, the session is joined with an error at once; but the socket task can go on, for as many
  -- rounds as there are reads with a payload, and writes each of them, and is then still in its
  -- loop.
  pub detached-Run :
      (s : Session) (timeout now : ℕ) (a : A) (lost : Bytes) (reads : List (B × Bytes))
      → s.tunnel.phase ≡ selecting timeout
      → s.socket.phase ≡ arming
      → reader.payload a ≡ some lost
      → All (λ x. writer.payload x.0 ≡ some x.1) reads
      → (u : Session) × Run reader writer s
          (wake_tunnel now (received a false) ∷ rounds now reads)
          u
        × (joined (step reader writer (wake_tunnel now (received a false)) s) ≡ join_error)
        × (u.socket.phase ≡ arming)
        × (u.socket.sent ≡ s.socket.sent ++ chunks reads)
  unfolding step joined
  detached-Run s timeout now a lost reads selects at e h =
      let t = step reader writer (wake_tunnel now (received a false)) s in
      let (u, run, dead, at', sent) = rounds-Run now reads t at h in
      (
        u,
        next (timeout, selects) run,
        rw (hr.forwards a false now (tunnel_flow s) lost e) refl,
        at',
        sent,
      )
