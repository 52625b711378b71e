-- ===== src/Forward/Wire/Carried.antt =====
-- The bytes of a connection, whatever the order in which its four tasks run (net/tcp.rs, net/udp.rs).
use mathlib.Core.Path.{subst}
use lantun.Forward.Wire.{
  far_reads, near_reads, far_turn, here, connected, near_turn, Step, Steps, Wire, Local, next,
}
use lantun.Forward.Delivery.{step-sent, from_socket, wake-sent, from_tunnel}
use mathlib.Core.List.{append-nil, append_assoc}
use lantun.Net.Tcp.{bytes_of}
use lantun.Forward.{slept, stop_changed, received, selecting, panicked}
use lantun.Forward.Loop.{IsLoop, Loop}
use lantun.Forward.Session.{
  start, wake_socket, arm_socket, arm_tunnel, tunnel_flow, wake_tunnel, Enabled, Turn, Session,
  step, Task,
}
use lantun.Base.{
  false, true, ◌∷◌, arith, none, Bool, concat-append, ℕ, ◌∙◌, inr, inl, sym, ◌⊎◌, [], ap, some,
  concat, ◌++◌, ◌≡◌, Bytes, List, Option, refl,
}

-- The bytes that the task has written, then those whose write failed, and then those on the way are
-- the bytes that the other end has put into the stream.
abbrev pub Carried : Task → List Bytes → Bytes → Type 0
Carried task put way =
    (lost : Bytes) × (concat task.sent ++ (lost ++ way) ≡ concat put)
    × ((lost ≡ []) ⊎ (task.phase ≡ panicked))

Carried-put :
    (task : Task) (put more : List Bytes) (way : Bytes)
    → Carried task put way
    → Carried task (put ++ more) (way ++ concat more)
Carried-put task put more way (lost, e, why) = (
  lost,
  ap (λ x. concat task.sent ++ x) (sym (append_assoc lost way (concat more)))
      ∙ sym (append_assoc (concat task.sent) (lost ++ way) (concat more))
      ∙ ap (λ x. x ++ concat more) e
      ∙ sym (concat-append put more),
  why,
)

Carried-same :
    (task task' : Task) (put : List Bytes) (way : Bytes)
    → task'.sent ≡ task.sent
    → (task.phase ≡ panicked → task'.phase ≡ panicked)
    → Carried task put way
    → Carried task' put way
Carried-same task task' put way same stays (lost, e, why) = (
  lost,
  rw (same, e) refl,
  elim why [ inl none_lost ↦ inl none_lost | inr dead ↦ inr (stays dead) ],
)

module _ {B : Type 0} (reader : Loop (Option Bytes)) (writer : Loop B) (hr : IsLoop reader)
    (hw : IsLoop writer) (pays : (chunk : Bytes) → reader.payload (some chunk) ≡ bytes_of chunk)
    (ends : reader.payload none ≡ none) where
  -- A read of the task takes its bytes off the way.
  Carried-read :
      (s : Session) (now timeout : ℕ) (chunk rest : Bytes) (written : Bool) (put : List Bytes)
      → s.tunnel.phase ≡ selecting timeout
      → Carried s.tunnel put (chunk ++ rest)
      → Carried
          (step reader writer (wake_tunnel now (received (some chunk) written)) s).tunnel
          put
          rest
  unfolding step
  Carried-read s now timeout chunk rest written put at (lost, e, inr dead) = cc
  Carried-read s now timeout [] rest written put at (lost, e, inl none_lost) =
      let kept : concat s.tunnel.sent ++ rest ≡ concat put = rw (← e, none_lost) refl in
      elim (hr.drops (some []) written now (tunnel_flow s) (pays [] ∙ ground arith)) [
        | inl f ↦ rw f ([], kept, inl refl)
        | inr f ↦ rw f ([], kept, inl refl)
      ]
  Carried-read s now timeout (b ∷ more) rest true put at (lost, e, inl none_lost) =
      let chunk = b ∷ more in
      let f = hr.forwards (some chunk) true now (tunnel_flow s) chunk (pays chunk ∙ ground arith) in
      rw f (
        [],
        ap (λ x. x ++ rest)
              (concat-append s.tunnel.sent (chunk ∷ [])
                ∙ ap (λ x. concat s.tunnel.sent ++ x) (append-nil chunk))
            ∙ append_assoc (concat s.tunnel.sent) chunk rest
            ∙ rw (← e, none_lost) refl,
        inl refl,
      )
  Carried-read s now timeout (b ∷ more) rest false put at (lost, e, inl none_lost) =
      let chunk = b ∷ more in
      let f =
        hr.forwards (some chunk) false now (tunnel_flow s) chunk (pays chunk ∙ ground arith) in
      rw f (chunk, rw (← e, none_lost) refl, inr refl)

  -- Turns that take nothing from the stream.
  Carried-Local :
      (s : Session) (t : Turn (Option Bytes) B) (put : List Bytes) (way : Bytes)
      → Enabled t s
      → Local way t
      → Carried s.tunnel put way
      → Carried (step reader writer t s).tunnel put way
  unfolding step from_tunnel
  Carried-Local s (arm_tunnel now) put way en stays c =
      Carried-same s.tunnel _ put way refl (λ dead. cc) c
  Carried-Local s (wake_tunnel now (received (some chunk) written)) put way en stays c =
      absurd stays
  Carried-Local s (wake_tunnel now (received none written)) put way (t, en) stays c =
      Carried-same s.tunnel _ put way
        (wake-sent reader hr (received none written) now (tunnel_flow s)
          ∙ rw (ends, append-nil) refl)
        (λ dead. cc) c
  Carried-Local s (wake_tunnel now (stop_changed stop)) put way (t, en) stays c =
      Carried-same s.tunnel _ put way
        (wake-sent reader hr (stop_changed stop) now (tunnel_flow s) ∙ append-nil s.tunnel.sent)
        (λ dead. cc) c
  Carried-Local s (wake_tunnel now slept) put way (t, en) stays c =
      Carried-same s.tunnel _ put way
        (wake-sent reader hr slept now (tunnel_flow s) ∙ append-nil s.tunnel.sent) (λ dead. cc) c
  Carried-Local s (arm_socket now) put way en stays c = c
  Carried-Local s (wake_socket now w) put way en stays c = c

-- A loop that reads the tunnel.
pub record IsReader (reader : Loop (Option Bytes)) : Type 0 where
  pub loops : IsLoop reader
  pub pays : (chunk : Bytes) → reader.payload (some chunk) ≡ bytes_of chunk
  pub ends : reader.payload none ≡ none

module _ {B D : Type 0} (near_reader : Loop (Option Bytes)) (near_writer : Loop B)
    (far_reader : Loop (Option Bytes)) (far_writer : Loop D) (nr : IsReader near_reader)
    (nw : IsLoop near_writer) (fr : IsReader far_reader) (fw : IsLoop far_writer) where
  abbrev pub BothCarried : Wire → Type 0
  BothCarried w =
      Carried w.far.tunnel w.near.socket.sent w.up × Carried w.near.tunnel w.far.socket.sent w.down

  Step-Carried :
      {w v : Wire}
      → Step near_reader near_writer far_reader far_writer w v
      → BothCarried w
      → BothCarried v
  unfolding step from_socket
  Step-Carried (near_turn w t en stays) (up, down) = (
    subst
        (λ put.
          Carried w.far.tunnel put (w.up ++ concat (from_socket near_reader near_writer (t ∷ []))))
        (sym (step-sent near_reader near_writer nr.loops nw t w.near).1)
        (Carried-put w.far.tunnel w.near.socket.sent _ w.up up),
    Carried-Local near_reader near_writer nr.loops nw nr.pays nr.ends w.near t w.far.socket.sent
        w.down en stays down,
  )
  Step-Carried (far_turn w t en stays) (up, down) = (
    Carried-Local far_reader far_writer fr.loops fw fr.pays fr.ends w.far t w.near.socket.sent w.up
        en stays up,
    subst
        (λ put.
          Carried w.near.tunnel put (w.down ++ concat (from_socket far_reader far_writer (t ∷ []))))
        (sym (step-sent far_reader far_writer fr.loops fw t w.far).1)
        (Carried-put w.near.tunnel w.far.socket.sent _ w.down down),
  )
  Step-Carried (near_reads w now timeout chunk rest written at e) (up, down) = (
    up,
    Carried-read near_reader near_writer nr.loops nw nr.pays nr.ends w.near now timeout chunk rest
        written w.far.socket.sent at
        (subst (λ way. Carried w.near.tunnel w.far.socket.sent way) e down),
  )
  Step-Carried (far_reads w now timeout chunk rest written at e) (up, down) = (
    Carried-read far_reader far_writer fr.loops fw fr.pays fr.ends w.far now timeout chunk rest
        written w.near.socket.sent at
        (subst (λ way. Carried w.far.tunnel w.near.socket.sent way) e up),
    down,
  )

  Steps-Carried :
      {w v : Wire}
      → Steps near_reader near_writer far_reader far_writer w v
      → BothCarried w
      → BothCarried v
  Steps-Carried here c = c
  Steps-Carried (next st more) c = Steps-Carried more (Step-Carried st c)

  -- Two sessions connected by a stream that keeps the order of its bytes, from their starts, with
  -- any loops that meet IsLoop and readers of the tunnel that meet IsReader: in whatever order the
  -- four tasks run, and in whatever pieces they read, the bytes that the service was sent, then
  -- those whose write failed, and then those on the way are exactly the bytes that the client has
  -- put into the stream; none were lost unless the task that writes to the service has panicked;
  -- and so it is for the way back.
  pub connected-Carried :
      (now now' : ℕ) {w : Wire}
      → Steps near_reader near_writer far_reader far_writer (connected now now') w
      → Carried w.far.tunnel w.near.socket.sent w.up
        × Carried w.near.tunnel w.far.socket.sent w.down
  unfolding start
  connected-Carried now now' steps =
      Steps-Carried steps (([], refl, inl refl), ([], refl, inl refl))
