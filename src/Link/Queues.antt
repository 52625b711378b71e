-- ===== src/Link/Queues.antt =====
-- The messages and the streams that are on the way from a client to its host (lantun-core/src/
-- client.rs, common.rs).
use mathlib.Core.List.{append-nil}
use lantun.Map.{contains_key}
use mathlib.Core.Path.{subst}
use lantun.Connections.{ControlMsg, conn_req}
use lantun.Client.Listener.{open_local, Listener}
use lantun.Protocol.{udp, tcp, TunnelProtocol}
use lantun.Base.{
  length-append, suc, true, ◌∙◌, none, inr, inl, sym, Bool-cases, Option, refl, Text, arith, some,
  [], ◌≡◌, length, ◌++◌, ◌∷◌, Bytes, List,
}
use lantun.Packets.{first_error, SendCalls, send_packet}
use lantun.Addr.{addr_eq, SocketAddr}
use lantun.Link.{whole, torn, unopened, IsNew, Sent, Quiet, PacketCodec}
use lantun.Client.Listener

module _ (C : PacketCodec) where
  -- Each message on the way, whole or cut, is that of the stream at its place; there may be streams
  -- without a message behind them.
  abbrev pub Aligned : List Bytes → List SocketAddr → Type 0
  Aligned [] streams = Unit
  Aligned (b ∷ requests) [] = ⊥
  Aligned (b ∷ requests) (addr ∷ streams) =
      ((rest : Bytes) × (C.encode (conn_req addr) ≡ b ++ rest)) × Aligned requests streams

  Aligned-stream :
      (addr : SocketAddr) (requests : List Bytes) (streams : List SocketAddr)
      → Aligned requests streams
      → Aligned requests (streams ++ (addr ∷ []))
  Aligned-stream addr [] streams h = tt
  Aligned-stream addr (b ∷ requests) [] h = absurd h
  Aligned-stream addr (b ∷ requests) (a ∷ streams) (h, more) =
      (h, Aligned-stream addr requests streams more)

  Aligned-append :
      (b rest : Bytes) (addr : SocketAddr) (requests : List Bytes) (streams : List SocketAddr)
      → C.encode (conn_req addr) ≡ b ++ rest
      → length streams ≡ length requests
      → Aligned requests streams
      → Aligned (requests ++ (b ∷ [])) (streams ++ (addr ∷ []))
  Aligned-append b rest addr [] [] e n h = ((rest, e), tt)
  Aligned-append b rest addr [] (a ∷ streams) e n h = absurd (omega (arith, n))
  Aligned-append b rest addr (c ∷ requests) [] e n h = absurd h
  Aligned-append b rest addr (c ∷ requests) (a ∷ streams) e n (h, more) =
      (h, Aligned-append b rest addr requests streams e (omega (arith, n)) more)

  -- The bytes of a message that went out in full are the message.
  pub send_packet-whole :
      (msg : ControlMsg) (calls : SendCalls) (b : Bytes)
      → (send_packet C.encode msg calls).1 ≡ some b
      → C.encode msg ≡ b ++ []
  unfolding send_packet
  send_packet-whole msg calls b h =
      out (first_error calls.open_uni calls.write_all) h ∙ sym (append-nil b)
    where
      out :
          (o : Option Text)
          → elim o [ none ↦ some (C.encode msg) | some message ↦ none ] ≡ some b
          → C.encode msg ≡ b
      out none e = ground arith
      out (some message) e = cc

  send_packet-unopened :
      (msg : ControlMsg) (calls : SendCalls) (message : Text)
      → calls.open_uni ≡ some message
      → (send_packet C.encode msg calls).0 ≡ some message
  unfolding send_packet
  send_packet-unopened msg calls message h = rw h refl

  -- With as many messages as streams on the way, unless the client's task has ended.
  abbrev pub Even : Listener.Phase → List Bytes → List SocketAddr → Type 0
  Even (Listener.ended r) requests streams = Unit
  Even _ requests streams = length streams ≡ length requests

  module _ (requests : List Bytes) (streams : List SocketAddr) where
    Even-same : (p q : Listener.Phase) → q ≡ p → Even p requests streams → Even q requests streams
    Even-same p q h n = subst (λ p. Even p requests streams) (sym h) n

    pub dispatch-Even :
        (protocol : TunnelProtocol) (p : Listener.Phase) (e : Listener.Event) (s : Listener)
        → s.phase ≡ p
        → Even p requests streams
        → Quiet protocol e s
        → Even (Listener.dispatch protocol p e s).phase requests streams
    dispatch-Even protocol Listener.binding (Listener.bound none) s h n q = n
    dispatch-Even protocol Listener.binding (Listener.bound (some m)) s h n q = tt
    dispatch-Even protocol Listener.listening (Listener.stop_changed true) s h n q = tt
    dispatch-Even tcp Listener.listening (Listener.incoming a (some m) e) s h n q = tt
    dispatch-Even udp Listener.listening (Listener.incoming a (some m) e) s h n q =
        elim (Bool-cases (contains_key a s.local_connections)) [
          | inl known ↦ rw known (Even-same Listener.listening s.phase h n)
          | inr new ↦ rw new tt
        ]
    dispatch-Even tcp Listener.listening (Listener.incoming a none e) s h n (q, known) = cc
    dispatch-Even udp Listener.listening (Listener.incoming a none e) s h n (q, known) =
        rw known (Even-same Listener.listening s.phase h n)
    dispatch-Even protocol (Listener.forwarding l) Listener.forwarded s h n q = n
    dispatch-Even protocol Listener.binding e s h n q = Even-same Listener.binding s.phase h n
    dispatch-Even protocol Listener.listening e s h n q = Even-same Listener.listening s.phase h n
    dispatch-Even protocol (Listener.forwarding l) e s h n q =
        Even-same (Listener.forwarding l) s.phase h n
    dispatch-Even protocol (Listener.ended r) e s h n q = Even-same (Listener.ended r) s.phase h n

  -- A new stream, with what went out of its message, comes behind the others.
  pub Sent-Aligned :
      (addr : SocketAddr) (calls : SendCalls) (out requests : List Bytes)
      (streams : List SocketAddr)
      → Sent C (conn_req addr) calls out
      → length streams ≡ length requests
      → Aligned requests streams
      → Aligned (requests ++ out) (streams ++ (addr ∷ []))
  Sent-Aligned addr calls out requests streams (unopened m e) n h =
      rw append-nil (Aligned-stream addr requests streams h)
  Sent-Aligned addr calls out requests streams (torn b rest gone e) n h =
      Aligned-append b rest addr requests streams e n h
  Sent-Aligned addr calls out requests streams (whole b e) n h =
      Aligned-append b [] addr requests streams (send_packet-whole (conn_req addr) calls b e) n h

  length-snoc : {A : Type 0} (xs : List A) (x : A) → length (xs ++ (x ∷ [])) ≡ suc (length xs)
  length-snoc xs x = omega (arith, length-append xs (x ∷ []))

  Sent-Even :
      (addr : SocketAddr) (calls : SendCalls) (out requests : List Bytes)
      (streams : List SocketAddr) (s : Listener)
      → Sent C (conn_req addr) calls out
      → length streams ≡ length requests
      → Even
          (open_local addr none (send_packet C.encode (conn_req addr) calls).0 s).phase
          (requests ++ out)
          (streams ++ (addr ∷ []))
  Sent-Even addr calls out requests streams s sent n =
      by_error (send_packet C.encode (conn_req addr) calls).0 out refl sent
    where
      by_error :
          (o : Option Text) (out : List Bytes)
          → (send_packet C.encode (conn_req addr) calls).0 ≡ o
          → Sent C (conn_req addr) calls out
          → Even (open_local addr none o s).phase (requests ++ out) (streams ++ (addr ∷ []))
      by_error (some m) out e sent = tt
      by_error none [] e (unopened m f) =
          let opened = send_packet-unopened (conn_req addr) calls m f in cc
      by_error none (b ∷ []) e (torn c rest gone f) =
          rw (length-snoc streams addr, length-snoc requests b, n) refl
      by_error none (b ∷ []) e (whole c f) =
          rw (length-snoc streams addr, length-snoc requests b, n) refl
      by_error none (b ∷ (c ∷ more)) e sent = elim sent [ ]

  pub opening-Even :
      (protocol : TunnelProtocol) (addr : SocketAddr) (calls : SendCalls)
      (out requests : List Bytes) (streams : List SocketAddr) (s : Listener) (p : Listener.Phase)
      → p ≡ Listener.listening
      → IsNew protocol addr s
      → Sent C (conn_req addr) calls out
      → length streams ≡ length requests
      → Even
          (Listener.dispatch protocol p
            (Listener.incoming addr none (send_packet C.encode (conn_req addr) calls).0)
            s).phase
          (requests ++ out)
          (streams ++ (addr ∷ []))
  opening-Even tcp addr calls out requests streams s Listener.listening e new sent n =
      Sent-Even addr calls out requests streams s sent n
  opening-Even udp addr calls out requests streams s Listener.listening e new sent n =
      rw new (Sent-Even addr calls out requests streams s sent n)
  opening-Even protocol addr calls out requests streams s p e new sent n = cc

  pub Even-tail :
      (p : Listener.Phase) (b : Bytes) (addr : SocketAddr) (requests : List Bytes)
      (streams : List SocketAddr)
      → Even p (b ∷ requests) (addr ∷ streams)
      → Even p requests streams
  Even-tail (Listener.ended r) b addr requests streams n = tt
  Even-tail Listener.binding b addr requests streams n = omega (arith, n)
  Even-tail Listener.listening b addr requests streams n = omega (arith, n)
  Even-tail (Listener.forwarding l) b addr requests streams n = omega (arith, n)
