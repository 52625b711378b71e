-- ===== src/Link/Rounds.antt =====
-- What the host reads of a request is what the client wrote (lantun-core/src/common.rs, host.rs).
use mathlib.Core.Option.{some-injective}
use mathlib.Core.List.{append-nil}
use mathlib.Core.Path.{subst}
use lantun.Host.Server.{Server, Request}
use lantun.Packets.{receive_packet-decoded, decoded, ReceivePacketError}
use lantun.Link.Queues.{Even-tail, Even, Aligned}
use lantun.Host.{receive_packet_error, connection_error, peer_eq}
use lantun.Connections.{conn_req, ControlMsg}
use mathlib.Core.Option
use lantun.Base.{
  arith, ◌≢◌, err, Text, concat, Option, List, refl, [], ◌∷◌, ◌∙◌, length, sym, map_err_ok,
  ok_unique, ap, bind_ok, ℕ, map_err, ok, ◌++◌, some, ◌≡◌, Bytes,
}
use lantun.Addr.{without_scope, SocketAddr}
use lantun.Link.{received, broken, no_request, no_stream, Round, IsPacketCodec, PacketCodec}
use lantun.Client.Listener
use lantun.Host.Server

module _ (C : PacketCodec) (L : IsPacketCodec C) where
  decoded_prefix :
      (addr : SocketAddr) (b rest : Bytes) (x : ControlMsg × ℕ)
      → C.encode (conn_req addr) ≡ b ++ rest
      → C.decode b ≡ ok x
      → x.0 ≡ conn_req (without_scope addr)
  decoded_prefix addr b [] x e d =
      ap (λ y. y.0)
        (ok_unique d (
          subst
            (λ b.
              C.decode b ≡ ok (conn_req (without_scope addr), length (C.encode (conn_req addr))))
            (e ∙ append-nil b) (L.decode-encode addr)))
  decoded_prefix addr b (c ∷ rest) x e d =
      absurd (L.decode_cut (conn_req addr) b (c ∷ rest) x e (λ f. cc) d)

  -- What is read of the message of a stream, whole or cut, is the request of its application, but
  -- for the scope of its address.
  received-addr :
      (addr : SocketAddr) (b rest : Bytes) (r : Request) (a : SocketAddr)
      → C.encode (conn_req addr) ≡ b ++ rest
      → r.packet ≡ map_err C.shown (decoded C.decode (ok b))
      → Server.requested r ≡ ok a
      → a ≡ without_scope addr
  received-addr addr b rest r a e packet h =
      let (_, checked, more) = bind_ok (Server.check r.stream_error connection_error) _ h in
      let (msg, got, same) = bind_ok (map_err receive_packet_error r.packet) _ more in
      let read =
        map_err_ok C.shown (decoded C.decode (ok b))
          (sym packet ∙ map_err_ok receive_packet_error r.packet got) in
      let (x, found, first) = bind_ok (map_err ReceivePacketError.decode (C.decode b)) _ read in
      let msg_is =
        decoded_prefix addr b rest x e (map_err_ok ReceivePacketError.decode (C.decode b) found) in
      ok_unique same (ap (λ m. ok (Server.local_addr_of m)) (sym (ok_unique refl first) ∙ msg_is))

  unread-requested :
      (r : Request) (message : Text) (a : SocketAddr)
      → r.packet ≡ err message
      → Server.requested r ≢ ok a
  unread-requested r message a e = ground arith

  -- A round that comes to a request has taken a stream and its message.
  pub Round-requested :
      {r : Request} {streams streams' : List SocketAddr} {requests requests' : List Bytes}
      {current : Option SocketAddr} (p : Listener.Phase) (a : SocketAddr)
      → Round C r streams requests streams' requests' current
      → Server.requested r ≡ ok a
      → Aligned C requests streams
      → Even C p requests streams
      → Aligned C requests' streams'
        × Even C p requests' streams'
        × (Option.map without_scope current ≡ some a)
  Round-requested {r} p a (no_stream streams requests m e) h q even = cc
  Round-requested {r} p a (no_request addr streams requests m e) h q even =
      absurd (unread-requested r m a e h)
  Round-requested {r} p a (broken addr streams b requests m e) h q even =
      absurd (unread-requested r m a e h)
  Round-requested {r} p a (received addr streams chunks requests rest o e read packet) h
        ((cut, enc), q) even =
      let o_is = some-injective _ _ (sym (receive_packet-decoded C.decode chunks rest) ∙ read) in
      let a_is =
        received-addr addr (concat chunks) cut r a enc (packet ∙ ap (map_err C.shown) (sym o_is))
          h in
      (q, Even-tail C p (concat chunks) addr requests streams even, ap some (sym a_is))
