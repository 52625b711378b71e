-- ===== src/Link.antt =====
-- A client tunnel and the host tunnel that it is connected with: the task of each, and the streams
-- between them (lantun-core/src/client.rs, host.rs, common.rs).
pub mod Queues
pub mod Rounds
pub mod Paired
pub mod Reached
pub mod Unwritten
use lantun.Map.{contains_key}
use lantun.Client.Listener.{Listener}
use lantun.Packets.{finish, bytes, receive_packet, Read, ReceivePacketError, send_packet, SendCalls}
use lantun.Addr.{without_scope, addr_eq, SocketAddr}
use lantun.Base.{
  ◌+◌, ◌-◌, ◌≤◌, concat, map_err, map, ◌∷◌, ◌≢◌, err, ◌++◌, false, length, none, some, true, ℕ,
  Option, Outcome, Text, [], ok, Bytes, List, ◌≡◌,
}
use lantun.Runtime.{Runtime}
use lantun.Protocol.{tcp, udp, TunnelProtocol}
use lantun.Connections.{conn_req, ControlMsg}
use lantun.Host.Server.{Server, Request}
use lantun.Host.Server
use lantun.Client.Listener

-- bincode for the control messages, and how the host's errors show one that was not received.
pub record PacketCodec : Type 0 where
  pub encode : ControlMsg → Bytes
  pub decode : Bytes → Outcome Text (ControlMsg × ℕ)
  pub shown : ReceivePacketError → Text

-- What is written is read, but for the flow and the scope of an address, and of a message that was
-- cut nothing is.
pub record IsPacketCodec (C : PacketCodec) : Type 0 where
  pub decode-encode :
      (a : SocketAddr)
      → C.decode (C.encode (conn_req a))
        ≡ ok (conn_req (without_scope a), length (C.encode (conn_req a)))
  pub decode_cut :
      (p : ControlMsg) (b rest : Bytes) (x : ControlMsg × ℕ)
      → C.encode p ≡ b ++ rest
      → rest ≢ []
      → C.decode b ≢ ok x

-- A message goes out on a stream of its own: the bytes of these streams, in the order in which they
-- were opened. After an error some of the bytes may have gone out.
pub data Sent (C : PacketCodec) (msg : ControlMsg) (calls : SendCalls) : List Bytes → Type 0 where
  unopened : (message : Text) → calls.open_uni ≡ some message → Sent C msg calls []
  torn :
      (b rest : Bytes)
      → (send_packet C.encode msg calls).1 ≡ none
      → C.encode msg ≡ b ++ rest
      → Sent C msg calls (b ∷ [])
  whole : (b : Bytes) → (send_packet C.encode msg calls).1 ≡ some b → Sent C msg calls (b ∷ [])

-- What one round of `handle_connection` takes from the streams that the client has opened: of the
-- bidirectional ones, each given by the application it was opened for, and of the messages. The
-- last index is the application of the stream that the round goes on with.
pub data Round (C : PacketCodec) (r : Request)
    : List SocketAddr → List Bytes → List SocketAddr → List Bytes → Option SocketAddr → Type 0 where
  no_stream :
      (streams : List SocketAddr) (requests : List Bytes) (message : Text)
      → r.stream_error ≡ some message
      → Round C r streams requests streams requests none
  no_request :
      (addr : SocketAddr) (streams : List SocketAddr) (requests : List Bytes) (message : Text)
      → r.packet ≡ err message
      → Round C r (addr ∷ streams) requests streams requests none
  broken :
      (addr : SocketAddr) (streams : List SocketAddr) (b : Bytes) (requests : List Bytes)
      (message : Text)
      → r.packet ≡ err message
      → Round C r (addr ∷ streams) (b ∷ requests) streams requests none
  received :
      (addr : SocketAddr) (streams : List SocketAddr) (chunks : List Bytes) (requests : List Bytes)
      (rest : List Read) (p : Outcome ReceivePacketError ControlMsg)
      → r.stream_error ≡ none
      → receive_packet C.decode none (map bytes chunks ++ (finish ∷ rest)) ≡ some p
      → r.packet ≡ map_err C.shown p
      → Round C r (addr ∷ streams) (concat chunks ∷ requests) streams requests (some addr)

-- The events of the client's task that open no stream.
abbrev pub Quiet : TunnelProtocol → Listener.Event → Listener → Type 0
Quiet protocol (Listener.incoming addr none send_error) s =
    (protocol ≡ udp) × (contains_key addr s.local_connections ≡ true)
Quiet protocol _ s = Unit

-- The client opens a stream for the application.
abbrev pub IsNew : TunnelProtocol → SocketAddr → Listener → Type 0
IsNew tcp addr s = Unit
IsNew udp addr s = contains_key addr s.local_connections ≡ false

module _ (R : Runtime) where
  -- The first `shown` of the streams are those that the host can see: QUIC tells it of a stream when
  -- something is written to it, or it is dropped, and with it of all that were opened before.
  -- `current` is the application of the stream that the host took last.
  pub record Link : Type 0 where
    pub client : Listener
    pub server : Server R
    pub streams : List SocketAddr
    pub shown : ℕ
    pub requests : List Bytes
    pub current : Option SocketAddr

  -- The two tasks as they are spawned, or a server that serves others.
  abbrev pub linked : Server R → Link
  linked server = record {
    client = Listener.spawned;
    server = server;
    streams = [];
    shown = 0;
    requests = [];
    current = none;
  }

  module _ (C : PacketCodec) (peer : R.PublicKey) (client_protocol protocol : TunnelProtocol)
      (tunnel_local_addr : SocketAddr) where
    -- `open_bi` has given the stream, and `send_packet` comes after it.
    abbrev pub opening : SocketAddr → SendCalls → List Bytes → Link → Link
    opening addr calls out s = record s {
      client =
          Listener.on_event client_protocol
            (Listener.incoming addr none (send_packet C.encode (conn_req addr) calls).0) s.client;
      streams = s.streams ++ (addr ∷ []);
      requests = s.requests ++ out;
    }

    -- A request of the client is answered.
    abbrev pub answering : Request → List SocketAddr → List Bytes → Option SocketAddr → Link → Link
    answering r streams requests current s = record {
      client = s.client;
      server = Server.on_event R protocol tunnel_local_addr (Server.request r) s.server;
      streams = streams;
      shown = s.shown - (length s.streams - length streams);
      requests = requests;
      current = current;
    }

    -- What a round takes, the host has been shown.
    abbrev pub IsShown : List SocketAddr → Link → Type 0
    IsShown streams s = length s.streams ≤ length streams + s.shown

    -- The client is `peer` to the host.
    pub data Step : Link → Link → Type 0 where
      client_moves :
          (s : Link) (e : Listener.Event)
          → Quiet client_protocol e s.client
          → Step s (record s { client = Listener.on_event client_protocol e s.client })
      client_opens :
          (s : Link) (addr : SocketAddr) (calls : SendCalls) (out : List Bytes)
          → s.client.phase ≡ Listener.listening
          → IsNew client_protocol addr s.client
          → Sent C (conn_req addr) calls out
          → Step s (opening addr calls out s)
      -- The first bytes of an application are written to its stream, or the streams of a session
      -- are dropped.
      client_shows : (s : Link) → Step s (record s { shown = length s.streams })
      -- Whatever is not a request of this client.
      server_moves :
          (s : Link) (e : Server.Event R)
          → ((r : Request) → s.server.phase ≡ Server.serving peer → e ≢ Server.request r)
          → Step s (record s { server = Server.on_event R protocol tunnel_local_addr e s.server })
      server_answers :
          (s : Link) (r : Request) (streams : List SocketAddr) (requests : List Bytes)
          (current : Option SocketAddr)
          → s.server.phase ≡ Server.serving peer
          → Round C r s.streams s.requests streams requests current
          → IsShown streams s
          → Step s (answering r streams requests current s)

    pub data Steps : Link → Link → Type 0 where
      here : {s : Link} → Steps s s
      next : {s t u : Link} → Step s t → Steps t u → Steps s u
