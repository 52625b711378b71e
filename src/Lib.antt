-- ===== src/Lib.antt =====
-- lantun, a tool that exposes local TCP and UDP ports through a tunnel to other machines.
--
-- The program has a core library (lantun-core) and a command line (lantun-cli). A host keeps
-- `HostTunnel`s, each with a task that accepts clients and, for each local connection of a client,
-- opens a socket to the exposed service. A client keeps `ClientTunnel`s, each with a task that
-- listens on a local address and opens a stream of the tunnel for each local application. Both ends
-- of such a stream run a session of two forwarder tasks that share a counter of the last activity.
-- The command line edits a configuration file, from which it makes the tunnels.
--
--   Base, Map           shared names, lists, results with panics, and `HashMap`
--   Protocol            lantun-core/src/lib.rs: `TunnelProtocol` and its texts
--   Addr                lantun-core/src/lib.rs: `get_unspecified`, over std's `SocketAddr`
--   Packets             lantun-core/src/common.rs: `send_packet`, `receive_packet`
--   Connections         lantun-core/src/common.rs and the two functions that drop a connection
--   Runtime             what is used of iroh and tokio, as parameters
--   Forward             the parts that the eight forwarder loops share, the interface `IsLoop`
--                       that each of them meets, and sessions of two loops in any interleaving;
--                       Forward/Wire has two sessions, with the bytes on the way between them, as
--                       one step relation, and Forward/Across two whole runs of sessions
--   Net/Tcp, Net/Udp    lantun-core/src/net/tcp.rs and udp.rs: the eight loops
--                       Net/Tcp/Observed tells what is to be seen of the TCP loops;
--                       Net/Udp/Datagrams says what the UDP loops read of a datagram, and
--                       Net/Udp/Foreign has the queue of the socket
--   Host                lantun-core/src/host.rs: `HostState`, `HostTunnel` and its methods
--   Host/Server         lantun-core/src/host.rs: the task of `start`, with `handle_connection`
--   Host/Hosted         lantun-core/src/host.rs: a tunnel and its task over the map they share
--   Host/Task           the task of `start` with the forwarders that it awaits, the stop flag and
--                       the endpoint, as one step relation
--   Client              lantun-core/src/client.rs: `ClientState`, `ClientTunnel` and its methods
--   Client/Listener     lantun-core/src/client.rs: the task of `connect`, for TCP and for UDP
--   Client/Task         that task with the forwarders it awaits and the stop flag, as one step
--                       relation; a `select!` is biased, so that a set flag comes first
--   Tunnel              lantun-core/src/common.rs: the trait `TunnelCommon` and its two
--                       implementations
--   Link                a client tunnel connected with its host tunnel: the two tasks, and the
--                       streams and the messages on the way between them, with the number of
--                       streams that the host can see
--   Cli/Config          lantun-cli/src/config.rs: the configuration, its file, and `create_state`
--   Cli/Commands        lantun-cli/src/main.rs: the four commands; Cli/Edits says what they mean
--                       for the configuration, Cli/Effects and Cli/Files what they leave in
--                       the file, and Cli/Failing what on a disk whose calls fail
--   Cli/Starting        lantun-cli/src/main.rs without a command: all tunnels are started
--   Tests               the theorems at concrete inputs, and runs
--
-- State is a record, and a method returns the new record beside its result, which is a value, an
-- error or a panic (`Outcome`). A method that panics half-way returns the state that it leaves.
-- What the program awaits from outside (connections, reads, timers, the scheduler, the results of
-- system calls) is an argument or an event, so that a theorem over all events holds for all of its
-- behaviours; the branch of a `tokio::select!` that completes is such an event. The two tasks of a
-- session run in any interleaving (`Run`); a write is taken together with the store before it, so
-- that a task that waits in a write, where it sees neither the stop flag nor its timer, is not a
-- state of the model, and what is said of an end is said of tasks that do not wait there. The
-- forwarders, the servers and the listeners are loops without an end of their own: they are run
-- over lists of events or turns of any length, and no fuel is needed.
--
-- Numbers are not bounded: they are seconds, counts and bytes, on which the code computes only
-- `saturating_sub`, which is `-` on the natural numbers. Texts are their code points. A map lists
-- its entries in the order of iteration, which is any; what a start of all tunnels meets may depend
-- on that order.
--
-- Parameters: the keys, endpoints and connections of iroh (`Runtime`), the watch channel's `send`
-- (`Send`), the codecs hex, toml and bincode, and the Unicode tables above ASCII (`NonAscii`).
-- Their documented laws are the records `IsRuntime`, `IsWatch`, `IsCodecs`, `IsPacketCodec` (of
-- bincode, for the control messages: it writes of an address its kind, IP and port, but not the
-- flow and the scope of an IPv6 one) and `IsUnicode`. The streams of a connection are accepted in
-- the order in which they were opened, each once something was written to it or to a later one,
-- and a stream keeps the order of its bytes, as QUIC has it.
--
-- Client/Task, Host/Task and Link follow a session to the point where it is joined: a task that is
-- left running there, since the other one panicked, is looked at in Forward/Detached, and the
-- receiver that it keeps of the stop channel in Client/Lifecycle.
--
-- Not modelled: logging, the arguments' parsing by clap, the default path of the configuration
-- file, the clock, whose readings are arguments, and the drawing of new keys, which are arguments
-- too.
pub mod Base
pub mod Map
pub mod Protocol
pub mod Addr
pub mod Forward
pub mod Net
pub mod Runtime
pub mod Connections
pub mod Host
pub mod Link
pub mod Packets
pub mod Client
pub mod Tunnel
pub mod Cli
pub mod Tests
