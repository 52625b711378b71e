-- ===== src/Net/Tcp.antt =====
-- The four loops of lantun-core/src/net/tcp.rs.
pub mod Observed
use lantun.Base.{
  ℕ, ◌≡◌, refl, ◌∙◌, inl, Bool, Option, none, some, Bytes, length, ◌==◌, nat_eq, if◌then◌else◌,
  arith,
}
use lantun.Forward.{
  Flow, finished, closed, Wake, stop_changed, received, slept, on_stop, on_sleep, deliver,
}
use lantun.Forward.Loop.{Loop, IsLoop}

-- A read from the tunnel (tcp.rs, the second branch of the first loop).
abbrev pub read_tunnel : Option Bytes → Bool → ℕ → Flow → Flow
read_tunnel none written now f = record f { phase = finished closed }
read_tunnel (some chunk) written now f =
    if length chunk == 0 then record f { phase = finished closed } else deliver chunk written now f

-- A read from a stream or a connected socket, where no bytes are the end.
abbrev pub read_socket : Bytes → Bool → ℕ → Flow → Flow
read_socket chunk written now f =
    if length chunk == 0 then record f { phase = finished closed } else deliver chunk written now f

unfoldable pub tunnel_to_tcp_host : Wake (Option Bytes) → ℕ → Flow → Flow
tunnel_to_tcp_host (stop_changed stop) now f = on_stop stop f
tunnel_to_tcp_host (received n written) now f = read_tunnel n written now f
tunnel_to_tcp_host slept now f = on_sleep now f

unfoldable pub tcp_to_tunnel_host : Wake Bytes → ℕ → Flow → Flow
tcp_to_tunnel_host (stop_changed stop) now f = on_stop stop f
tcp_to_tunnel_host (received chunk written) now f = read_socket chunk written now f
tcp_to_tunnel_host slept now f = on_sleep now f

unfoldable pub tunnel_to_tcp_client : Wake (Option Bytes) → ℕ → Flow → Flow
tunnel_to_tcp_client (stop_changed stop) now f = on_stop stop f
tunnel_to_tcp_client (received n written) now f = read_tunnel n written now f
tunnel_to_tcp_client slept now f = on_sleep now f

unfoldable pub tcp_to_tunnel_client : Wake Bytes → ℕ → Flow → Flow
tcp_to_tunnel_client (stop_changed stop) now f = on_stop stop f
tcp_to_tunnel_client (received chunk written) now f = read_socket chunk written now f
tcp_to_tunnel_client slept now f = on_sleep now f

-- What is to be forwarded: every read that has bytes.
abbrev pub bytes_of : Bytes → Option Bytes
bytes_of chunk = if length chunk == 0 then none else some chunk

abbrev pub bytes_of_tunnel : Option Bytes → Option Bytes
bytes_of_tunnel none = none
bytes_of_tunnel (some chunk) = bytes_of chunk

abbrev pub host_reader : Loop (Option Bytes)
host_reader = record { wake = tunnel_to_tcp_host; payload = bytes_of_tunnel }

abbrev pub host_writer : Loop Bytes
host_writer = record { wake = tcp_to_tunnel_host; payload = bytes_of }

abbrev pub client_reader : Loop (Option Bytes)
client_reader = record { wake = tunnel_to_tcp_client; payload = bytes_of_tunnel }

abbrev pub client_writer : Loop Bytes
client_writer = record { wake = tcp_to_tunnel_client; payload = bytes_of }

read_tunnel-forwards :
    (n : Option Bytes) (written : Bool) (now : ℕ) (f : Flow) (chunk : Bytes)
    → bytes_of_tunnel n ≡ some chunk
    → read_tunnel n written now f ≡ deliver chunk written now f
read_tunnel-forwards none written now f chunk e = cc
read_tunnel-forwards (some c) written now f chunk e = ground arith

read_tunnel-drops :
    (n : Option Bytes) (written : Bool) (now : ℕ) (f : Flow)
    → bytes_of_tunnel n ≡ none
    → read_tunnel n written now f ≡ record f { phase = finished closed }
read_tunnel-drops none written now f e = refl
read_tunnel-drops (some c) written now f e = ground arith

-- The laws of a loop that reads the tunnel, and of one that reads a stream or a connected socket.
pub reads_tunnel-IsLoop :
    (wake : Wake (Option Bytes) → ℕ → Flow → Flow)
    → ((stop : Bool) (now : ℕ) (f : Flow) → wake (stop_changed stop) now f ≡ on_stop stop f)
    → ((now : ℕ) (f : Flow) → wake slept now f ≡ on_sleep now f)
    → ((n : Option Bytes) (written : Bool) (now : ℕ) (f : Flow)
        → wake (received n written) now f ≡ read_tunnel n written now f)
    → IsLoop (record { wake = wake; payload = bytes_of_tunnel })
reads_tunnel-IsLoop wake stops sleeps reads = record {
  obeys_stop = stops;
  checks_idle = sleeps;
  forwards = λ n written now f chunk e.
      reads n written now f ∙ read_tunnel-forwards n written now f chunk e;
  drops = λ n written now f e. inl (reads n written now f ∙ read_tunnel-drops n written now f e);
}

pub reads_socket-IsLoop :
    (wake : Wake Bytes → ℕ → Flow → Flow)
    → ((stop : Bool) (now : ℕ) (f : Flow) → wake (stop_changed stop) now f ≡ on_stop stop f)
    → ((now : ℕ) (f : Flow) → wake slept now f ≡ on_sleep now f)
    → ((c : Bytes) (written : Bool) (now : ℕ) (f : Flow)
        → wake (received c written) now f ≡ read_socket c written now f)
    → IsLoop (record { wake = wake; payload = bytes_of })
reads_socket-IsLoop wake stops sleeps reads = record {
  obeys_stop = stops;
  checks_idle = sleeps;
  forwards = λ c written now f chunk e.
      reads c written now f ∙ read_tunnel-forwards (some c) written now f chunk e;
  drops =
      λ c written now f e. inl (reads c written now f ∙ read_tunnel-drops (some c) written now f e);
}

-- The four TCP loops meet IsLoop.
pub tcp-IsLoop :
    IsLoop host_reader × IsLoop host_writer × IsLoop client_reader × IsLoop client_writer
unfolding tunnel_to_tcp_host tcp_to_tunnel_host tunnel_to_tcp_client tcp_to_tunnel_client
tcp-IsLoop = (
  reads_tunnel-IsLoop _ (λ b now f. refl) (λ now f. refl) (λ n w now f. refl),
  reads_socket-IsLoop _ (λ b now f. refl) (λ now f. refl) (λ c w now f. refl),
  reads_tunnel-IsLoop _ (λ b now f. refl) (λ now f. refl) (λ n w now f. refl),
  reads_socket-IsLoop _ (λ b now f. refl) (λ now f. refl) (λ c w now f. refl),
)
