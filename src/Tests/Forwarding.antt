-- ===== src/Tests/Forwarding.antt =====
-- The theorems on forwarders at concrete sessions (net/tcp.rs, net/udp.rs).
use lantun.Net.Udp.Datagrams.{Datagram, buffered}
use lantun.Forward.Detached.{detached-Run, rounds}
use lantun.Forward.Ending.{Run-ending, turns_left}
use lantun.Net.Tcp.{tcp-IsLoop}
use lantun.Tests.Toy.{app}
use lantun.Addr.{v4, addr_eq}
use lantun.Net.Udp.{udp-IsLoop, Peek}
use lantun.Forward.{selecting, received, slept, timed_out, arming, finished, on_sleep, timeout_of}
use lantun.Forward.Delivery.{Run-sent, from_socket, from_tunnel}
use lantun.Net.Udp.Foreign.{Steps-IsHeld, IsHeld, QueuedSession, Steps-IsHeld}
use lantun.Base.{
  false, arith, some, true, inl, ◌≤◌, none, refl, ◌≡◌, Option, [], nat_eq, ◌+◌, ◌∷◌, Bytes, List,
  length,
}
use lantun.Forward.Loop.{IsLoop}
use lantun.Forward.Idle.{Run-last_active, Run-timed_out, TunnelExpired, activity}
use lantun.Net.Tcp
use lantun.Net.Udp
use lantun.Net.Udp.Foreign
use lantun.Forward.Session.{
  join_error, wake_socket, wake_tunnel, arm_socket, arm_tunnel, Turn, Session, joined, start, step,
  Run, next, done,
}

abbrev hello : Bytes
hello = 104 ∷ 105 ∷ []

-- The tunnel brings two bytes, the socket answers with one, and then both wait until they time out.
abbrev talk : List (Turn (Option Bytes) Bytes)
talk =
    arm_tunnel 100
    ∷ arm_socket 100
    ∷ wake_tunnel 105 (received (some hello) true)
    ∷ wake_socket 106 (received (7 ∷ []) true)
    ∷ []

abbrev silence : List (Turn (Option Bytes) Bytes)
silence = arm_tunnel 110 ∷ arm_socket 110 ∷ wake_tunnel 126 slept ∷ wake_socket 126 slept ∷ []

abbrev spoken : Session
spoken = record {
  tunnel = record { phase = arming; sent = hello ∷ [] };
  socket = record { phase = arming; sent = (7 ∷ []) ∷ [] };
  last_active = 106;
}

abbrev over : Session
over = record {
  tunnel = record { phase = finished timed_out; sent = hello ∷ [] };
  socket = record { phase = finished timed_out; sent = (7 ∷ []) ∷ [] };
  last_active = 106;
}

talk-Run : Run Tcp.host_reader Tcp.host_writer (start 100) talk spoken
unfolding start step Tcp.tunnel_to_tcp_host Tcp.tcp_to_tunnel_host timeout_of nat_eq
talk-Run = next refl (next refl (next (20, refl) (next (20, refl) done)))

silence-Run : Run Tcp.host_reader Tcp.host_writer spoken silence over
unfolding step Tcp.tunnel_to_tcp_host Tcp.tcp_to_tunnel_host timeout_of on_sleep nat_eq
silence-Run = next refl (next refl (next (16, refl) (next (16, refl) done)))

Run-sent_example : (spoken.tunnel.sent ≡ hello ∷ []) × (spoken.socket.sent ≡ (7 ∷ []) ∷ [])
unfolding start from_tunnel from_socket nat_eq
Run-sent_example = Run-sent Tcp.host_reader Tcp.host_writer tcp-IsLoop.0 tcp-IsLoop.1 talk-Run

Run-last_active_example : spoken.last_active ≡ 106
unfolding start activity nat_eq
Run-last_active_example =
    Run-last_active Tcp.host_reader Tcp.host_writer tcp-IsLoop.0 tcp-IsLoop.1 talk-Run

Run-timed_out_example : TunnelExpired Tcp.host_reader Tcp.host_writer 106 silence
Run-timed_out_example =
    Run-timed_out Tcp.host_reader Tcp.host_writer tcp-IsLoop.0 tcp-IsLoop.1 silence-Run (λ p. cc)
      refl

Run-ending_example :
    (length silence + turns_left over ≡ turns_left spoken) × (turns_left spoken ≤ 4)
Run-ending_example =
    Run-ending Tcp.host_reader Tcp.host_writer tcp-IsLoop.0 tcp-IsLoop.1 silence-Run (omega arith)

-- A datagram of another application stands at the head of the queue, and one of the own application
-- behind it; both tasks are at the heads of their loops.
abbrev stranger : Datagram
stranger = record { from = v4 2130706433 6000; content = 1 ∷ [] }

abbrev stranger_peek : Peek
stranger_peek = record { seen = 1 ∷ []; from = v4 2130706433 6000; taken = none }

abbrev own_datagram : Datagram
own_datagram = record { from = app; content = 2 ∷ [] }

abbrev stuck : QueuedSession
stuck = record { session = start 100; queue = stranger ∷ [] }

abbrev still_stuck : QueuedSession
still_stuck = record { session = start 100; queue = stranger ∷ own_datagram ∷ [] }

stuck-Steps : Foreign.Steps Udp.client_reader app stuck still_stuck
unfolding start step Udp.udp_to_tunnel_client timeout_of addr_eq buffered nat_eq
stuck-Steps = Foreign.next (Foreign.goes_on _ (arm_socket 100) refl (λ x. x)) (
    Foreign.next (Foreign.wakes _ 200 (received stranger_peek true) (20, refl) (refl, refl))
      (Foreign.next (Foreign.arrives _ own_datagram) Foreign.here))

Steps-IsHeld_example : IsHeld stranger [] still_stuck
unfolding start
Steps-IsHeld_example =
    Steps-IsHeld Udp.client_reader app stranger (λ p. ground arith) [] stuck-Steps
      (record { place = inl refl; silent = refl; first = ([], refl) })

udp-IsLoop_example :
    IsLoop Udp.host_reader
    × IsLoop Udp.host_writer
    × IsLoop Udp.client_reader
    × IsLoop (Udp.client_writer app)
udp-IsLoop_example = udp-IsLoop app

-- The tunnel task waits, the socket task is at the head of its loop.
abbrev half : Session
half = record {
  tunnel = record { phase = selecting 20; sent = [] };
  socket = record { phase = arming; sent = [] };
  last_active = 100;
}

detached-Run_example :
    (u : Session) × Run Tcp.host_reader Tcp.host_writer half
      (wake_tunnel 101 (received (some hello) false)
        ∷ rounds Tcp.host_reader Tcp.host_writer tcp-IsLoop.0 tcp-IsLoop.1 101
            ((hello, hello) ∷ []))
      u
    × (joined (
          step Tcp.host_reader Tcp.host_writer (wake_tunnel 101 (received (some hello) false)) half)
        ≡ join_error)
    × (u.socket.phase ≡ arming)
    × (u.socket.sent ≡ hello ∷ [])
unfolding nat_eq
detached-Run_example =
    detached-Run Tcp.host_reader Tcp.host_writer tcp-IsLoop.0 tcp-IsLoop.1 half 20 101 (some hello)
      hello ((hello, hello) ∷ []) refl refl refl (refl, tt)
