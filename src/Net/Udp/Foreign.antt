-- ===== src/Net/Udp/Foreign.antt =====
-- net/udp.rs, `bi_udp_client`: a datagram of another application at the head of the socket's queue.
use mathlib.Core.Path.{subst}
use lantun.Net.Udp.{client_writer, udp_to_tunnel_client, Peek}
use lantun.Addr.{addr_eq, SocketAddr}
use lantun.Net.Udp.Datagrams.{buffered, Datagram}
use lantun.Forward.{
  timeout_of, stopped, finished, selecting, slept, arming, received, stop_changed, Wake,
}
use lantun.Forward.Session.{
  arm_socket, wake_tunnel, arm_tunnel, Enabled, step, wake_socket, Session, Turn,
}
use lantun.Forward.Loop.{Loop}
use lantun.Base.{
  false, true, arith, inl, inr, ap, ℕ, ◌==◌, ◌⊎◌, [], if◌then◌else◌, none, some, ◌∷◌, ◌≡◌, Bytes,
  List, ◌++◌, ◌≢◌, Option, refl,
}

-- A session of a client with the queue of its socket, the next datagram first.
pub record QueuedSession : Type 0 where
  pub session : Session
  pub queue : List Datagram

-- The branch that the `select!` takes, which is `biased`: the stop channel comes first, then a peek,
-- which is ready if the queue is not empty, and only then the timer. A peek at a datagram does not
-- fail.
abbrev pub IsChosen : Wake Peek → List Datagram → Type 0
IsChosen (stop_changed stop) queue = Unit
IsChosen (received p written) [] = ⊥
IsChosen (received p written) (d ∷ queue) = (p.from ≡ d.from) × (p.seen ≡ buffered d.content)
IsChosen slept queue = queue ≡ []

-- `recv` takes the datagram off the queue, `peek_from` does not.
abbrev pub taken_off : Option Bytes → List Datagram → List Datagram
taken_off none queue = queue
taken_off (some b) [] = []
taken_off (some b) (d ∷ queue) = queue

abbrev pub left_over : SocketAddr → Wake Peek → List Datagram → List Datagram
left_over addr (received p written) queue =
    if p.from == addr then taken_off p.taken queue else queue
left_over addr _ queue = queue

abbrev pub IsSocketWake : {A : Type 0} → Turn A Peek → Type 0
IsSocketWake (wake_socket now w) = Unit
IsSocketWake _ = ⊥

module _ {A : Type 0} (reader : Loop A) (addr : SocketAddr) where
  pub data Step : QueuedSession → QueuedSession → Type 0 where
    arrives : (s : QueuedSession) (d : Datagram) → Step s (record s { queue = s.queue ++ (d ∷ []) })
    goes_on :
        (s : QueuedSession) (t : Turn A Peek)
        → Enabled t s.session
        → ¬ IsSocketWake t
        → Step s (record s { session = step reader (client_writer addr) t s.session })
    wakes :
        (s : QueuedSession) (now : ℕ) (w : Wake Peek)
        → Enabled {A = A} (wake_socket now w) s.session
        → IsChosen w s.queue
        → Step s (record {
          session = step reader (client_writer addr) (wake_socket now w) s.session;
          queue = left_over addr w s.queue;
        })

  pub data Steps : QueuedSession → QueuedSession → Type 0 where
    here : {s : QueuedSession} → Steps s s
    next : {s t u : QueuedSession} → Step s t → Steps t u → Steps s u

-- The socket task is in its loop, or was stopped; it has written `sent`; and the datagram is still
-- the first.
pub record IsHeld (d : Datagram) (sent : List Bytes) (s : QueuedSession) : Type 0 where
  pub place :
      (s.session.socket.phase ≡ arming)
      ⊎ (((t : ℕ) × (s.session.socket.phase ≡ selecting t))
          ⊎ (s.session.socket.phase ≡ finished stopped))
  pub silent : s.session.socket.sent ≡ sent
  pub first : (queue : List Datagram) × (s.queue ≡ d ∷ queue)

module _ {A : Type 0} (reader : Loop A) (addr : SocketAddr) (d : Datagram) (foreign : d.from ≢ addr)
    (sent : List Bytes) where
  goes_on-IsHeld :
      (s : QueuedSession) (t : Turn A Peek)
      → Enabled t s.session
      → ¬ IsSocketWake t
      → IsHeld d sent s
      → IsHeld d sent (record s { session = step reader (client_writer addr) t s.session })
  unfolding step
  goes_on-IsHeld s (arm_tunnel now) en n h = record {
    place = h.place;
    silent = h.silent;
    first = h.first;
  }
  goes_on-IsHeld s (wake_tunnel now w) en n h = record {
    place = h.place;
    silent = h.silent;
    first = h.first;
  }
  goes_on-IsHeld s (arm_socket now) en n h = record {
    place = inr (inl (timeout_of now s.session.last_active, refl));
    silent = h.silent;
    first = h.first;
  }
  goes_on-IsHeld s (wake_socket now w) en n h = absurd (n tt)

  wakes-IsHeld :
      (s : QueuedSession) (now : ℕ) (w : Wake Peek) (queue : List Datagram)
      → s.queue ≡ d ∷ queue
      → IsChosen w (d ∷ queue)
      → s.session.socket.sent ≡ sent
      → IsHeld d sent (record {
        session = step reader (client_writer addr) (wake_socket now w) s.session;
        queue = left_over addr w s.queue;
      })
  unfolding step udp_to_tunnel_client
  wakes-IsHeld s now (stop_changed true) queue e c same = record {
    place = inr (inr refl);
    silent = same;
    first = (queue, e);
  }
  wakes-IsHeld s now (stop_changed false) queue e c same = record {
    place = inl refl;
    silent = same;
    first = (queue, e);
  }
  wakes-IsHeld s now (received p written) queue e (from, seen) same = record {
    place = inl (ground arith);
    silent = ground arith;
    first = (queue, ground arith);
  }
  wakes-IsHeld s now slept queue e c same = cc

  Step-IsHeld : {s u : QueuedSession} → Step reader addr s u → IsHeld d sent s → IsHeld d sent u
  Step-IsHeld (arrives s e) h = record {
    place = h.place;
    silent = h.silent;
    first = (h.first.0 ++ (e ∷ []), ap (λ q. q ++ (e ∷ [])) h.first.1);
  }
  Step-IsHeld (goes_on s t en n) h = goes_on-IsHeld s t en n h
  Step-IsHeld (wakes s now w en c) h =
      wakes-IsHeld s now w h.first.0 h.first.1 (subst (IsChosen w) h.first.1 c) h.silent

  -- If a datagram of another application is the first in the queue of the socket of a client's UDP
  -- session, whose socket task is in its loop and has written some bytes, then after any steps of
  -- the two tasks and any arrivals, in which select! is biased and a peek at a datagram does not
  -- fail, it is still the first, the socket task is in its loop or was stopped by the flag, and it
  -- has written nothing more. It is not closed and does not time out.
  pub Steps-IsHeld :
      {s u : QueuedSession} → Steps reader addr s u → IsHeld d sent s → IsHeld d sent u
  Steps-IsHeld here h = h
  Steps-IsHeld (next st more) h = Steps-IsHeld more (Step-IsHeld st h)
