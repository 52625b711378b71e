-- ===== src/Forward/Loop.antt =====
-- The interface between a loop and the session that runs it: what a loop does at each wake, and
-- the laws that the eight loops share.
use lantun.Base.{ℕ, ◌≡◌, ◌⊎◌, Bool, Option, none, some, Bytes}
use lantun.Forward.{
  Flow, arming, finished, closed, Wake, stop_changed, received, slept, on_stop, on_sleep, deliver,
}

pub record Loop (A : Type 0) : Type 0 where
  -- One round, from the branch that completed to the head of the loop.
  pub wake : Wake A → ℕ → Flow → Flow
  -- What of a read is to be forwarded.
  pub payload : A → Option Bytes

pub record IsLoop {A : Type 0} (l : Loop A) : Type 0 where
  pub obeys_stop :
      (stop : Bool) (now : ℕ) (f : Flow) → l.wake (stop_changed stop) now f ≡ on_stop stop f
  pub checks_idle : (now : ℕ) (f : Flow) → l.wake slept now f ≡ on_sleep now f
  pub forwards :
      (a : A) (written : Bool) (now : ℕ) (f : Flow) (chunk : Bytes)
      → l.payload a ≡ some chunk
      → l.wake (received a written) now f ≡ deliver chunk written now f
  -- A read with nothing to forward ends the loop or is passed over.
  pub drops :
      (a : A) (written : Bool) (now : ℕ) (f : Flow)
      → l.payload a ≡ none
      → (l.wake (received a written) now f ≡ record f { phase = finished closed })
        ⊎ (l.wake (received a written) now f ≡ record f { phase = arming })

abbrev pub map_wake : {A B : Type 0} → (A → B) → Wake A → Wake B
map_wake f (stop_changed stop) = stop_changed stop
map_wake f (received a written) = received (f a) written
map_wake f slept = slept

-- The loop whose reads are `f` of what comes.
abbrev pub reading : {A B : Type 0} → (A → B) → Loop B → Loop A
reading f l = record { wake = λ w. l.wake (map_wake f w); payload = λ a. l.payload (f a) }

pub reading-IsLoop : {A B : Type 0} (f : A → B) (l : Loop B) → IsLoop l → IsLoop (reading f l)
reading-IsLoop f l h = record {
  obeys_stop = h.obeys_stop;
  checks_idle = h.checks_idle;
  forwards = λ a written now g chunk e. h.forwards (f a) written now g chunk e;
  drops = λ a written now g e. h.drops (f a) written now g e;
}
