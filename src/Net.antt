-- ===== src/Net.antt =====
-- What the event-driven servers of linux-process-lab/06-network share: the results of their system
-- calls, the calls that a client or the kernel notices, and poll's array. The results come in from
-- outside, as POSIX.1 describes them; a descriptor -1 is `none`.
pub mod Counts
pub mod Program
pub mod Stream
use cs_lab.Base.{
  ℕ, zero, suc, ◌+◌, Bool, true, false, ◌&&◌, ◌||◌, Option, none, some, List, [], ◌∷◌, ◌==◌,
  if◌then◌else◌,
}

-- A call with an effect; `shuts` is `shutdown(fd, SHUT_WR)`. `close(-1)` has none.
pub data Call : Type 0 where
  opens : ℕ → Call
  closes : ℕ → Call
  sends : ℕ → List ℕ → Call
  shuts : ℕ → Call

-- What the two calls of `fcntl` in `set_nonblocking` return: the flags, and whether they were set.
pub record Fcntl : Type 0 where
  pub flags : Option ℕ
  pub set : Bool

-- What `socket`, `setsockopt`, `bind`, `listen` and `fcntl` return at the start.
pub record Startup : Type 0 where
  pub socket : Option ℕ
  pub options : Bool
  pub bound : Bool
  pub listening : Bool
  pub nonblocking : Fcntl

-- What `accept` returns, and the calls of `fcntl` on the new descriptor.
pub data Accepting : Type 0 where
  connected : ℕ → Fcntl → Accepting
  nobody : Accepting
  accept_failed : Accepting

-- What `recv` returns: bytes, of which there are none at the end of the stream; EAGAIN; an error.
pub data Received : Type 0 where
  data_bytes : List ℕ → Received
  nothing_yet : Received
  recv_failed : Received

-- `revents`
pub record Revents : Type 0 where
  pub pollin : Bool
  pub pollerr : Bool
  pub pollhup : Bool
  pub pollnval : Bool

abbrev pub quiet : Revents
quiet = record { pollin = false; pollerr = false; pollhup = false; pollnval = false }

-- `revents & (POLLERR | POLLHUP | POLLNVAL)`
abbrev pub is_faulty : Revents → Bool
is_faulty e = e.pollerr || e.pollhup || e.pollnval

-- `struct pollfd`; of `events` the bit POLLIN is used.
pub record Slot : Type 0 where
  pub fd : Option ℕ
  pub events : Bool
  pub revents : Revents

-- What poll stores: nothing for a negative descriptor, and POLLIN only where it was asked for.
unfoldable pub reported : Option ℕ → Bool → Revents → Revents
reported none asked e = quiet
reported (some fd) asked e = record e { pollin = asked && e.pollin }

unfoldable pub poll_slots : (ℕ → Revents) → ℕ → List Slot → List Slot
poll_slots ready i [] = []
poll_slots ready i (s ∷ rest) =
    record s { revents = reported s.fd s.events (ready i) } ∷ poll_slots ready (i + 1) rest

-- How a server goes on after a step: with the next one, behind its loop, or not at all (`exit`).
pub data Progress : Type 0 where
  goes_on : Progress
  leaves_loop : Progress
  exits : Progress

-- `fds[i].fd = -1`
abbrev pub released : Slot → Slot
released s = record s { fd = none }

-- The first `n` elements.
unfoldable pub take : ℕ → List ℕ → List ℕ
take zero xs = []
take (suc n) [] = []
take (suc n) (x ∷ xs) = x ∷ take n xs
