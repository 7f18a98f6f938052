-- ===== src/PollServer.antt =====
-- linux-process-lab/06-network/05-poll/server.c: a poll loop over one listening socket and 100
-- client slots, the entries 1 to 100 of `fds`. Of what the server prints nothing is modelled. The
-- newest call stands first in the list of calls.
pub mod Balance
pub mod Closings
pub mod Main
pub mod Orderly
pub mod Rounds
pub mod Registration
mod Tests
use cs_lab.Base.{
  ℕ, zero, suc, ◌+◌, ◌-◌, Bool, ◌&&◌, is_some, true, false, Option, none, some, List, [], ◌∷◌,
  if◌then◌else◌,
}
use cs_lab.Net.{
  Call, opens, closes, sends, Startup, Fcntl, Accepting, connected, nobody, accept_failed, Received,
  data_bytes, nothing_yet, recv_failed, Revents, quiet, is_faulty, Slot, poll_slots, Progress,
  goes_on, leaves_loop, exits, released, take,
}

abbrev pub max_clients : ℕ
max_clients = 100

abbrev pub buf_size : ℕ
buf_size = 1024

-- The bytes of "echo from poll server"
abbrev pub response : List ℕ
response =
    101 ∷ 99 ∷ 104 ∷ 111 ∷ 32 ∷ 102 ∷ 114 ∷ 111 ∷ 109 ∷ 32 ∷ 112 ∷ 111 ∷ 108 ∷ 108 ∷ 32 ∷ 115 ∷ 101
    ∷ 114 ∷ 118 ∷ 101 ∷ 114 ∷ []

-- `set_nonblocking`: false where it ends the process
unfoldable pub set_nonblocking : Fcntl → Bool
set_nonblocking f = is_some f.flags && f.set

pub record Server : Type 0 where
  pub slots : List Slot
  pub calls : List Call

-- `main` up to `set_nonblocking(server_fd)`: the listening socket if the process goes on
unfoldable pub configure : Startup → ℕ → Option ℕ × List Call
configure s fd =
    let failed : Option ℕ × List Call = (none, closes fd ∷ opens fd ∷ []) in
    if s.options
    then if s.bound
      then if s.listening
        then if set_nonblocking s.nonblocking
          then (some fd, opens fd ∷ [])
          else (none, opens fd ∷ [])
        else failed
      else failed
    else failed

unfoldable pub open_socket : Startup → Option ℕ → Option ℕ × List Call
open_socket s none = (none, [])
open_socket s (some fd) = configure s fd

-- The client slots with -1 in every `fd`; what else they hold is not initialised.
unfoldable pub empty_slots : ℕ → Bool → List Slot
empty_slots zero stack = []
empty_slots (suc n) stack =
    record { fd = none; events = stack; revents = quiet } ∷ empty_slots n stack

-- The search for a free slot, which takes the client.
unfoldable pub register_at :
    ℕ → Option ℕ → Slot → Option (List Slot) → List Slot → Option (List Slot)
register_at client none s later rest = some (record s { fd = some client; events = true } ∷ rest)
register_at client (some fd) s none rest = none
register_at client (some fd) s (some later) rest = some (s ∷ later)

unfoldable pub register : ℕ → List Slot → Option (List Slot)
register client [] = none
register client (s ∷ rest) = register_at client s.fd s (register client rest) rest

-- `if (!added)`
unfoldable pub admit : ℕ → Server → Option (List Slot) → Server
admit client st none = record st { calls = closes client ∷ st.calls }
admit client st (some slots) = record st { slots = slots }

unfoldable pub add_client : ℕ → Server → Server
add_client client st =
    admit client (record st { calls = opens client ∷ st.calls }) (register client st.slots)

-- `set_nonblocking(client_fd)` and what follows it, with the server if the process goes on.
unfoldable pub made_nonblocking : Bool → (later : Progress × Server) → Server → Progress × Server
made_nonblocking true later st = later
made_nonblocking false later st = (exits, st)

-- The loop of `accept`; the list holds the results, and ends with EAGAIN.
unfoldable pub accept_all : List Accepting → Server → Progress × Server
accept_all [] st = (goes_on, st)
accept_all (nobody ∷ later) st = (goes_on, st)
accept_all (accept_failed ∷ later) st = (goes_on, st)
accept_all (connected client f ∷ later) st =
    made_nonblocking (set_nonblocking f) (accept_all later (add_client client st))
      (record st { calls = opens client ∷ st.calls })

-- `recv` of at most 1023 bytes returned `n > 0` or 0.
unfoldable pub answer : ℕ → Slot → List ℕ → List Call → Slot × List Call
answer fd s [] calls = (released s, closes fd ∷ calls)
answer fd s (b ∷ more) calls = (s, sends fd response ∷ calls)

unfoldable pub read_client : ℕ → Slot → Received → List Call → Slot × List Call
read_client fd s (data_bytes bytes) calls = answer fd s (take (buf_size - 1) bytes) calls
read_client fd s nothing_yet calls = (s, calls)
read_client fd s recv_failed calls = (released s, closes fd ∷ calls)

-- The test of POLLERR, POLLHUP and POLLNVAL. `fd` is the local variable.
unfoldable pub check_errors : ℕ → Slot × List Call → Slot × List Call
check_errors fd (s, calls) =
    if is_faulty s.revents then (released s, closes fd ∷ calls) else (s, calls)

unfoldable pub handle_client : ℕ → Slot → Received → List Call → Slot × List Call
handle_client fd s r calls =
    check_errors fd (if s.revents.pollin then read_client fd s r calls else (s, calls))

unfoldable pub handle_slot : Option ℕ → Slot → Received → List Call → Slot × List Call
handle_slot none s r calls = (s, calls)
handle_slot (some fd) s r calls = handle_client fd s r calls

-- The loop over the clients from the slot `i` on, with what `recv` returns for each.
unfoldable pub handle_slots : (ℕ → Received) → ℕ → List Slot → List Call → List Slot × List Call
handle_slots recvs i [] calls = ([], calls)
handle_slots recvs i (s ∷ rest) calls =
    let (s', calls') = handle_slot s.fd s (recvs i) calls in
    let (rest', calls'') = handle_slots recvs (i + 1) rest calls' in (s' ∷ rest', calls'')

pub data Polled : Type 0 where
  ready : Polled
  interrupted : Polled
  poll_failed : Polled

-- What the calls of one round of the main loop return.
pub record Round : Type 0 where
  pub polled : Polled
  pub incoming : Bool
  pub revents : ℕ → Revents
  pub accepts : List Accepting
  pub recvs : ℕ → Received

-- A round behind its accept loop.
unfoldable pub serve_clients : (ℕ → Received) → Progress × Server → Progress × Server
serve_clients recvs (goes_on, st) =
    let (slots, calls) = handle_slots recvs 1 st.slots st.calls in
    (goes_on, record { slots = slots; calls = calls })
serve_clients recvs (leaves_loop, st) = (leaves_loop, st)
serve_clients recvs (exits, st) = (exits, st)

-- `if (fds[0].revents & POLLIN)`
unfoldable pub accept_clients : Bool → List Accepting → Server → Progress × Server
accept_clients true accepts st = accept_all accepts st
accept_clients false accepts st = (goes_on, st)

unfoldable pub after_poll : Round → Polled → Server → Progress × Server
after_poll r interrupted st = (goes_on, st)
after_poll r poll_failed st = (leaves_loop, st)
after_poll r ready st =
    serve_clients r.recvs
      (accept_clients r.incoming r.accepts (record st { slots = poll_slots r.revents 1 st.slots }))

-- The main loop: its rounds until it ends or the list does.
unfoldable pub next_round : (Server → Progress × Server) → Progress × Server → Progress × Server
next_round later (goes_on, st) = later st
next_round later (leaves_loop, st) = (leaves_loop, st)
next_round later (exits, st) = (exits, st)

unfoldable pub serve : List Round → Server → Progress × Server
serve [] st = (goes_on, st)
serve (r ∷ rounds) st = next_round (serve rounds) (after_poll r r.polled st)

-- The loop behind the main loop that closes the clients left.
unfoldable pub close_slot : Option ℕ → List Call → List Call
close_slot none calls = calls
close_slot (some fd) calls = closes fd ∷ calls

unfoldable pub close_slots : List Slot → List Call → List Call
close_slots [] calls = calls
close_slots (s ∷ rest) calls = close_slots rest (close_slot s.fd calls)

-- How `main` ends, if it does, and the calls that it has made.
unfoldable pub clean_up : ℕ → Progress × Server → Progress × List Call
clean_up server_fd (goes_on, st) = (goes_on, st.calls)
clean_up server_fd (leaves_loop, st) =
    (leaves_loop, closes server_fd ∷ close_slots st.slots st.calls)
clean_up server_fd (exits, st) = (exits, st.calls)

unfoldable pub run_server : Bool → List Round → Option ℕ × List Call → Progress × List Call
run_server stack rounds (none, calls) = (exits, calls)
run_server stack rounds (some server_fd, calls) =
    clean_up server_fd
      (serve rounds (record { slots = empty_slots max_clients stack; calls = calls }))

unfoldable pub main : Startup → Bool → List Round → Progress × List Call
main s stack rounds = run_server stack rounds (open_socket s s.socket)
