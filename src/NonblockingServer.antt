-- ===== src/NonblockingServer.antt =====
-- linux-process-lab/06-network/04-nonblocking/server.c: the poll loop that accepts one client per
-- round and echoes. The slots are the entries 1 to 100 of `fds`, the newest call stands first in the
-- list of calls, and of what the server prints nothing is modelled.
pub mod Balance
mod Tests
use cs_lab.Base.{
  ℕ, zero, suc, ◌+◌, ◌-◌, Bool, true, false, Option, none, some, List, [], ◌∷◌, if◌then◌else◌,
}
use cs_lab.Net.{
  Call, opens, closes, sends, Startup, Accepting, connected, nobody, accept_failed, Received,
  data_bytes, nothing_yet, recv_failed, is_faulty, Slot, poll_slots, Progress, goes_on, leaves_loop,
  exits, released, take,
}
use cs_lab.PollServer.{
  Server, Polled, ready, interrupted, poll_failed, Round, register, close_slot, empty_slots,
  max_clients,
}

abbrev pub buffer_size : ℕ
buffer_size = 1024

-- `main` from `bind` on; a failure ends the process with the socket open.
unfoldable pub bind_and_listen : Startup → Progress
bind_and_listen s = if s.bound then if s.listening then goes_on else exits else exits

-- The socket is refused where it is 0; -1 goes on to `bind`. Of `setsockopt` and `set_nonblocking`
-- the results are not used.
unfoldable pub open_socket : Startup → Option ℕ → Progress × List Call
open_socket s none = (bind_and_listen s, [])
open_socket s (some zero) = (exits, opens 0 ∷ [])
open_socket s (some (suc fd)) = (bind_and_listen s, opens (suc fd) ∷ [])

-- `if (!added)`
unfoldable pub admit : ℕ → Server → Option (List Slot) → Server
admit client st none = record st { calls = closes client ∷ st.calls }
admit client st (some slots) = record st { slots = slots }

-- The one `accept` of a round. `set_nonblocking` may fail without effect on the rest.
unfoldable pub accept_client : Accepting → Server → Server
accept_client nobody st = st
accept_client accept_failed st = st
accept_client (connected client f) st =
    admit client (record st { calls = opens client ∷ st.calls }) (register client st.slots)

-- `recv` of at most 1023 bytes returned `bytes_read > 0` or 0.
unfoldable pub echo : ℕ → Slot → List ℕ → List Call → Slot × List Call
echo fd s [] calls = (released s, closes fd ∷ calls)
echo fd s (b ∷ more) calls = (s, sends fd (b ∷ more) ∷ calls)

unfoldable pub read_client : ℕ → Slot → Received → List Call → Slot × List Call
read_client fd s (data_bytes bytes) calls = echo fd s (take (buffer_size - 1) bytes) calls
read_client fd s nothing_yet calls = (s, calls)
read_client fd s recv_failed calls = (released s, closes fd ∷ calls)

-- The test of POLLHUP, POLLERR and POLLNVAL; `close` gets what `fds[i].fd` is by then.
unfoldable pub check_errors : Slot × List Call → Slot × List Call
check_errors (s, calls) =
    if is_faulty s.revents then (released s, close_slot s.fd calls) else (s, calls)

unfoldable pub handle_slot : Option ℕ → Slot → Received → List Call → Slot × List Call
handle_slot none s r calls = (s, calls)
handle_slot (some fd) s r calls =
    check_errors (if s.revents.pollin then read_client fd s r calls else (s, calls))

unfoldable pub handle_slots : (ℕ → Received) → ℕ → List Slot → List Call → List Slot × List Call
handle_slots recvs i [] calls = ([], calls)
handle_slots recvs i (s ∷ rest) calls =
    let (s', calls') = handle_slot s.fd s (recvs i) calls in
    let (rest', calls'') = handle_slots recvs (i + 1) rest calls' in (s' ∷ rest', calls'')

unfoldable pub serve_clients : (ℕ → Received) → Server → Server
serve_clients recvs st =
    let (slots, calls) = handle_slots recvs 1 st.slots st.calls in
    record { slots = slots; calls = calls }

-- `if (fds[0].revents & POLLIN)`. Of `accepts` the first result is used.
unfoldable pub accept_one : Bool → List Accepting → Server → Server
accept_one true [] st = st
accept_one true (a ∷ later) st = accept_client a st
accept_one false accepts st = st

-- Every failure of `poll`, an interrupted call too, ends the loop.
unfoldable pub after_poll : Round → Polled → Server → Progress × Server
after_poll r interrupted st = (leaves_loop, st)
after_poll r poll_failed st = (leaves_loop, st)
after_poll r ready st = (
  goes_on,
  serve_clients r.recvs
      (accept_one r.incoming r.accepts (record st { slots = poll_slots r.revents 1 st.slots })),
)

unfoldable pub next_round : (Server → Progress × Server) → Progress × Server → Progress × Server
next_round later (goes_on, st) = later st
next_round later (leaves_loop, st) = (leaves_loop, st)
next_round later (exits, st) = (exits, st)

unfoldable pub serve : List Round → Server → Progress × Server
serve [] st = (goes_on, st)
serve (r ∷ rounds) st = next_round (serve rounds) (after_poll r r.polled st)

-- Behind the loop `main` closes the listening socket.
unfoldable pub close_listener : Option ℕ → Progress × Server → Progress × Server
close_listener fd (goes_on, st) = (goes_on, st)
close_listener fd (leaves_loop, st) = (leaves_loop, record st { calls = close_slot fd st.calls })
close_listener fd (exits, st) = (exits, st)

unfoldable pub run_server : Option ℕ → Bool → List Round → Progress × List Call → Progress × Server
run_server fd stack rounds (goes_on, calls) =
    close_listener fd
      (serve rounds (record { slots = empty_slots max_clients stack; calls = calls }))
run_server fd stack rounds (leaves_loop, calls) =
    (leaves_loop, record { slots = []; calls = calls })
run_server fd stack rounds (exits, calls) = (exits, record { slots = []; calls = calls })

unfoldable pub main : Startup → Bool → List Round → Progress × Server
main s stack rounds = run_server s.socket stack rounds (open_socket s s.socket)
