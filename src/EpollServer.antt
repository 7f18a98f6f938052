-- ===== src/EpollServer.antt =====
-- linux-process-lab/06-network/06-epoll/server.c, and 07-tcp-deep/01-stream/server.c, which is the
-- same file: an echo server on epoll. `watched` is the interest list; the newest call stands first
-- in the list of calls. Of what the server prints nothing is modelled.
pub mod Echo
pub mod Balance
pub mod Main
mod Tests
use cs_lab.Base.{
  ℕ, zero, suc, ◌+◌, ◌-◌, Bool, true, false, ◌&&◌, ◌||◌, not, is_some, Option, none, some, List, [],
  ◌∷◌, ◌==◌, if◌then◌else◌,
}
use cs_lab.Net.{
  Call, opens, closes, sends, Startup, Fcntl, Received, data_bytes, nothing_yet, recv_failed,
  Progress, goes_on, leaves_loop, exits, take,
}
use cs_lab.PollServer.{Polled, ready, interrupted, poll_failed}

abbrev pub buf_size : ℕ
buf_size = 1024

pub record Server : Type 0 where
  pub watched : List ℕ
  pub calls : List Call

-- `set_nonblocking`: false where it ends the process. Its result -1 is not used.
unfoldable pub set_nonblocking : Fcntl → Bool
set_nonblocking f = not (is_some f.flags) || f.set

-- `epoll_ctl(epfd, EPOLL_CTL_DEL, fd, NULL)`
unfoldable pub unwatch : ℕ → List ℕ → List ℕ
unwatch fd [] = []
unwatch fd (w ∷ rest) = if w == fd then rest else w ∷ unwatch fd rest

-- What `accept` returns, `fcntl` for the new descriptor, and whether `epoll_ctl` adds it.
pub data Connecting : Type 0 where
  connection : ℕ → Fcntl → Bool → Connecting
  nobody : Connecting
  accept_failed : Connecting

unfoldable pub add_client : ℕ → Bool → Server → Server
add_client client true st = record {
  watched = client ∷ st.watched;
  calls = opens client ∷ st.calls;
}
add_client client false st = record st { calls = closes client ∷ opens client ∷ st.calls }

unfoldable pub made_nonblocking : Bool → (later : Progress × Server) → Server → Progress × Server
made_nonblocking true later st = later
made_nonblocking false later st = (exits, st)

-- The loop of `accept`; the list ends with EAGAIN.
unfoldable pub accept_all : List Connecting → Server → Progress × Server
accept_all [] st = (goes_on, st)
accept_all (nobody ∷ later) st = (goes_on, st)
accept_all (accept_failed ∷ later) st = (goes_on, st)
accept_all (connection client f added ∷ later) st =
    made_nonblocking (set_nonblocking f) (accept_all later (add_client client added st))
      (record st { calls = opens client ∷ st.calls })

unfoldable pub drop_client : ℕ → Server → Server
drop_client fd st = record { watched = unwatch fd st.watched; calls = closes fd ∷ st.calls }

-- `recv` of at most 1023 bytes returned `n > 0`, and the loop goes on, or 0.
unfoldable pub echo : ℕ → List ℕ → (later : Server → Server) → Server → Server
echo fd [] later st = drop_client fd st
echo fd (b ∷ more) later st = later (record st { calls = sends fd (b ∷ more) ∷ st.calls })

-- The loop of `recv`; the list ends with EAGAIN.
unfoldable pub read_all : ℕ → List Received → Server → Server
read_all fd [] st = st
read_all fd (data_bytes bytes ∷ later) st =
    echo fd (take (buf_size - 1) bytes) (read_all fd later) st
read_all fd (nothing_yet ∷ later) st = st
read_all fd (recv_failed ∷ later) st = drop_client fd st

-- One of `events`, and what `accept` or `recv` returns for it.
pub record Event : Type 0 where
  pub active_fd : ℕ
  pub accepts : List Connecting
  pub recvs : List Received

unfoldable pub handle_event : ℕ → Event → Server → Progress × Server
handle_event server_fd e st =
    if e.active_fd == server_fd
    then accept_all e.accepts st
    else (goes_on, read_all e.active_fd e.recvs st)

unfoldable pub next_step : (Server → Progress × Server) → Progress × Server → Progress × Server
next_step later (goes_on, st) = later st
next_step later (leaves_loop, st) = (leaves_loop, st)
next_step later (exits, st) = (exits, st)

-- The loop over the events that `epoll_wait` returned.
unfoldable pub handle_events : ℕ → List Event → Server → Progress × Server
handle_events server_fd [] st = (goes_on, st)
handle_events server_fd (e ∷ events) st =
    next_step (handle_events server_fd events) (handle_event server_fd e st)

unfoldable pub after_wait : ℕ → Polled → List Event → Server → Progress × Server
after_wait server_fd interrupted events st = (goes_on, st)
after_wait server_fd poll_failed events st = (leaves_loop, st)
after_wait server_fd ready events st = handle_events server_fd events st

-- The main loop: its rounds until it ends or the list does.
unfoldable pub serve : ℕ → List (Polled × List Event) → Server → Progress × Server
serve server_fd [] st = (goes_on, st)
serve server_fd ((waited, events) ∷ rounds) st =
    next_step (serve server_fd rounds) (after_wait server_fd waited events st)

-- Behind the loop `main` closes its two descriptors.
unfoldable pub clean_up : ℕ → ℕ → Progress × Server → Progress × Server
clean_up server_fd epfd (goes_on, st) = (goes_on, st)
clean_up server_fd epfd (leaves_loop, st) =
    (leaves_loop, record st { calls = closes epfd ∷ closes server_fd ∷ st.calls })
clean_up server_fd epfd (exits, st) = (exits, st)

-- `main` from `epoll_create1` on, with whether `epoll_ctl` adds the listening socket.
unfoldable pub run_epoll :
    ℕ → Option ℕ → Bool → List (Polled × List Event) → List Call → Progress × Server
run_epoll server_fd none added rounds calls =
    (exits, record { watched = []; calls = closes server_fd ∷ calls })
run_epoll server_fd (some epfd) false rounds calls =
    (exits, record { watched = []; calls = closes epfd ∷ closes server_fd ∷ opens epfd ∷ calls })
run_epoll server_fd (some epfd) true rounds calls =
    clean_up server_fd epfd
      (serve server_fd rounds (record { watched = server_fd ∷ []; calls = opens epfd ∷ calls }))

unfoldable pub configure :
    Startup → ℕ → Option ℕ → Bool → List (Polled × List Event) → Progress × Server
configure s fd epfd added rounds =
    let failed : Progress × Server =
      (exits, record { watched = []; calls = closes fd ∷ opens fd ∷ [] }) in
    if s.options
    then if s.bound
      then if s.listening
        then if set_nonblocking s.nonblocking
          then run_epoll fd epfd added rounds (opens fd ∷ [])
          else (exits, record { watched = []; calls = opens fd ∷ [] })
        else failed
      else failed
    else failed

unfoldable pub open_socket :
    Startup → Option ℕ → Option ℕ → Bool → List (Polled × List Event) → Progress × Server
open_socket s none epfd added rounds = (exits, record { watched = []; calls = [] })
open_socket s (some fd) epfd added rounds = configure s fd epfd added rounds

unfoldable pub main : Startup → Option ℕ → Bool → List (Polled × List Event) → Progress × Server
main s epfd added rounds = open_socket s s.socket epfd added rounds
