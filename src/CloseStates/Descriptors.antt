-- ===== src/CloseStates/Descriptors.antt =====
-- Which descriptors the two programs leave open.
use cs_lab.Base.{
  ℕ, ◌+◌, ◌≡◌, refl, ap, Bool, true, false, some, List, [], ◌∷◌, ◌++◌, ◌==◌, if◌then◌else◌, arith,
}
use cs_lab.Net.{Call, opens, closes, Startup, Received, data_bytes, nothing_yet, recv_failed, take}
use cs_lab.EpollServer.Echo.{stream, chunk_then}
use cs_lab.Net.Counts.{one, opened, closed}
use cs_lab.Net.Program.{pure, followed}
use cs_lab.CloseStates.{accept_client, read_more, read_to_end, server_main}

-- `recv` reports an error before the end of the stream.
unfoldable pub fails_early : List Received → Bool
fails_early [] = false
fails_early (data_bytes [] ∷ later) = false
fails_early (data_bytes (b ∷ more) ∷ later) = fails_early later
fails_early (nothing_yet ∷ later) = true
fails_early (recv_failed ∷ later) = true

abbrev close_unless : Bool → ℕ → List Call → List Call
close_unless true fd calls = calls
close_unless false fd calls = closes fd ∷ calls

-- The loop prints the stream, and closes the client's descriptor unless `recv` fails.
read_to_end_lem :
    (fd : ℕ) (recvs : List Received) (calls : List Call)
    → read_to_end fd recvs calls ≡ (some (stream recvs), close_unless (fails_early recvs) fd calls)
unfolding read_to_end read_more fails_early stream chunk_then take
read_to_end_lem fd [] calls = refl
read_to_end_lem fd (data_bytes [] ∷ later) calls = refl
read_to_end_lem fd (data_bytes (b ∷ more) ∷ later) calls =
    ap (followed (λ rest. pure ((b ∷ take 1022 more) ++ rest))) (read_to_end_lem fd later calls)
read_to_end_lem fd (nothing_yet ∷ later) calls = refl
read_to_end_lem fd (recv_failed ∷ later) calls = refl

set_up_lem :
    (s : Startup) (server_fd client_fd : ℕ)
    → s.socket ≡ some server_fd
    → s.bound ≡ true
    → s.listening ≡ true
    → accept_client s (some client_fd) []
      ≡ (some (server_fd, client_fd), opens client_fd ∷ opens server_fd ∷ [])
unfolding accept_client
set_up_lem s server_fd client_fd e f g = rw (e, f, g) refl

left_open :
    (b : Bool) (server_fd client_fd d : ℕ)
    → let calls =
        closes server_fd ∷ close_unless b client_fd (opens client_fd ∷ opens server_fd ∷ []) in
      opened d calls ≡ closed d calls + (if b then one (client_fd == d) else 0)
unfolding opened closed
left_open true server_fd client_fd d = omega arith
left_open false server_fd client_fd d = omega arith

server_main_lem :
    (s : Startup) (server_fd client_fd : ℕ) (recvs : List Received)
    → s.socket ≡ some server_fd
    → s.bound ≡ true
    → s.listening ≡ true
    → server_main s (some client_fd) recvs [] ≡ (
      some (stream recvs),
      closes server_fd
          ∷ close_unless (fails_early recvs) client_fd (opens client_fd ∷ opens server_fd ∷ []),
    )
unfolding server_main
server_main_lem s server_fd client_fd recvs e f g =
    rw (set_up_lem s server_fd client_fd e f g)
      (rw (read_to_end_lem client_fd recvs (opens client_fd ∷ opens server_fd ∷ [])) refl)

-- Once it has accepted a client, the close-states server prints what it receives up to the end of
-- the stream or an error, in order, and closes its listening socket; it leaves the descriptor of
-- the client open exactly if `recv` fails before the end.
pub server_main-prints :
    (s : Startup) (server_fd client_fd : ℕ) (recvs : List Received)
    → s.socket ≡ some server_fd
    → s.bound ≡ true
    → s.listening ≡ true
    → let (printed, calls) = server_main s (some client_fd) recvs [] in
      (printed ≡ some (stream recvs))
      × ((d : ℕ)
          → opened d calls
            ≡ closed d calls + (if fails_early recvs then one (client_fd == d) else 0))
server_main-prints s server_fd client_fd recvs e f g =
    rw (server_main_lem s server_fd client_fd recvs e f g)
      (refl, left_open (fails_early recvs) server_fd client_fd)
