-- ===== src/CloseStates/Tests.antt =====
-- Runs of the two programs.
use cs_lab.Base.{ℕ, ◌+◌, ◌≡◌, refl, true, false, none, some, [], ◌∷◌, ◌==◌, if◌then◌else◌}
use cs_lab.Net.{Startup, data_bytes, recv_failed, opens, closes, sends}
use cs_lab.Net.Counts.{one, opened, closed}
use cs_lab.EpollServer.Echo.{stream}
use cs_lab.CloseStates.{server_main, client_main, message, accept_client}
use cs_lab.CloseStates.Descriptors.{fails_early, server_main-prints}

abbrev startup : Startup
startup = record {
  socket = some 3;
  options = true;
  bound = true;
  listening = true;
  nonblocking = record { flags = none; set = false };
}

run_client :
    client_main (some 3) true true [] ≡ (some tt, closes 3 ∷ sends 3 message ∷ opens 3 ∷ [])
unfolding client_main
run_client = refl

-- A bound port ends the process with the socket open.
run_port_in_use :
    server_main (record startup { bound = false }) (some 4) [] [] ≡ (none, opens 3 ∷ [])
unfolding server_main accept_client
run_port_in_use = refl

server_main-prints_example :
    let (printed, calls) =
      server_main startup (some 4) (data_bytes message ∷ recv_failed ∷ []) [] in
    (printed ≡ some (stream (data_bytes message ∷ recv_failed ∷ [])))
    × ((d : ℕ)
        → opened d calls
          ≡ closed d calls
            + (if fails_early (data_bytes message ∷ recv_failed ∷ []) then one (4 == d) else 0))
server_main-prints_example =
    server_main-prints startup 3 4 (data_bytes message ∷ recv_failed ∷ []) refl refl refl
