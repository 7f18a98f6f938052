-- ===== src/NonblockingServer/Tests.antt =====
-- Runs of the echo server.
use cs_lab.Base.{◌≡◌, refl, true, false, none, some, List, [], ◌∷◌, ◌==◌, if◌then◌else◌}
use cs_lab.Net.{
  opens, closes, sends, data_bytes, nothing_yet, quiet, leaves_loop, Startup, connected, poll_slots,
  reported, take,
}
use cs_lab.Net.Counts.{IsBalanced}
use cs_lab.PollServer.{Round, ready, interrupted, empty_slots, register, register_at, close_slot}
use cs_lab.NonblockingServer.{
  main, open_socket, bind_and_listen, run_server, serve, next_round, after_poll, accept_one,
  accept_client, admit, serve_clients, handle_slots, handle_slot, check_errors, read_client, echo,
  close_listener,
}
use cs_lab.NonblockingServer.Balance.{main-leaves_clients}

-- No call of `fcntl` succeeds.
abbrev startup : Startup
startup = record {
  socket = some 3;
  options = false;
  bound = true;
  listening = true;
  nonblocking = record { flags = none; set = false };
}

-- Two clients connect. The first sends two bytes, the second leaves and is reported as hung up too.
-- Then `poll` is interrupted.
abbrev rounds : List Round
rounds =
    record {
      polled = ready;
      incoming = true;
      revents = λ _. quiet;
      accepts = connected 4 (startup.nonblocking) ∷ [];
      recvs = λ _. nothing_yet;
    }
    ∷ record {
      polled = ready;
      incoming = true;
      revents = λ _. record quiet { pollin = true };
      accepts = connected 5 (startup.nonblocking) ∷ [];
      recvs = λ _. data_bytes (65 ∷ 66 ∷ []);
    }
    ∷ record {
      polled = ready;
      incoming = false;
      revents = λ i. if i == 2 then record quiet { pollin = true; pollhup = true } else quiet;
      accepts = [];
      recvs = λ _. data_bytes [];
    }
    ∷ record {
      polled = interrupted;
      incoming = false;
      revents = λ _. quiet;
      accepts = [];
      recvs = λ _. nothing_yet;
    }
    ∷ []

run_echo :
    let (p, st) = main startup false rounds in
    (p ≡ leaves_loop)
    × (st.calls ≡ closes 3 ∷ closes 5 ∷ sends 4 (65 ∷ 66 ∷ []) ∷ opens 5 ∷ opens 4 ∷ opens 3 ∷ [])
unfolding main open_socket bind_and_listen run_server empty_slots serve next_round after_poll
    accept_one accept_client admit register register_at poll_slots reported serve_clients
    handle_slots handle_slot check_errors read_client echo close_listener close_slot take
run_echo = (refl, refl)

main-leaves_clients_example :
    IsBalanced (λ _. 0) (main startup false rounds).1.calls (main startup false rounds).1.slots
main-leaves_clients_example = main-leaves_clients startup 2 false rounds refl (run_echo.0)
