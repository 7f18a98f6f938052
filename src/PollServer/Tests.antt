-- ===== src/PollServer/Tests.antt =====
-- Runs of the poll server.
use cs_lab.Base.{ap, ◌≡◌, refl, true, false, some, List, [], ◌∷◌, ◌==◌, if◌then◌else◌, ◌+◌}
use cs_lab.Net.{
  opens, closes, sends, Slot, Revents, data_bytes, nothing_yet, quiet, leaves_loop, Startup, Fcntl,
  connected, nobody, released, poll_slots, reported, take,
}
use cs_lab.Net.Counts.{opened, closed, held}
use cs_lab.PollServer.{
  Round, ready, poll_failed, main, add_client, handle_client, response, open_socket, configure,
  run_server, empty_slots, serve, next_round, after_poll, accept_clients, serve_clients, accept_all,
  made_nonblocking, set_nonblocking, register, register_at, admit, handle_slots, handle_slot,
  read_client, answer, check_errors, clean_up, close_slots, close_slot,
}
use cs_lab.PollServer.Registration.{add_client-first_free, all_held}
use cs_lab.PollServer.Closings.{conflicts, handle_slots-closings}
use cs_lab.PollServer.Orderly.{AllOrderly, no_more, and_more}
use cs_lab.PollServer.Main.{main-closes_all}

abbrev fcntl_works : Fcntl
fcntl_works = record { flags = some 2; set = true }

abbrev startup : Startup
startup = record {
  socket = some 3;
  options = true;
  bound = true;
  listening = true;
  nonblocking = fcntl_works;
}

abbrev readable : Revents
readable = record quiet { pollin = true }

-- Two clients connect; the first sends a byte and the second leaves; then poll fails.
abbrev rounds : List Round
rounds =
    record {
      polled = ready;
      incoming = true;
      revents = λ _. quiet;
      accepts = connected 4 fcntl_works ∷ connected 5 fcntl_works ∷ nobody ∷ [];
      recvs = λ _. nothing_yet;
    }
    ∷ record {
      polled = ready;
      incoming = false;
      revents = λ _. readable;
      accepts = [];
      recvs = λ i. if i == 1 then data_bytes (65 ∷ []) else data_bytes [];
    }
    ∷ record {
      polled = poll_failed;
      incoming = false;
      revents = λ _. quiet;
      accepts = [];
      recvs = λ _. nothing_yet;
    }
    ∷ []

run_main : main startup false rounds ≡ (
  leaves_loop,
  closes 3 ∷ closes 4 ∷ closes 5 ∷ sends 4 response ∷ opens 5 ∷ opens 4 ∷ opens 3 ∷ [],
)
unfolding main open_socket configure run_server empty_slots serve next_round after_poll
    accept_clients serve_clients accept_all made_nonblocking set_nonblocking add_client register
    register_at admit poll_slots reported handle_slots handle_slot handle_client read_client answer
    check_errors clean_up close_slots close_slot take
run_main = refl

rounds-AllOrderly : AllOrderly rounds
rounds-AllOrderly = and_more (λ i. refl) (and_more (λ i. refl) (and_more (λ i. refl) no_more))

main-closes_all_example :
    opened 4 (main startup false rounds).1 ≡ closed 4 (main startup false rounds).1
main-closes_all_example =
    main-closes_all startup false rounds rounds-AllOrderly (ap (λ out. out.0) run_main) 4

abbrev busy : Slot
busy = record { fd = some 4; events = true; revents = quiet }

abbrev free : Slot
free = released busy

add_client-first_free_example :
    add_client 7 (record { slots = busy ∷ free ∷ free ∷ []; calls = [] }) ≡ record {
      slots = busy ∷ record free { fd = some 7; events = true } ∷ free ∷ [];
      calls = opens 7 ∷ [];
    }
unfolding all_held
add_client-first_free_example = add_client-first_free 7 (busy ∷ []) free (free ∷ []) [] refl refl

abbrev broken : Slot
broken = record busy { revents = record readable { pollhup = true } }

-- The first client hangs up while its data ends; the second one stays.
handle_slots-closings_example :
    let (slots, calls) = handle_slots (λ i. data_bytes []) 0 (broken ∷ busy ∷ []) [] in
    (opened 4 calls ≡ 0)
    × (closed 4 calls + held 4 slots
        ≡ 0
          + (held 4 (broken ∷ busy ∷ []) + conflicts 4 (λ i. data_bytes []) 0 (broken ∷ busy ∷ [])))
unfolding opened closed
handle_slots-closings_example =
    handle_slots-closings (λ i. data_bytes []) 0 (broken ∷ busy ∷ []) [] 4
