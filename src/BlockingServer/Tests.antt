-- ===== src/BlockingServer/Tests.antt =====
-- Runs of the blocking server.
use cs_lab.Base.{ℕ, ◌≡◌, refl, true, false, Option, none, some, List, [], ◌∷◌}
use cs_lab.Net.{Startup, Received, data_bytes, recv_failed, take, opens, closes, sends}
use cs_lab.Net.Program.{HoldsOnly}
use cs_lab.BlockingServer.{
  main, listen_on, serve, serve_one, serve_client, answer, response, main-HoldsOnly,
}

abbrev startup : Startup
startup = record {
  socket = some 3;
  options = false;
  bound = true;
  listening = true;
  nonblocking = record { flags = none; set = false };
}

-- A client that is answered, a failed `accept`, and a client that leaves.
abbrev rounds : List (Option ℕ × Received)
rounds = (some 4, data_bytes (65 ∷ [])) ∷ (none, recv_failed) ∷ (some 4, data_bytes []) ∷ []

run_main :
    main startup rounds []
    ≡ (some 3, closes 4 ∷ opens 4 ∷ closes 4 ∷ sends 4 response ∷ opens 4 ∷ opens 3 ∷ [])
unfolding main listen_on serve serve_one serve_client answer take
run_main = refl

main-HoldsOnly_example : HoldsOnly (main startup rounds [])
main-HoldsOnly_example = main-HoldsOnly startup rounds
