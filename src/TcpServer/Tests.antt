-- ===== src/TcpServer/Tests.antt =====
-- Runs of the basic server.
use cs_lab.Base.{◌≡◌, refl, true, false, none, some, [], ◌∷◌}
use cs_lab.Net.{Startup, data_bytes, recv_failed, take, opens, closes, sends}
use cs_lab.Net.Program.{ClosesAll}
use cs_lab.TcpServer.{main, set_up, receive, response, main-ClosesAll}

abbrev startup : Startup
startup = record {
  socket = some 3;
  options = true;
  bound = true;
  listening = true;
  nonblocking = record { flags = none; set = false };
}

run_main :
    main startup (some 4) (data_bytes (72 ∷ 105 ∷ [])) []
    ≡ (some (72 ∷ 105 ∷ []), closes 3 ∷ closes 4 ∷ sends 4 response ∷ opens 4 ∷ opens 3 ∷ [])
unfolding main set_up receive take
run_main = refl

main-ClosesAll_example : ClosesAll (main startup (some 4) recv_failed)
main-ClosesAll_example = main-ClosesAll startup (some 4) recv_failed
