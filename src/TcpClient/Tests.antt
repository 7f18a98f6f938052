-- ===== src/TcpClient/Tests.antt =====
-- Runs of the basic client.
use cs_lab.Base.{◌≡◌, refl, true, false, some, [], ◌∷◌}
use cs_lab.Net.{data_bytes, take, opens, closes, sends}
use cs_lab.Net.Program.{ClosesAll}
use cs_lab.TcpServer.{receive}
use cs_lab.TcpClient.{Results, main, connect_to_server, send_message, message, client-ClosesAll}

abbrev results : Results
results = record {
  socket = some 3;
  address = true;
  connected = true;
  sent = true;
  received = data_bytes (111 ∷ 107 ∷ []);
}

run_main : main results [] ≡ (some (111 ∷ 107 ∷ []), closes 3 ∷ sends 3 message ∷ opens 3 ∷ [])
unfolding main connect_to_server send_message receive take
run_main = refl

client-ClosesAll_example : ClosesAll (main (record results { sent = false }))
client-ClosesAll_example = client-ClosesAll (record results { sent = false })
