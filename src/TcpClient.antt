-- ===== src/TcpClient.antt =====
-- linux-process-lab/06-network/01-tcp-basic/client.c, and the same file under 02-blocking-server and
-- 03-thread-per-connection: one message is sent and one answer read.
mod Tests
use cs_lab.Base.{
  ℕ, zero, suc, ◌+◌, ◌≡◌, refl, Bool, true, false, Option, none, some, List, [], ◌∷◌, arith,
}
use cs_lab.Net.{Received, data_bytes, nothing_yet, recv_failed, opens, closes, sends}
use cs_lab.Net.Counts.{opened, closed}
use cs_lab.Net.Program.{
  Program, pure, followed, ◌>>=◌, ◌>>◌, exit, close, send, or_exit, open_or_exit, ClosesAll,
}
use cs_lab.TcpServer.{receive}

-- What the calls return. `address` is whether `inet_pton` does.
pub record Results : Type 0 where
  pub socket : Option ℕ
  pub address : Bool
  pub connected : Bool
  pub sent : Bool
  pub received : Received

-- The bytes of "hello server"
abbrev pub message : List ℕ
message = 104 ∷ 101 ∷ 108 ∷ 108 ∷ 111 ∷ 32 ∷ 115 ∷ 101 ∷ 114 ∷ 118 ∷ 101 ∷ 114 ∷ []

-- `main` up to `connect`
unfoldable pub connect_to_server : Results → Program ℕ
connect_to_server r = do
  sock_fd ← open_or_exit r.socket (pure tt)
  or_exit r.address (close sock_fd)
  or_exit r.connected (close sock_fd)
  pure sock_fd

-- A failed `send` has sent nothing.
unfoldable pub send_message : Bool → ℕ → Program (Unit {0})
send_message true sock_fd = send sock_fd message
send_message false sock_fd = or_exit false (close sock_fd)

-- `main`: what it prints as the server's response
unfoldable pub main : Results → Program (List ℕ)
main r = do
  sock_fd ← connect_to_server r
  send_message r.sent sock_fd
  response ← receive r.received (close sock_fd)
  close sock_fd
  pure response

-- Whatever its system calls return, the TCP client closes every descriptor as often as it opens it,
-- on each of its paths.
pub client-ClosesAll : (r : Results) → ClosesAll (main r)
unfolding main connect_to_server send_message receive opened closed
client-ClosesAll r d = ground arith
