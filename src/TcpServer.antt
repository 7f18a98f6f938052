-- ===== src/TcpServer.antt =====
-- linux-process-lab/06-network/01-tcp-basic/server.c: one client is accepted, read once and
-- answered. The results of the system calls are the input.
mod Tests
use cs_lab.Base.{
  ℕ, zero, suc, ◌+◌, ◌-◌, ◌≡◌, refl, Bool, true, false, Option, none, some, List, [], ◌∷◌,
  if◌then◌else◌, arith,
}
use cs_lab.Net.{Startup, Received, data_bytes, nothing_yet, recv_failed, take, opens, closes, sends}
use cs_lab.Net.Counts.{opened, closed}
use cs_lab.Net.Program.{
  Program, pure, followed, ◌>>=◌, ◌>>◌, exit, close, send, or_exit, open_or_exit, ClosesAll,
}

abbrev pub buf_size : ℕ
buf_size = 1024

-- The bytes of "hello client"
abbrev pub response : List ℕ
response = 104 ∷ 101 ∷ 108 ∷ 108 ∷ 111 ∷ 32 ∷ 99 ∷ 108 ∷ 105 ∷ 101 ∷ 110 ∷ 116 ∷ []

-- The socket is closed where a call of the set-up fails.
unfoldable pub set_up : Startup → Program ℕ
set_up s = do
  server_fd ← open_or_exit s.socket (pure tt)
  or_exit s.options (close server_fd)
  or_exit s.bound (close server_fd)
  or_exit s.listening (close server_fd)
  pure server_fd

-- What `recv` put into the buffer, of at most 1023 bytes. On a blocking socket -1 is an error
-- whatever `errno` is.
unfoldable pub receive : Received → Program (Unit {0}) → Program (List ℕ)
receive (data_bytes bytes) cleanup = pure (take (buf_size - 1) bytes)
receive nothing_yet cleanup = cleanup >> exit
receive recv_failed cleanup = cleanup >> exit

-- `main`: what it prints as received. A failed `send` is only reported.
unfoldable pub main : Startup → (accepted : Option ℕ) → Received → Program (List ℕ)
main s accepted received = do
  server_fd ← set_up s
  client_fd ← open_or_exit accepted (close server_fd)
  bytes ← receive received (do close client_fd; close server_fd)
  send client_fd response
  close client_fd
  close server_fd
  pure bytes

-- Whatever its system calls return, `main` of the first TCP server closes every descriptor as often
-- as it opens it, on each of its paths.
pub main-ClosesAll :
    (s : Startup) (accepted : Option ℕ) (received : Received) → ClosesAll (main s accepted received)
unfolding main set_up receive opened closed
main-ClosesAll s accepted received d = ground arith
