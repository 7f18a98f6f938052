-- ===== src/CloseStates.antt =====
-- linux-process-lab/06-network/07-tcp-deep/02-close-states: a client that closes first, and a server
-- that reads to the end and closes late. The results of the system calls are the input.
pub mod Descriptors
mod Tests
use cs_lab.Base.{ℕ, zero, suc, ◌+◌, ◌-◌, Bool, true, false, Option, none, some, List, [], ◌∷◌, ◌++◌}
use cs_lab.Net.{Startup, Received, data_bytes, nothing_yet, recv_failed, take}
use cs_lab.Net.Program.{
  Program, pure, followed, ◌>>=◌, ◌>>◌, exit, close, send, or_exit, open_or_exit,
}

-- `sizeof(buffer) - 1`
abbrev pub read_size : ℕ
read_size = 1023

-- The server's `main` up to `accept`. Where a call fails nothing is closed before the exit, and the
-- result of `setsockopt` is not used.
unfoldable pub accept_client : Startup → Option ℕ → Program (ℕ × ℕ)
accept_client s accepted = do
  server_fd ← open_or_exit s.socket (pure tt)
  or_exit s.bound (pure tt)
  or_exit s.listening (pure tt)
  client_fd ← open_or_exit accepted (pure tt)
  pure (server_fd, client_fd)

-- The loop of `recv`: what it prints. The list of results ends with the end of the stream, where the
-- client's descriptor is closed; behind an error it is not.
unfoldable pub read_more : ℕ → List ℕ → Program (List ℕ) → Program (List ℕ)
read_more client_fd [] later = do close client_fd; pure []
read_more client_fd (b ∷ more) later = do rest ← later; pure ((b ∷ more) ++ rest)

unfoldable pub read_to_end : ℕ → List Received → Program (List ℕ)
read_to_end client_fd [] = do close client_fd; pure []
read_to_end client_fd (data_bytes bytes ∷ later) =
    read_more client_fd (take read_size bytes) (read_to_end client_fd later)
read_to_end client_fd (nothing_yet ∷ later) = pure []
read_to_end client_fd (recv_failed ∷ later) = pure []

-- The server's `main`: what it prints as received
unfoldable pub server_main : Startup → Option ℕ → List Received → Program (List ℕ)
server_main s accepted recvs = do
  fds ← accept_client s accepted
  bytes ← read_to_end fds.1 recvs
  close fds.0
  pure bytes

-- The bytes of "hello"
abbrev pub message : List ℕ
message = 104 ∷ 101 ∷ 108 ∷ 108 ∷ 111 ∷ []

-- The client's `main`
unfoldable pub client_main : (socket : Option ℕ) (address connected : Bool) → Program (Unit {0})
client_main socket address connected = do
  fd ← open_or_exit socket (pure tt)
  or_exit address (pure tt)
  or_exit connected (pure tt)
  send fd message
  close fd
