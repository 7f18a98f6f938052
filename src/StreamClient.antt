-- ===== src/StreamClient.antt =====
-- linux-process-lab/06-network/07-tcp-deep/01-stream/client.c: three messages are sent, the sending
-- side is shut down, and everything that comes back is read. The descriptor is left to the end of
-- the process.
pub mod Session
mod Tests
use cs_lab.Base.{ℕ, zero, suc, ◌+◌, ◌-◌, Bool, true, false, Option, none, some, List, [], ◌∷◌, ◌++◌}
use cs_lab.Net.{Received, data_bytes, nothing_yet, recv_failed, take}
use cs_lab.Net.Program.{
  Program, pure, followed, ◌>>=◌, ◌>>◌, exit, close, send, shut_down, or_exit, open_or_exit,
}

-- `sizeof(buffer) - 1`
abbrev pub read_size : ℕ
read_size = 1023

-- "HELLO", "WORLD" and "ABCDE"
abbrev pub first_message : List ℕ
first_message = 72 ∷ 69 ∷ 76 ∷ 76 ∷ 79 ∷ []

abbrev pub second_message : List ℕ
second_message = 87 ∷ 79 ∷ 82 ∷ 76 ∷ 68 ∷ []

abbrev pub third_message : List ℕ
third_message = 65 ∷ 66 ∷ 67 ∷ 68 ∷ 69 ∷ []

unfoldable pub connect_to_server : (socket : Option ℕ) (address connected : Bool) → Program ℕ
connect_to_server socket address connected = do
  fd ← open_or_exit socket (pure tt)
  or_exit address (close fd)
  or_exit connected (close fd)
  pure fd

-- The loop of `recv`: what it prints, one piece after the other, and whether it is left. Behind the
-- last of the results `recv` blocks.
unfoldable pub print_then : List ℕ → List ℕ × Bool → List ℕ × Bool
print_then [] later = ([], true)
print_then (b ∷ more) (printed, left) = ((b ∷ more) ++ printed, left)

unfoldable pub read_all : List Received → List ℕ × Bool
read_all [] = ([], false)
read_all (data_bytes bytes ∷ later) = print_then (take read_size bytes) (read_all later)
read_all (nothing_yet ∷ later) = ([], true)
read_all (recv_failed ∷ later) = ([], true)

-- `main`: what it prints, and whether it comes to its end.
unfoldable pub main :
    (socket : Option ℕ) (address connected : Bool) → List Received → Program (List ℕ × Bool)
main socket address connected recvs = do
  fd ← connect_to_server socket address connected
  send fd first_message
  send fd second_message
  send fd third_message
  shut_down fd
  pure (read_all recvs)
