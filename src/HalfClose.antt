-- ===== src/HalfClose.antt =====
-- linux-process-lab/06-network/07-tcp-deep/03-half-close: a client that sends two messages, shuts
-- down its sending side and reads the answer, and a server that reads to the end and answers then.
-- Once connected they are two threads on the two streams of the connection. A read may fail at any
-- time; `send`, `shutdown` and `close` do not fail there, and no signal ends a process.
pub mod Invariant
pub mod Client
pub mod Server
pub mod Measure
pub mod Stuck
pub mod Termination
mod Tests
use cs_lab.Interleaving
use cs_lab.Interleaving.{or_else}
use cs_lab.Base.{ℕ, zero, suc, ◌+◌, Bool, true, false, Option, none, some, List, [], ◌∷◌, ◌++◌}
use cs_lab.Net.{Startup}
use cs_lab.Net.Program.{Program, pure, followed, ◌>>=◌, ◌>>◌, exit, close, or_exit, open_or_exit}
use cs_lab.Net.Stream.{Stream, fresh, recv}
use cs_lab.BlockingServer.{listen_on}

-- `sizeof(buffer) - 1`
abbrev pub read_size : ℕ
read_size = 1023

abbrev pub hello : List ℕ
hello = 72 ∷ 101 ∷ 108 ∷ 108 ∷ 111 ∷ []

abbrev pub world : List ℕ
world = 87 ∷ 111 ∷ 114 ∷ 108 ∷ 100 ∷ []

-- The bytes of "I received everything"
abbrev pub response : List ℕ
response =
    73 ∷ 32 ∷ 114 ∷ 101 ∷ 99 ∷ 101 ∷ 105 ∷ 118 ∷ 101 ∷ 100 ∷ 32 ∷ 101 ∷ 118 ∷ 101 ∷ 114 ∷ 121 ∷ 116
    ∷ 104 ∷ 105 ∷ 110 ∷ 103 ∷ []

-- The server's `main` up to `accept`: the two descriptors
unfoldable pub accept_client : Startup → Option ℕ → Program (ℕ × ℕ)
accept_client s accepted = do
  server_fd ← listen_on s.socket s.bound s.listening
  client_fd ← open_or_exit accepted (close server_fd)
  pure (server_fd, client_fd)

-- The client's `main` up to `connect`. The result of `inet_pton` is not used.
unfoldable pub connect_to_server : Option ℕ → Bool → Program ℕ
connect_to_server socket connected = do
  fd ← open_or_exit socket (pure tt)
  or_exit connected (close fd)
  pure fd

-- Where the client is: before each of its sends, before `shutdown`, before `read`, before `close`.
pub data ClientAt : Type 0 where
  to_hello : ClientAt
  to_world : ClientAt
  to_shutdown : ClientAt
  to_read : ClientAt
  to_close : ClientAt
  client_done : ClientAt

-- Where the server is: in its loop, before `send`, before `close`.
pub data ServerAt : Type 0 where
  reading : ServerAt
  to_respond : ServerAt
  to_hang_up : ServerAt
  server_done : ServerAt

-- The streams of the connection, what each side has read, and whether it has reported a failed read.
pub record Connection : Type 0 where
  pub to_server : Stream
  pub to_client : Stream
  pub server_got : List ℕ
  pub client_got : List ℕ
  pub server_failed : Bool
  pub client_failed : Bool

pub record State : Type 0 where
  pub client_at : ClientAt
  pub server_at : ServerAt
  pub connection : Connection

abbrev pub state : ClientAt → ServerAt → Connection → State
state c s n = record { client_at = c; server_at = s; connection = n }

abbrev pub append : List ℕ → Stream → Stream
append bytes s = record s { pending = s.pending ++ bytes }

abbrev pub end : Stream → Stream
end s = record s { finished = true }

-- How a read goes: it finds so many bytes more than one, if any are there, or fails.
pub data Attempt : Type 0 where
  finds : ℕ → Attempt
  fails : Attempt

-- The client's `read` where it does not fail: its result is printed.
unfoldable pub client_read : ServerAt → Connection → Option (List ℕ × List ℕ) → Option State
client_read s n none = none
client_read s n (some (bytes, rest)) = some (
    state to_close s (record n {
      to_client = record { pending = rest; finished = n.to_client.finished };
      client_got = bytes;
    }))

-- The client reads; where that fails it closes its descriptor and exits.
unfoldable pub client_attempt : Attempt → ServerAt → Connection → Option State
client_attempt (finds arrived) s n =
    client_read s n (recv read_size arrived n.to_client.pending n.to_client.finished)
client_attempt fails s n = some (state client_done s (record n { client_failed = true }))

-- A step of the client, or none where it is blocked or done.
unfoldable pub client_step : Attempt → ClientAt → ServerAt → Connection → Option State
client_step attempt to_hello s n =
    some (state to_world s (record n { to_server = append hello n.to_server }))
client_step attempt to_world s n =
    some (state to_shutdown s (record n { to_server = append world n.to_server }))
client_step attempt to_shutdown s n =
    some (state to_read s (record n { to_server = end n.to_server }))
client_step attempt to_read s n = client_attempt attempt s n
client_step attempt to_close s n = some (state client_done s n)
client_step attempt client_done s n = none

-- A round of the server's loop where the read does not fail.
unfoldable pub server_read : ClientAt → Connection → Option (List ℕ × List ℕ) → Option State
server_read c n none = none
server_read c n (some ([], rest)) = some (state c to_respond n)
server_read c n (some (b ∷ more, rest)) = some (
    state c reading (record n {
      to_server = record { pending = rest; finished = n.to_server.finished };
      server_got = n.server_got ++ b ∷ more;
    }))

-- A failed read ends the loop, and the server goes on behind it.
unfoldable pub server_attempt : Attempt → ClientAt → Connection → Option State
server_attempt (finds arrived) c n =
    server_read c n (recv read_size arrived n.to_server.pending n.to_server.finished)
server_attempt fails c n = some (state c to_respond (record n { server_failed = true }))

-- A step of the server. Its last two closes are one step.
unfoldable pub server_step : Attempt → ClientAt → ServerAt → Connection → Option State
server_step attempt c reading n = server_attempt attempt c n
server_step attempt c to_respond n =
    some (state c to_hang_up (record n { to_client = append response n.to_client }))
server_step attempt c to_hang_up n =
    some (state c server_done (record n { to_client = end n.to_client }))
server_step attempt c server_done n = none

-- Who is to move.
pub data Side : Type 0 where
  client : Side
  server : Side

unfoldable pub step : Side → Attempt → State → Option State
step client attempt s = client_step attempt s.client_at s.server_at s.connection
step server attempt s = server_step attempt s.client_at s.server_at s.connection

-- The other side moves where the chosen one cannot.
unfoldable pub any_step : Side × Attempt → State → Option State
any_step (client, attempt) s = or_else (step client attempt s) (step server attempt s)
any_step (server, attempt) s = or_else (step server attempt s) (step client attempt s)

abbrev pub start : State
start = state to_hello reading (record {
  to_server = fresh;
  to_client = fresh;
  server_got = [];
  client_got = [];
  server_failed = false;
  client_failed = false;
})

abbrev pub run : (ℕ → Side × Attempt) → ℕ → State → State
run = Interleaving.run any_step
