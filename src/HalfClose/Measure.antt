-- ===== src/HalfClose/Measure.antt =====
-- Each step lowers a measure.
use cs_lab.Base.{
  ℕ, ◌+◌, ◌*◌, ◌<◌, ◌≡◌, refl, ap, Bool, true, false, Option, none, some, List, [], ◌∷◌, arith,
  length, length-append,
}
use Prim.Native.Nat.{min}
use cs_lab.Interleaving.{Keeps, Keeps-some, Keeps-none}
use cs_lab.Net.Stream.{recv, length-drop-le}
use cs_lab.HalfClose.{
  hello, world, read_size, ClientAt, to_hello, to_world, to_shutdown, to_read, to_close,
  client_done, ServerAt, reading, to_respond, to_hang_up, server_done, Connection, State, state,
  client_read, client_step, server_read, server_step, Attempt, finds, fails, client_attempt,
  server_attempt,
}

abbrev client_rank : ClientAt → ℕ
client_rank to_hello = 5
client_rank to_world = 4
client_rank to_shutdown = 3
client_rank to_read = 2
client_rank to_close = 1
client_rank client_done = 0

abbrev server_rank : ServerAt → ℕ
server_rank reading = 3
server_rank to_respond = 2
server_rank to_hang_up = 1
server_rank server_done = 0

-- A message of five bytes may take the server five reads.
abbrev pub measure : State → ℕ
measure s =
    6 * client_rank s.client_at + server_rank s.server_at + length s.connection.to_server.pending

abbrev pub Lowers : ℕ → Option State → Type 0
Lowers n = Keeps (λ t. measure t < n)

client_read-Lowers :
    (s : ServerAt) (n : Connection) (got : Option (List ℕ × List ℕ))
    → Lowers (measure (state to_read s n)) (client_read s n got)
unfolding client_read
client_read-Lowers s n none = Keeps-none _
client_read-Lowers s n (some (bytes, rest)) = Keeps-some _ _ (omega arith)

client_attempt-Lowers :
    (attempt : Attempt) (s : ServerAt) (n : Connection)
    → Lowers (measure (state to_read s n)) (client_attempt attempt s n)
unfolding client_attempt
client_attempt-Lowers (finds arrived) s n =
    client_read-Lowers s n (recv read_size arrived n.to_client.pending n.to_client.finished)
client_attempt-Lowers fails s n = Keeps-some _ _ (omega arith)

pub client_step-Lowers :
    (attempt : Attempt) (c : ClientAt) (s : ServerAt) (n : Connection)
    → Lowers (measure (state c s n)) (client_step attempt c s n)
unfolding client_step
client_step-Lowers attempt to_hello s n =
    Keeps-some _ _ (omega (arith, length-append n.to_server.pending hello))
client_step-Lowers attempt to_world s n =
    Keeps-some _ _ (omega (arith, length-append n.to_server.pending world))
client_step-Lowers attempt to_shutdown s n = Keeps-some _ _ (omega arith)
client_step-Lowers attempt to_read s n = client_attempt-Lowers attempt s n
client_step-Lowers attempt to_close s n = Keeps-some _ _ (omega arith)
client_step-Lowers attempt client_done s n = Keeps-none _

server_read-Lowers :
    (arrived : ℕ) (c : ClientAt) (n : Connection) (pending : List ℕ) (finished : Bool)
    → n.to_server.pending ≡ pending
    → Lowers
        (measure (state c reading n))
        (server_read c n (recv read_size arrived pending finished))
unfolding server_read recv
server_read-Lowers arrived c n [] false e = Keeps-none _
server_read-Lowers arrived c n [] true e = Keeps-some _ _ (omega arith)
server_read-Lowers arrived c n (b ∷ more) finished e =
    let whole = ap length e in
    Keeps-some _ _ (omega (arith, length-drop-le (min arrived 1022) more, whole))

server_attempt-Lowers :
    (attempt : Attempt) (c : ClientAt) (n : Connection)
    → Lowers (measure (state c reading n)) (server_attempt attempt c n)
unfolding server_attempt
server_attempt-Lowers (finds arrived) c n =
    server_read-Lowers arrived c n n.to_server.pending n.to_server.finished refl
server_attempt-Lowers fails c n = Keeps-some _ _ (omega arith)

pub server_step-Lowers :
    (attempt : Attempt) (c : ClientAt) (s : ServerAt) (n : Connection)
    → Lowers (measure (state c s n)) (server_step attempt c s n)
unfolding server_step
server_step-Lowers attempt c reading n = server_attempt-Lowers attempt c n
server_step-Lowers attempt c to_respond n = Keeps-some _ _ (omega arith)
server_step-Lowers attempt c to_hang_up n = Keeps-some _ _ (omega arith)
server_step-Lowers attempt c server_done n = Keeps-none _
