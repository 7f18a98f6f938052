-- ===== src/BlockingServer.antt =====
-- linux-process-lab/06-network/02-blocking-server/server.c: one client after the other is accepted,
-- read once, answered and closed. The results of the system calls are the input.
mod Tests
use cs_lab.Base.{
  ℕ, zero, suc, ◌+◌, ◌-◌, ◌≡◌, refl, sym, subst, Bool, true, false, Option, none, some, List, [],
  ◌∷◌, ◌==◌, if◌then◌else◌, arith,
}
use cs_lab.Net.{
  Call, Startup, Received, data_bytes, nothing_yet, recv_failed, take, opens, closes, sends,
}
use cs_lab.Net.Counts.{one, opened, closed}
use cs_lab.Net.Program.{
  Program, pure, followed, ◌>>=◌, ◌>>◌, exit, close, send, or_exit, open_or_exit, HoldsOnly,
  Neutral, Neutral-then, followed-some,
}

abbrev pub buf_size : ℕ
buf_size = 1024

-- The bytes of "server recieved message"
abbrev pub response : List ℕ
response =
    115 ∷ 101 ∷ 114 ∷ 118 ∷ 101 ∷ 114 ∷ 32 ∷ 114 ∷ 101 ∷ 99 ∷ 105 ∷ 101 ∷ 118 ∷ 101 ∷ 100 ∷ 32 ∷ 109
    ∷ 101 ∷ 115 ∷ 115 ∷ 97 ∷ 103 ∷ 101 ∷ []

-- `main` up to `listen`. The result of `setsockopt` is not used.
unfoldable pub listen_on : (socket : Option ℕ) (bound listening : Bool) → Program ℕ
listen_on socket bound listening = do
  server_fd ← open_or_exit socket (pure tt)
  or_exit bound (close server_fd)
  or_exit listening (close server_fd)
  pure server_fd

-- What `recv` of at most 1023 bytes returned: an answer is sent where there are bytes.
unfoldable pub answer : ℕ → List ℕ → Program (Unit {0})
answer client_fd [] = close client_fd
answer client_fd (b ∷ more) = do send client_fd response; close client_fd

unfoldable pub serve_client : ℕ → Received → Program (Unit {0})
serve_client client_fd (data_bytes bytes) = answer client_fd (take (buf_size - 1) bytes)
serve_client client_fd nothing_yet = close client_fd
serve_client client_fd recv_failed = close client_fd

-- A round of the loop; a failed `accept` is tried again.
unfoldable pub serve_one : Option ℕ → Received → Program (Unit {0})
serve_one none received = pure tt
serve_one (some client_fd) received = do
  fd ← open_or_exit (some client_fd) (pure tt)
  serve_client fd received

-- The endless loop, as long as its input lasts.
unfoldable pub serve : List (Option ℕ × Received) → Program (Unit {0})
serve [] = pure tt
serve ((accepted, received) ∷ rounds) = do serve_one accepted received; serve rounds

-- `main`: the listening socket of the loop, if it gets there
unfoldable pub main : Startup → List (Option ℕ × Received) → Program ℕ
main s rounds = do server_fd ← listen_on s.socket s.bound s.listening; serve rounds; pure server_fd

pub listen_on-HoldsOnly :
    (socket : Option ℕ) (bound listening : Bool) → HoldsOnly (listen_on socket bound listening [])
unfolding listen_on opened closed
listen_on-HoldsOnly none bound listening = λ d. refl
listen_on-HoldsOnly (some fd) false listening = λ d. omega arith
listen_on-HoldsOnly (some fd) true false = λ d. omega arith
listen_on-HoldsOnly (some fd) true true = λ d. omega arith

answer-Neutral :
    (fd : ℕ) (bytes : List ℕ) (calls : List Call)
    → Neutral calls (answer fd bytes (opens fd ∷ calls))
unfolding answer opened closed
answer-Neutral fd [] calls = (refl, λ d. omega arith)
answer-Neutral fd (b ∷ more) calls = (refl, λ d. omega arith)

serve_one-Neutral :
    (accepted : Option ℕ) (received : Received) (calls : List Call)
    → Neutral calls (serve_one accepted received calls)
unfolding serve_one serve_client opened closed
serve_one-Neutral none received calls = (refl, λ d. refl)
serve_one-Neutral (some fd) (data_bytes bytes) calls = answer-Neutral fd (take 1023 bytes) calls
serve_one-Neutral (some fd) nothing_yet calls = (refl, λ d. omega arith)
serve_one-Neutral (some fd) recv_failed calls = (refl, λ d. omega arith)

serve-Neutral :
    (rounds : List (Option ℕ × Received)) (calls : List Call) → Neutral calls (serve rounds calls)
unfolding serve
serve-Neutral [] calls = (refl, λ d. refl)
serve-Neutral ((accepted, received) ∷ rounds) calls =
    Neutral-then (serve_one accepted received) (serve rounds) calls
      (serve_one-Neutral accepted received calls) (serve-Neutral rounds)

served-HoldsOnly :
    (rounds : List (Option ℕ × Received)) (out : Option ℕ × List Call)
    → HoldsOnly out
    → HoldsOnly (followed (λ server_fd. serve rounds >> pure server_fd) out)
served-HoldsOnly rounds (none, calls) h = h
served-HoldsOnly rounds (some fd, calls) h =
    let n = serve-Neutral rounds calls in
    subst HoldsOnly (sym (followed-some (λ _. pure fd) (serve rounds calls) n.0))
      (λ d. omega (arith, h d, n.1 d))

-- After any rounds of its loop, whatever the system calls return, the blocking server has only its
-- listening socket open, and nothing where it has exited.
pub main-HoldsOnly :
    (s : Startup) (rounds : List (Option ℕ × Received)) → HoldsOnly (main s rounds [])
unfolding main
main-HoldsOnly s rounds =
    served-HoldsOnly rounds (listen_on s.socket s.bound s.listening [])
      (listen_on-HoldsOnly s.socket s.bound s.listening)
