-- ===== src/NonblockingServer/Balance.antt =====
-- No connection is lost and none is closed twice, whatever the calls return.
use cs_lab.Base.{
  ℕ, suc, ◌+◌, ◌≡◌, refl, ap, sym, ◌∙◌, Bool, true, false, Option, none, some, List, [], ◌∷◌, ◌==◌,
  if◌then◌else◌, Bool-cases, subst, ◌≢◌, inl, inr, arith,
}
use cs_lab.Net.{
  Call, opens, Slot, Received, data_bytes, nothing_yet, recv_failed, Accepting, connected, nobody,
  accept_failed, is_faulty, poll_slots, take, Progress, goes_on, leaves_loop, exits, Startup,
}
use cs_lab.Net.Counts.{IsBalanced, one, opened, closed, held, is_held}
use cs_lab.PollServer.{
  Server, Round, Polled, ready, interrupted, poll_failed, register, close_slot, empty_slots,
  max_clients,
}
use cs_lab.PollServer.Registration.{held-register}
use cs_lab.PollServer.Orderly.{held-poll_slots}
use cs_lab.PollServer.Main.{close_slot_lem, held-empty_slots}
use cs_lab.NonblockingServer.{
  close_listener, run_server, bind_and_listen, main, open_socket, admit, accept_client, accept_one,
  echo, read_client, check_errors, handle_slot, handle_slots, serve_clients, after_poll, next_round,
  serve,
}

-- A step on one slot: the descriptor stays in the slot or is closed.
abbrev Kept : Slot → List Call → Slot × List Call → Type 0
Kept s calls (t, calls') =
    (d : ℕ)
    → (opened d calls' ≡ opened d calls)
      × (closed d calls' + is_held d t.fd ≡ closed d calls + is_held d s.fd)

echo-Kept :
    (fd : ℕ) (s : Slot) (bytes : List ℕ) (calls : List Call)
    → s.fd ≡ some fd
    → Kept s calls (echo fd s bytes calls)
unfolding echo opened closed is_held
echo-Kept fd s [] calls e d = (refl, let f = ap (is_held d) e in omega (arith, f))
echo-Kept fd s (b ∷ more) calls e d = (refl, refl)

read_client-Kept :
    (fd : ℕ) (s : Slot) (r : Received) (calls : List Call)
    → s.fd ≡ some fd
    → Kept s calls (read_client fd s r calls)
unfolding read_client opened closed is_held
read_client-Kept fd s (data_bytes bytes) calls e d = echo-Kept fd s (take 1023 bytes) calls e d
read_client-Kept fd s nothing_yet calls e d = (refl, refl)
read_client-Kept fd s recv_failed calls e d = (refl, let f = ap (is_held d) e in omega (arith, f))

check_errors-Kept :
    (s : Slot) (calls : List Call) (out : Slot × List Call)
    → Kept s calls out
    → Kept s calls (check_errors out)
unfolding check_errors is_held
check_errors-Kept s calls (t, calls') k d = elim (Bool-cases (is_faulty t.revents)) [
  | inl faulty ↦
      (let h = k d in
        let c = close_slot_lem d t.fd calls' in rw faulty (c.0 ∙ h.0, omega (arith, h.1, c.1)))
  | inr fine ↦ rw fine (k d)
]

handle_slot-Kept :
    (fd : Option ℕ) (s : Slot) (r : Received) (calls : List Call)
    → s.fd ≡ fd
    → Kept s calls (handle_slot fd s r calls)
unfolding handle_slot
handle_slot-Kept none s r calls e = λ d. (refl, refl)
handle_slot-Kept (some fd) s r calls e =
    check_errors-Kept s calls (if s.revents.pollin then read_client fd s r calls else (s, calls))
      (tested s.revents.pollin)
  where
    tested : (b : Bool) → Kept s calls (if b then read_client fd s r calls else (s, calls))
    tested true = read_client-Kept fd s r calls e
    tested false = λ d. (refl, refl)

handle_slots-IsBalanced :
    (extra : ℕ → ℕ) (recvs : ℕ → Received) (i : ℕ) (slots : List Slot) (calls : List Call)
    → IsBalanced extra calls slots
    → let (slots', calls') = handle_slots recvs i slots calls in IsBalanced extra calls' slots'
unfolding handle_slots held
handle_slots-IsBalanced extra recvs i [] calls b = b
handle_slots-IsBalanced extra recvs i (s ∷ rest) calls b =
    let (t, calls') = handle_slot s.fd s (recvs i) calls in
    let first = handle_slot-Kept s.fd s (recvs i) calls refl in
    let later =
      handle_slots-IsBalanced (λ d. is_held d t.fd + extra d) recvs (i + 1) rest calls'
        (λ d. let f = first d in omega (arith, f.0, f.1, b d)) in
    λ d. omega (arith, later d)

module _ (extra : ℕ → ℕ) where
  abbrev Good : Server → Type 0
  Good st = IsBalanced extra st.calls st.slots

  admit-Good :
      (client : ℕ) (st : Server) (r : Option (List Slot))
      → register client st.slots ≡ r
      → Good st
      → Good (admit client (record st { calls = opens client ∷ st.calls }) r)
  unfolding admit opened closed
  admit-Good client st none e b d = omega (arith, b d)
  admit-Good client st (some t) e b d = omega (arith, b d, held-register d client st.slots t e)

  accept_one-Good :
      (b : Bool) (accepts : List Accepting) (st : Server) → Good st → Good (accept_one b accepts st)
  unfolding accept_one accept_client
  accept_one-Good true [] st g = g
  accept_one-Good true (nobody ∷ later) st g = g
  accept_one-Good true (accept_failed ∷ later) st g = g
  accept_one-Good true (connected client f ∷ later) st g =
      admit-Good client st (register client st.slots) refl g
  accept_one-Good false accepts st g = g

  after_poll-Good : (r : Round) (p : Polled) (st : Server) → Good st → Good (after_poll r p st).1
  unfolding after_poll serve_clients
  after_poll-Good r interrupted st g = g
  after_poll-Good r poll_failed st g = g
  after_poll-Good r ready st g =
      let polled : Server = record st { slots = poll_slots r.revents 1 st.slots } in
      let out = accept_one r.incoming r.accepts polled in
      handle_slots-IsBalanced extra r.recvs 1 out.slots out.calls (
        accept_one-Good r.incoming r.accepts polled (λ d.
          g d
          ∙ ap (λ n. closed d st.calls + (n + extra d))
              (sym (held-poll_slots d r.revents 1 st.slots))))

  next_round-Good :
      (later : Server → Progress × Server) (p : Progress) (st : Server)
      → ((u : Server) → Good u → Good (later u).1)
      → Good st
      → Good (next_round later (p, st)).1
  unfolding next_round
  next_round-Good later goes_on st h g = h st g
  next_round-Good later leaves_loop st h g = g
  next_round-Good later exits st h g = g

  -- If, but for the descriptors counted by `extra`, the open descriptors of the nonblocking echo
  -- server are those in its slots, each once, the same holds after any rounds of its loop, whatever
  -- the system calls return.
  pub serve-IsBalanced :
      (rounds : List Round) (st : Server)
      → IsBalanced extra st.calls st.slots
      → IsBalanced extra (serve rounds st).1.calls (serve rounds st).1.slots
  unfolding serve
  serve-IsBalanced [] st g = g
  serve-IsBalanced (r ∷ rounds) st g =
      let out = after_poll r r.polled st in
      next_round-Good (serve rounds) (out.0) (out.1) (serve-IsBalanced rounds)
        (after_poll-Good r r.polled st g)

close_listener-Good :
    (fd : ℕ) (p : Progress) (st : Server)
    → IsBalanced (λ d. one (fd == d)) st.calls st.slots
    → (close_listener (some fd) (p, st)).0 ≡ leaves_loop
    → let g = (close_listener (some fd) (p, st)).1 in IsBalanced (λ _. 0) g.calls g.slots
unfolding close_listener close_slot opened closed
close_listener-Good fd goes_on st b e = grind arith
close_listener-Good fd exits st b e = grind arith
close_listener-Good fd leaves_loop st b e = λ d. omega (arith, b d)

run_server-Good :
    (fd : ℕ) (stack : Bool) (rounds : List Round) (p : Progress)
    → p ≢ leaves_loop
    → (run_server (some fd) stack rounds (p, opens fd ∷ [])).0 ≡ leaves_loop
    → let g = (run_server (some fd) stack rounds (p, opens fd ∷ [])).1 in
      IsBalanced (λ _. 0) g.calls g.slots
unfolding run_server opened closed
run_server-Good fd stack rounds exits n e = grind arith
run_server-Good fd stack rounds leaves_loop n e = grind arith
run_server-Good fd stack rounds goes_on n e =
    let start : Server = record { slots = empty_slots max_clients stack; calls = opens fd ∷ [] } in
    let out = serve rounds start in
    close_listener-Good fd (out.0) (out.1)
      (serve-IsBalanced (λ d. one (fd == d)) rounds start
        (λ d. omega (arith, held-empty_slots d 100 stack)))
      e

bind_and_listen-goes : (s : Startup) → bind_and_listen s ≢ leaves_loop
unfolding bind_and_listen
bind_and_listen-goes s = ground arith

abbrev LeavesClients : Progress × Server → Type 0
LeavesClients (p, st) = p ≡ leaves_loop → IsBalanced (λ _. 0) st.calls st.slots

served-LeavesClients :
    (s : Startup) (fd : ℕ) (stack : Bool) (rounds : List Round)
    → LeavesClients (run_server (some (suc fd)) stack rounds (open_socket s (some (suc fd))))
unfolding open_socket
served-LeavesClients s fd stack rounds =
    run_server-Good (suc fd) stack rounds (bind_and_listen s) (bind_and_listen-goes s)

-- When `main` of the nonblocking echo server, with a socket that is not 0, leaves its loop, the
-- descriptors still open are exactly the clients in its slots: the listening socket is closed and
-- the clients are not.
pub main-leaves_clients :
    (s : Startup) (fd : ℕ) (stack : Bool) (rounds : List Round)
    → s.socket ≡ some (suc fd)
    → (main s stack rounds).0 ≡ leaves_loop
    → IsBalanced (λ _. 0) (main s stack rounds).1.calls (main s stack rounds).1.slots
unfolding main
main-leaves_clients s fd stack rounds e =
    subst (λ o. LeavesClients (run_server o stack rounds (open_socket s o))) (sym e)
      (served-LeavesClients s fd stack rounds)
