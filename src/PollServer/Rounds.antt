-- ===== src/PollServer/Rounds.antt =====
-- A round, and the rounds of the main loop: what they leave open is in the slots.
use cs_lab.Base.{
  ℕ, ◌+◌, ◌≡◌, refl, Bool, true, false, List, [], ◌∷◌, ◌⊎◌, inl, inr, arith, ap, sym, ◌∙◌,
}
use cs_lab.Net.{Received, poll_slots, Progress, goes_on, leaves_loop, exits}
use cs_lab.Net.Counts.{IsBalanced, closed}
use cs_lab.PollServer.{
  Server, Round, ready, interrupted, poll_failed, Polled, add_client, accept_clients, serve_clients,
  after_poll, next_round, serve,
}
use cs_lab.PollServer.Registration.{add_client-IsBalanced, accept_all-keeps}
use cs_lab.PollServer.Balance.{is_orderly, handle_slots-IsBalanced}
use cs_lab.PollServer.Orderly.{
  IsOrderly, AllOrderly, no_more, and_more, is_orderly-poll_slots, held-poll_slots,
  is_orderly-add_client,
}

-- The server is balanced and no conflict is in its slots.
abbrev Good : (ℕ → ℕ) → (ℕ → Received) → Server → Type 0
Good extra recvs st = IsBalanced extra st.calls st.slots × (is_orderly recvs 1 st.slots ≡ true)

add_client-Good :
    (extra : ℕ → ℕ) (recvs : ℕ → Received) (client : ℕ) (st : Server)
    → Good extra recvs st
    → Good extra recvs (add_client client st)
add_client-Good extra recvs client st g =
    (add_client-IsBalanced extra client st (g.0), is_orderly-add_client recvs client 1 st ∙ g.1)

-- What a part of the run leaves, unless it ends the process.
abbrev pub Survives : (ℕ → ℕ) → Progress × Server → Type 0
Survives extra (p, st) = (p ≡ exits) ⊎ IsBalanced extra st.calls st.slots

serve_clients-Survives :
    (extra : ℕ → ℕ) (recvs : ℕ → Received) (p : Progress) (st : Server)
    → (p ≡ exits) ⊎ Good extra recvs st
    → Survives extra (serve_clients recvs (p, st))
unfolding serve_clients
serve_clients-Survives extra recvs p st (inl e) = rw e (inl refl)
serve_clients-Survives extra recvs goes_on st (inr g) =
    inr (handle_slots-IsBalanced extra recvs 1 st.slots st.calls (g.1) (g.0))
serve_clients-Survives extra recvs leaves_loop st (inr g) = inr (g.0)
serve_clients-Survives extra recvs exits st (inr g) = inl refl

accept_clients-Good :
    (extra : ℕ → ℕ) (r : Round) (b : Bool) (st : Server)
    → Good extra r.recvs st
    → let (p, g) = accept_clients b r.accepts st in (p ≡ exits) ⊎ Good extra r.recvs g
unfolding accept_clients
accept_clients-Good extra r true st g =
    accept_all-keeps (Good extra r.recvs) (add_client-Good extra r.recvs) r.accepts st g
accept_clients-Good extra r false st g = inr g

after_poll-Survives :
    (extra : ℕ → ℕ) (r : Round) (p : Polled) (st : Server)
    → IsOrderly r
    → IsBalanced extra st.calls st.slots
    → Survives extra (after_poll r p st)
unfolding after_poll
after_poll-Survives extra r interrupted st ok b = inr b
after_poll-Survives extra r poll_failed st ok b = inr b
after_poll-Survives extra r ready st ok b =
    let polled : Server = record st { slots = poll_slots r.revents 1 st.slots } in
    let out = accept_clients r.incoming r.accepts polled in
    serve_clients-Survives extra r.recvs (out.0) (out.1) (
      accept_clients-Good extra r r.incoming polled (
        (λ d.
            b d
            ∙ ap (λ n. closed d st.calls + (n + extra d))
                (sym (held-poll_slots d r.revents 1 st.slots))),
        is_orderly-poll_slots r 1 st.slots ok,
      ))

next_round-Survives :
    (extra : ℕ → ℕ) (later : Server → Progress × Server) (p : Progress) (st : Server)
    → ((u : Server) → IsBalanced extra u.calls u.slots → Survives extra (later u))
    → Survives extra (p, st)
    → Survives extra (next_round later (p, st))
unfolding next_round
next_round-Survives extra later goes_on st h (inl e) = grind arith
next_round-Survives extra later goes_on st h (inr b) = h st b
next_round-Survives extra later leaves_loop st h s = s
next_round-Survives extra later exits st h s = s

pub serve-Survives :
    (extra : ℕ → ℕ) (rounds : List Round) (st : Server)
    → AllOrderly rounds
    → IsBalanced extra st.calls st.slots
    → Survives extra (serve rounds st)
unfolding serve
serve-Survives extra [] st no_more b = inr b
serve-Survives extra (r ∷ rounds) st (and_more ok rest) b =
    let out = after_poll r r.polled st in
    next_round-Survives extra (serve rounds) (out.0) (out.1)
      (λ u c. serve-Survives extra rounds u rest c) (after_poll-Survives extra r r.polled st ok b)
