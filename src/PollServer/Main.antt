-- ===== src/PollServer/Main.antt =====
-- Over a whole run every connection is closed exactly once.
use cs_lab.Base.{
  ℕ, zero, suc, ◌+◌, ◌≡◌, refl, Bool, Option, none, some, List, [], ◌∷◌, ◌==◌, ◌⊎◌, inl, inr, arith,
  sym, ◌∙◌, subst,
}
use cs_lab.Net.{Call, opens, Slot, Progress, goes_on, leaves_loop, exits, Startup}
use cs_lab.Net.Counts.{one, opened, closed, held, is_held}
use cs_lab.PollServer.{
  Server, Round, serve, close_slot, close_slots, clean_up, run_server, open_socket, configure, main,
  empty_slots, max_clients,
}
use cs_lab.PollServer.Orderly.{AllOrderly}
use cs_lab.PollServer.Rounds.{Survives, serve-Survives}

pub close_slot_lem :
    (d : ℕ) (fd : Option ℕ) (calls : List Call)
    → (opened d (close_slot fd calls) ≡ opened d calls)
      × (closed d (close_slot fd calls) ≡ is_held d fd + closed d calls)
unfolding close_slot opened closed is_held
close_slot_lem d none calls = (refl, omega arith)
close_slot_lem d (some fd) calls = (refl, refl)

close_slots_lem :
    (d : ℕ) (slots : List Slot) (calls : List Call)
    → (opened d (close_slots slots calls) ≡ opened d calls)
      × (closed d (close_slots slots calls) ≡ held d slots + closed d calls)
unfolding close_slots held
close_slots_lem d [] calls = (refl, omega arith)
close_slots_lem d (s ∷ rest) calls =
    let one_slot = close_slot_lem d s.fd calls in
    let others = close_slots_lem d rest (close_slot s.fd calls) in
    (others.0 ∙ one_slot.0, omega (arith, others.1, one_slot.1))

pub held-empty_slots : (d n : ℕ) (stack : Bool) → held d (empty_slots n stack) ≡ 0
unfolding held empty_slots is_held
held-empty_slots d zero stack = refl
held-empty_slots d (suc n) stack = omega (arith, held-empty_slots d n stack)

clean_up-closes :
    (fd : ℕ) (p : Progress) (st : Server)
    → Survives (λ d. one (fd == d)) (p, st)
    → (clean_up fd (p, st)).0 ≡ leaves_loop
    → (d : ℕ) → opened d (clean_up fd (p, st)).1 ≡ closed d (clean_up fd (p, st)).1
unfolding clean_up opened closed
clean_up-closes fd goes_on st s e d = grind arith
clean_up-closes fd exits st s e d = grind arith
clean_up-closes fd leaves_loop st (inl f) e d = grind arith
clean_up-closes fd leaves_loop st (inr b) e d =
    let c = close_slots_lem d st.slots st.calls in omega (arith, b d, c.0, c.1)

clean_up-ends : (fd : ℕ) (p : Progress) (st : Server) → (clean_up fd (p, st)).0 ≡ p
unfolding clean_up
clean_up-ends fd goes_on st = refl
clean_up-ends fd leaves_loop st = refl
clean_up-ends fd exits st = refl

serve_run :
    (fd : ℕ) (stack : Bool) (rounds : List Round)
    → AllOrderly rounds
    → Survives
        (λ d. one (fd == d))
        (serve rounds (record { slots = empty_slots max_clients stack; calls = opens fd ∷ [] }))
unfolding opened closed
serve_run fd stack rounds ok =
    serve-Survives (λ d. one (fd == d)) rounds
      (record { slots = empty_slots max_clients stack; calls = opens fd ∷ [] }) ok
      (λ d. omega (arith, held-empty_slots d 100 stack))

-- What `main` has at the end of its set-up: the listening socket, or it has failed.
configure-cases :
    (s : Startup) (fd : ℕ)
    → (configure s fd ≡ (some fd, opens fd ∷ [])) ⊎ ((configure s fd).0 ≡ none)
unfolding configure
configure-cases s fd = ground arith

abbrev ClosesAll : Progress × List Call → Type 0
ClosesAll (end, calls) = end ≡ leaves_loop → (d : ℕ) → opened d calls ≡ closed d calls

failed-ClosesAll :
    (o : Option ℕ) (stack : Bool) (rounds : List Round) (calls : List Call)
    → o ≡ none
    → ClosesAll (run_server stack rounds (o, calls))
unfolding run_server
failed-ClosesAll none stack rounds calls e = λ f. grind arith
failed-ClosesAll (some fd) stack rounds calls e = grind arith

served-ClosesAll :
    (fd : ℕ) (stack : Bool) (rounds : List Round)
    → AllOrderly rounds
    → ClosesAll (run_server stack rounds (some fd, opens fd ∷ []))
unfolding run_server
served-ClosesAll fd stack rounds ok =
    let out =
      serve rounds (record { slots = empty_slots max_clients stack; calls = opens fd ∷ [] }) in
    clean_up-closes fd (out.0) (out.1) (serve_run fd stack rounds ok)

run-ClosesAll :
    (s : Startup) (o : Option ℕ) (stack : Bool) (rounds : List Round)
    → AllOrderly rounds
    → ClosesAll (run_server stack rounds (open_socket s o))
unfolding open_socket
run-ClosesAll s none stack rounds ok = failed-ClosesAll none stack rounds [] refl
run-ClosesAll s (some fd) stack rounds ok = elim (configure-cases s fd) [
  | inl e ↦
      subst (λ out. ClosesAll (run_server stack rounds out)) (sym e)
        (served-ClosesAll fd stack rounds ok)
  | inr e ↦ failed-ClosesAll (configure s fd).0 stack rounds (configure s fd).1 e
]

-- When `main` of the poll server leaves its loop, every descriptor has been closed exactly as often
-- as it was opened, for all results of the system calls in which no slot is reported readable and
-- with an error or hang-up where `recv` then finds the end of the connection or fails.
pub main-closes_all :
    (s : Startup) (stack : Bool) (rounds : List Round)
    → AllOrderly rounds
    → (main s stack rounds).0 ≡ leaves_loop
    → (d : ℕ) → opened d (main s stack rounds).1 ≡ closed d (main s stack rounds).1
unfolding main
main-closes_all s stack rounds ok = run-ClosesAll s s.socket stack rounds ok
