-- ===== src/ThreadServer/Tests.antt =====
-- A run of the server with a thread per connection.
use cs_lab.Base.{ℕ, true, false, [], ◌∷◌, none, some, refl, ◌≡◌, Bool, subst}
use cs_lab.Net.{opens, closes, sends, data_bytes, nothing_yet, take, Startup}
use cs_lab.ThreadServer.{
  unallocated, uninitialised, holds, write, State, Results, finished, to_accept, serve, accept,
  allocate, create, move, work, read_argument, handle_client, answer, Running, listening, main_runs,
  worker_runs, response,
}
use cs_lab.ThreadServer.Ownership.{Running-IsOwned}
use cs_lab.ThreadServer.Serving.{IsOwned}
use cs_lab.BlockingServer.{listen_on}
use mathlib.Core.Option.{some-injective, none-ne-some}

abbrev startup : Startup
startup = record {
  socket = some 3;
  options = true;
  bound = true;
  listening = true;
  nonblocking = record { flags = none; set = false };
}

abbrev started : State
started = record {
  main_at = to_accept;
  workers = [];
  effects = record { calls = opens 3 ∷ []; heap = λ a. unallocated };
}

run_started : Running 3 started
unfolding listen_on
run_started = listening startup (opens 3 ∷ []) refl

-- A call of the main thread other than `malloc`.
abbrev returned : ℕ → Bool → Results
returned fd created = record { accepted = some fd; allocated = none; created = created }

-- `malloc` that gives the cell 100.
abbrev at_100 : Results
at_100 = record { accepted = none; allocated = some 100; created = false }

module _ (s : State) where
  next :
      (fd : ℕ) (created : Bool) → Running 3 s → Running 3 (serve s.main_at (returned fd created) s)
  next fd created = main_runs (returned fd created) s (λ a e. absurd (none-ne-some _ e))

  next_malloc :
      s.effects.heap 100 ≡ unallocated → Running 3 s → Running 3 (serve s.main_at at_100 s)
  next_malloc free =
      main_runs at_100 s
        (λ a e. subst (λ b. s.effects.heap b ≡ unallocated) (some-injective _ _ e) free)

-- The first client is served to the end and its cell is free, and the second gets the cell again;
-- for that one there is no thread.
abbrev served : State
served = record {
  main_at = to_accept;
  workers = finished ∷ [];
  effects = record {
    calls = closes 5 ∷ opens 5 ∷ closes 4 ∷ sends 4 response ∷ opens 4 ∷ opens 3 ∷ [];
    heap =
        write
          (write
            (write
              (write (write (write (λ a. unallocated) 100 uninitialised) 100 (holds 4)) 100
                unallocated)
              100 uninitialised)
            100 (holds 5))
          100 unallocated;
  };
}

run_served : Running 3 served
unfolding serve accept allocate create work move read_argument handle_client answer take write
run_served =
    let created =
      next _ 0 true (next _ 0 false (next_malloc _ refl (next _ 4 false run_started))) in
    let read = worker_runs 0 nothing_yet _ created in
    let freed = worker_runs 0 nothing_yet _ read in
    let answered = worker_runs 0 (data_bytes (65 ∷ [])) _ freed in
    let done = worker_runs 0 nothing_yet _ answered in
    next _ 0 false
      (next _ 0 false (next _ 0 false (next _ 0 false (next_malloc _ refl (next _ 5 false done)))))

Running-IsOwned_example : IsOwned 3 served
Running-IsOwned_example = Running-IsOwned 3 served run_served
