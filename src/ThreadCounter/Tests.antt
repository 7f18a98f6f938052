-- ===== src/ThreadCounter/Tests.antt =====
-- Runs of the two threads.
use cs_lab.Interleaving
use cs_lab.Base.{ℕ, ◌≡◌, refl, arith, ◌==◌, if◌then◌else◌}
use cs_lab.ThreadCounter.{
  t1, t2, Thread, returned, start, run, any_step, choose_first, choose_second, worker,
}
use cs_lab.ThreadCounter.Outcome.{Finished, counter-finishes}

-- The first thread runs to its end before the second.
run_in_turn : run (λ _. t1) 6 start ≡ record { first = returned 1; second = returned 2; count = 2 }
unfolding Interleaving.run Interleaving.run_on any_step choose_first choose_second worker
run_in_turn = refl

-- Both load before either stores: an increment is lost.
abbrev alternating : ℕ → Thread
alternating n = if (n == 5) then t1 else if (n == 3) then t1 else t2

run-alternating :
    run alternating 6 start ≡ record { first = returned 1; second = returned 1; count = 1 }
unfolding run_in_turn
run-alternating = refl

counter-finishes_example : Finished (run alternating 6 start)
counter-finishes_example = counter-finishes alternating 6 (omega arith)
