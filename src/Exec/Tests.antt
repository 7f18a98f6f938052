-- ===== src/Exec/Tests.antt =====
-- Runs of the two processes.
use cs_lab.Interleaving
use cs_lab.Base.{◌≡◌, refl, true, false, [], ◌∷◌, arith}
use cs_lab.Exec.{
  before_exec, should_not_print, parent_is_done, parent_done, parent, child, run, any_step,
  child_step, parent_step, wait, start,
}
use cs_lab.Exec.Order.{exec-reports}

-- The other program is not found.
run-missing :
    (run false (λ n. parent) 5 (start true)).printed
    ≡ before_exec ∷ should_not_print ∷ parent_is_done ∷ []
unfolding Interleaving.run Interleaving.run_on Interleaving.or_else any_step child_step parent_step
    wait start
run-missing = refl

exec-reports_example :
    let end = run true (λ n. child) 7 (start true) in
    (end.parent ≡ parent_done) × (end.printed ≡ before_exec ∷ parent_is_done ∷ [])
exec-reports_example = exec-reports true true (λ n. child) 7 (omega arith)
