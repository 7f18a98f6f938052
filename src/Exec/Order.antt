-- ===== src/Exec/Order.antt =====
-- The parent reports last, whatever the order of the two processes.
use cs_lab.Base.{
  ℕ, ◌≤◌, ◌≡◌, refl, Bool, true, false, none, some, List, [], ◌∷◌, ◌++◌, arith, inl, inr,
  if◌then◌else◌,
}
use cs_lab.Interleaving.{or_else-cases, or_else-neither, Ending, run-IsFinished}
use cs_lab.Exec.Invariant.{
  said_by, IsSafe, Safe, measure, Advances, exec-moves, child_step-Advances, parent_step-Advances,
}
use cs_lab.Exec.{
  Line, before_exec, should_not_print, parent_is_done, ChildAt, no_child, to_announce, to_exec,
  replaced, to_warn, exited, ParentAt, to_wait, to_report, parent_done, State, state, child_step,
  wait, parent_step, Process, parent, child, any_step, start, run,
}

module _ (forks execs : Bool) where
  any_step-Advances :
      (who : Process) (s t : State)
      → any_step execs who s ≡ some t
      → Safe forks execs s
      → Advances forks execs (measure s) t
  unfolding any_step
  any_step-Advances who s t e h =
      let p = parent_step s.parent s.child s.printed in
      let c = child_step execs s.parent s.child s.printed in
      let by_parent = parent_step-Advances forks execs s.parent s.child s.printed h t in
      let by_child = child_step-Advances forks execs s.parent s.child s.printed h t in
      elim who as (λ w. any_step execs w s ≡ some t → Advances forks execs (measure s) t) [
        | parent ↦ λ e. elim (or_else-cases p c t e) [ inl f ↦ by_parent f | inr f ↦ by_child f ]
        | child ↦ λ e. elim (or_else-cases c p t e) [ inl f ↦ by_child f | inr f ↦ by_parent f ]
      ]
        e

  -- What is printed in the end.
  abbrev pub Reported : State → Type 0
  Reported s =
      (s.parent ≡ parent_done)
      × (s.printed ≡ (if forks then said_by execs exited else []) ++ parent_is_done ∷ [])

  stuck-Reported :
      (p : ParentAt) (c : ChildAt) (l : List Line)
      → IsSafe forks execs p c l
      → parent_step p c l ≡ none
      → child_step execs p c l ≡ none
      → Reported (state p c l)
  unfolding parent_step wait child_step
  stuck-Reported to_wait no_child l h e f = absurd (grind arith)
  stuck-Reported to_wait exited l h e f = absurd (grind arith)
  stuck-Reported to_wait to_announce l h e f = absurd (grind arith)
  stuck-Reported to_wait to_exec l h e f = absurd (exec-moves execs to_wait l f)
  stuck-Reported to_wait replaced l h e f = absurd (grind arith)
  stuck-Reported to_wait to_warn l h e f = absurd (grind arith)
  stuck-Reported to_report c l h e f = absurd (grind arith)
  stuck-Reported parent_done no_child l (g, ended, p) e f = (refl, rw g p)
  stuck-Reported parent_done exited l (g, ended, p) e f = (refl, rw g p)
  stuck-Reported parent_done to_announce l (g, ended, p) e f = absurd ended
  stuck-Reported parent_done to_exec l (g, ended, p) e f = absurd ended
  stuck-Reported parent_done replaced l (g, ended, p) e f = absurd ended
  stuck-Reported parent_done to_warn l (g, ended, p) e f = absurd ended

  any_step-Reported :
      (who : Process) (s : State) → any_step execs who s ≡ none → Safe forks execs s → Reported s
  unfolding any_step
  any_step-Reported who s e h =
      let p = parent_step s.parent s.child s.printed in
      let c = child_step execs s.parent s.child s.printed in
      elim who as (λ w. any_step execs w s ≡ none → Reported s) [
        | parent ↦ λ e.
            let both = or_else-neither p c e in
            stuck-Reported s.parent s.child s.printed h both.0 both.1
        | child ↦ λ e.
            let both = or_else-neither c p e in
            stuck-Reported s.parent s.child s.printed h both.1 both.0
      ]
        e

  -- The two processes with the invariant, as a system that ends.
  abbrev system : Ending
  system = record {
    State = State;
    Choice = Process;
    next = any_step execs;
    measure = measure;
    IsSafe = Safe forks execs;
    IsFinished = Reported;
    moves = any_step-Advances;
    stops = any_step-Reported;
  }

start-Safe : (forks execs : Bool) → Safe forks execs (start forks)
unfolding start
start-Safe true execs = (refl, refl)
start-Safe false execs = (refl, refl)

start-measure : (forks : Bool) → measure (start forks) ≤ 5
unfolding start
start-measure true = omega arith
start-measure false = omega arith

-- With a terminal as its stdout, whatever the order of the two processes, whether `fork` succeeds
-- and `execl` finds its program, the parent is at its end after 5 steps; the line that should not
-- print is printed only where `execl` fails, and the parent reports last.
pub exec-reports :
    (forks execs : Bool) (chooses : ℕ → Process) (n : ℕ)
    → 5 ≤ n
    → let end = run execs chooses n (start forks) in
      (end.parent ≡ parent_done)
      × (end.printed
          ≡ (if forks
              then (if execs then before_exec ∷ [] else before_exec ∷ should_not_print ∷ [])
              else [])
            ++ parent_is_done ∷ [])
exec-reports forks execs chooses n le =
    run-IsFinished (system forks execs) chooses n (start forks) (start-Safe forks execs)
      (omega (arith, start-measure forks))
