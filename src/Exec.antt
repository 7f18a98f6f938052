-- ===== src/Exec.antt =====
-- linux-process-lab/02-exec/exec.c: a child that replaces itself by another program, and a parent
-- that waits for it. The two processes are interleaved; of the other program only its end is seen.
-- They print to a terminal, where a line is written when it is printed.
pub mod Invariant
pub mod Order
mod Tests
use cs_lab.Interleaving
use cs_lab.Interleaving.{or_else}
use cs_lab.Base.{ℕ, Bool, true, false, Option, none, some, List, [], ◌∷◌, ◌++◌}

-- What the processes print, with the lines that should not appear.
pub data Line : Type 0 where
  before_exec : Line
  should_not_print : Line
  parent_is_done : Line

-- Where the child is: not there, before its first print, before `execl`, in the other program,
-- behind `execl`, ended.
pub data ChildAt : Type 0 where
  no_child : ChildAt
  to_announce : ChildAt
  to_exec : ChildAt
  replaced : ChildAt
  to_warn : ChildAt
  exited : ChildAt

-- Where the parent is: before `wait`, before its print, at the end.
pub data ParentAt : Type 0 where
  to_wait : ParentAt
  to_report : ParentAt
  parent_done : ParentAt

pub record State : Type 0 where
  pub parent : ParentAt
  pub child : ChildAt
  pub printed : List Line

abbrev pub state : ParentAt → ChildAt → List Line → State
state p c l = record { parent = p; child = c; printed = l }

-- A step of the child; `execs` is whether `execl` finds its program.
unfoldable pub child_step : Bool → ParentAt → ChildAt → List Line → Option State
child_step execs p no_child l = none
child_step execs p to_announce l = some (state p to_exec (l ++ before_exec ∷ []))
child_step true p to_exec l = some (state p replaced l)
child_step false p to_exec l = some (state p to_warn l)
child_step execs p replaced l = some (state p exited l)
child_step execs p to_warn l = some (state p exited (l ++ should_not_print ∷ []))
child_step execs p exited l = none

-- `wait` blocks while the child runs, and returns at once where there is none.
unfoldable pub wait : ChildAt → List Line → Option State
wait no_child l = some (state to_report no_child l)
wait exited l = some (state to_report exited l)
wait to_announce l = none
wait to_exec l = none
wait replaced l = none
wait to_warn l = none

unfoldable pub parent_step : ParentAt → ChildAt → List Line → Option State
parent_step to_wait c l = wait c l
parent_step to_report c l = some (state parent_done c (l ++ parent_is_done ∷ []))
parent_step parent_done c l = none

pub data Process : Type 0 where
  parent : Process
  child : Process

unfoldable pub any_step : Bool → Process → State → Option State
any_step execs parent s =
    or_else (parent_step s.parent s.child s.printed) (child_step execs s.parent s.child s.printed)
any_step execs child s =
    or_else (child_step execs s.parent s.child s.printed) (parent_step s.parent s.child s.printed)

-- Behind `fork`. Where it fails, its result -1 takes the branch of the parent.
unfoldable pub start : (forks : Bool) → State
start true = state to_wait to_announce []
start false = state to_wait no_child []

abbrev pub run : (execs : Bool) → (ℕ → Process) → ℕ → State → State
run execs = Interleaving.run (any_step execs)
