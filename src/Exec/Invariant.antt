-- ===== src/Exec/Invariant.antt =====
-- What the two processes keep, and that they come to an end.
use cs_lab.Base.{
  ℕ, ◌+◌, ◌<◌, ◌≡◌, refl, Bool, true, false, none, List, [], ◌∷◌, ◌++◌, arith, inl, inr, ap,
  if◌then◌else◌, Bool-cases, ◌≢◌,
}
use cs_lab.Interleaving.{Keeps, Keeps-some, Keeps-none}
use cs_lab.Exec.{
  Line, before_exec, should_not_print, parent_is_done, ChildAt, no_child, to_announce, to_exec,
  replaced, to_warn, exited, ParentAt, to_wait, to_report, parent_done, State, child_step, wait,
  parent_step,
}

-- What the child has printed.
abbrev pub said_by : Bool → ChildAt → List Line
said_by execs no_child = []
said_by execs to_announce = []
said_by execs to_exec = before_exec ∷ []
said_by execs replaced = before_exec ∷ []
said_by execs to_warn = before_exec ∷ []
said_by execs exited = if execs then before_exec ∷ [] else before_exec ∷ should_not_print ∷ []

-- Whether `fork` and `execl` allow the child to be there.
abbrev pub IsPossible : (forks execs : Bool) → ChildAt → Type 0
IsPossible forks execs no_child = forks ≡ false
IsPossible forks execs to_announce = forks ≡ true
IsPossible forks execs to_exec = forks ≡ true
IsPossible forks execs replaced = (forks ≡ true) × (execs ≡ true)
IsPossible forks execs to_warn = (forks ≡ true) × (execs ≡ false)
IsPossible forks execs exited = forks ≡ true

abbrev pub HasEnded : ChildAt → Type 0
HasEnded no_child = Unit
HasEnded exited = Unit
HasEnded _ = ⊥

abbrev pub IsSafe : (forks execs : Bool) → ParentAt → ChildAt → List Line → Type 0
IsSafe forks execs to_wait c l = IsPossible forks execs c × (l ≡ said_by execs c)
IsSafe forks execs to_report c l = IsPossible forks execs c × HasEnded c × (l ≡ said_by execs c)
IsSafe forks execs parent_done c l =
    IsPossible forks execs c × HasEnded c × (l ≡ said_by execs c ++ parent_is_done ∷ [])

abbrev pub Safe : (forks execs : Bool) → State → Type 0
Safe forks execs s = IsSafe forks execs s.parent s.child s.printed

abbrev pub child_rank : ChildAt → ℕ
child_rank to_announce = 3
child_rank to_exec = 2
child_rank replaced = 1
child_rank to_warn = 1
child_rank no_child = 0
child_rank exited = 0

abbrev pub parent_rank : ParentAt → ℕ
parent_rank to_wait = 2
parent_rank to_report = 1
parent_rank parent_done = 0

abbrev pub measure : State → ℕ
measure s = parent_rank s.parent + child_rank s.child

-- `execl` is never the last step.
pub exec-moves : (execs : Bool) (p : ParentAt) (l : List Line) → child_step execs p to_exec l ≢ none
unfolding child_step
exec-moves true p l e = grind arith
exec-moves false p l e = grind arith

module _ (forks execs : Bool) where
  -- A step keeps the invariant and lowers the measure.
  abbrev pub Advances : ℕ → State → Type 0
  Advances before t = Safe forks execs t × (measure t < before)

  waiting_child-Advances :
      (c : ChildAt) (l : List Line)
      → IsSafe forks execs to_wait c l
      → Keeps (Advances (2 + child_rank c)) (child_step execs to_wait c l)
  unfolding child_step
  waiting_child-Advances no_child l h = Keeps-none _
  waiting_child-Advances to_announce l (f, e) =
      Keeps-some _ _ ((f, ap (λ m. m ++ before_exec ∷ []) e), omega arith)
  waiting_child-Advances to_exec l (f, e) = elim (Bool-cases execs) [
    | inl x ↦ rw x (Keeps-some _ _ (((f, refl), e), omega arith))
    | inr x ↦ rw x (Keeps-some _ _ (((f, refl), e), omega arith))
  ]
  waiting_child-Advances replaced l ((f, x), e) = Keeps-some _ _ ((f, rw x e), omega arith)
  waiting_child-Advances to_warn l ((f, x), e) =
      Keeps-some _ _ ((f, rw x (ap (λ m. m ++ should_not_print ∷ []) e)), omega arith)
  waiting_child-Advances exited l h = Keeps-none _

  ended_child :
      (p : ParentAt) (c : ChildAt) (l : List Line) → HasEnded c → child_step execs p c l ≡ none
  unfolding child_step
  ended_child p no_child l h = refl
  ended_child p exited l h = refl
  ended_child p to_announce l h = absurd h
  ended_child p to_exec l h = absurd h
  ended_child p replaced l h = absurd h
  ended_child p to_warn l h = absurd h

  pub child_step-Advances :
      (p : ParentAt) (c : ChildAt) (l : List Line)
      → IsSafe forks execs p c l
      → Keeps (Advances (parent_rank p + child_rank c)) (child_step execs p c l)
  unfolding child_step
  child_step-Advances to_wait c l h = waiting_child-Advances c l h
  child_step-Advances to_report c l (f, ended, e) =
      rw (ended_child to_report c l ended) (Keeps-none _)
  child_step-Advances parent_done c l (f, ended, e) =
      rw (ended_child parent_done c l ended) (Keeps-none _)

  pub parent_step-Advances :
      (p : ParentAt) (c : ChildAt) (l : List Line)
      → IsSafe forks execs p c l
      → Keeps (Advances (parent_rank p + child_rank c)) (parent_step p c l)
  unfolding parent_step wait
  parent_step-Advances to_wait no_child l (f, e) = Keeps-some _ _ ((f, tt, e), omega arith)
  parent_step-Advances to_wait exited l (f, e) = Keeps-some _ _ ((f, tt, e), omega arith)
  parent_step-Advances to_wait to_announce l h = Keeps-none _
  parent_step-Advances to_wait to_exec l h = Keeps-none _
  parent_step-Advances to_wait replaced l h = Keeps-none _
  parent_step-Advances to_wait to_warn l h = Keeps-none _
  parent_step-Advances to_report c l (f, ended, e) =
      Keeps-some _ _ ((f, ended, ap (λ m. m ++ parent_is_done ∷ []) e), omega arith)
  parent_step-Advances parent_done c l h = Keeps-none _
