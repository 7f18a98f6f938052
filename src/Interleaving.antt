-- ===== src/Interleaving.antt =====
-- Systems that run by choices of an environment, which says who moves next. A system whose moves
-- keep an invariant and lower a measure ends under every sequence of choices, where the invariant
-- and a stop together are the goal.
use cs_lab.Base.{ℕ, zero, suc, ◌≤◌, ◌<◌, ◌≡◌, refl, Option, none, some, arith, subst, ◌⊎◌, inl, inr}
use mathlib.Core.Option.{some-injective}

-- A run of at most `n` moves.
module _ {State Choice : Type 0} (next : Choice → State → Option State) where
  unfoldable pub run_on : State → (State → State) → Option State → State
  run_on s later none = s
  run_on s later (some t) = later t

  unfoldable pub run : (ℕ → Choice) → ℕ → State → State
  run choices zero s = s
  run choices (suc n) s = run_on s (run choices n) (next (choices n) s)

  -- What every move keeps holds at the end of a run.
  module _ (P : State → Type 0)
      (keeps : (c : Choice) (s t : State) → next c s ≡ some t → P s → P t) where
    run_on-keeps :
        (c : Choice) (s : State) (later : State → State) (o : Option State)
        → ((t : State) → P t → P (later t))
        → P s
        → next c s ≡ o
        → P (run_on s later o)
    unfolding run_on
    run_on-keeps c s later none ih p e = p
    run_on-keeps c s later (some t) ih p e = ih t (keeps c s t e p)

    pub run-keeps : (choices : ℕ → Choice) (n : ℕ) (s : State) → P s → P (run choices n s)
    unfolding run
    run-keeps choices zero s p = p
    run-keeps choices (suc n) s p =
        run_on-keeps (choices n) s (run choices n) (next (choices n) s) (run-keeps choices n) p refl

-- The move of the one that is chosen or, where it cannot move, that of another.
module _ {State : Type 0} where
  unfoldable pub or_else : Option State → Option State → Option State
  or_else (some t) alternative = some t
  or_else none alternative = alternative

  pub or_else-cases :
      (a b : Option State) (t : State) → or_else a b ≡ some t → (a ≡ some t) ⊎ (b ≡ some t)
  unfolding or_else
  or_else-cases none b t e = inr e
  or_else-cases (some u) b t e = inl e

  pub or_else-neither : (a b : Option State) → or_else a b ≡ none → (a ≡ none) × (b ≡ none)
  unfolding or_else
  or_else-neither none b e = (refl, e)
  or_else-neither (some u) b e = absurd (grind arith)

-- What a system shows to have that its runs end.
pub record Ending : Type 1 where
  pub State : Type 0
  pub Choice : Type 0
  pub next : Choice → State → Option State
  pub measure : State → ℕ
  pub IsSafe : State → Type 0
  pub IsFinished : State → Type 0
  pub moves :
      (c : Choice) (s t : State) → next c s ≡ some t → IsSafe s → IsSafe t × (measure t < measure s)
  pub stops : (c : Choice) (s : State) → next c s ≡ none → IsSafe s → IsFinished s

module _ (sys : Ending) where
  open sys use {State, Choice, next, measure, IsSafe, IsFinished, moves, stops}

  run_on-IsFinished :
      (n : ℕ) (c : Choice) (s : State) (later : State → State) (o : Option State)
      → ((t : State) → IsSafe t → measure t ≤ n → IsFinished (later t))
      → IsSafe s
      → measure s ≤ suc n
      → next c s ≡ o
      → IsFinished (run_on next s later o)
  unfolding run_on
  run_on-IsFinished n c s later none ih safe le e = stops c s e safe
  run_on-IsFinished n c s later (some t) ih safe le e =
      let moved = moves c s t e safe in ih t moved.0 (omega (arith, moved.1))

  -- A state of measure 0 cannot move.
  rests :
      (c : Choice) (s : State) (o : Option State)
      → IsSafe s
      → measure s ≤ 0
      → next c s ≡ o
      → IsFinished s
  rests c s none safe le e = stops c s e safe
  rests c s (some t) safe le e = absurd (omega (arith, (moves c s t e safe).1))

  pub run-IsFinished :
      (choices : ℕ → Choice) (n : ℕ) (s : State)
      → IsSafe s
      → measure s ≤ n
      → IsFinished (run next choices n s)
  unfolding run
  run-IsFinished choices zero s safe le = rests (choices 0) s (next (choices 0) s) safe le refl
  run-IsFinished choices (suc n) s safe le =
      run_on-IsFinished n (choices n) s (run next choices n) (next (choices n) s)
        (run-IsFinished choices n) safe le refl

-- What holds of the state behind a step, if the step can be made.
module _ {State : Type 0} (P : State → Type 0) where
  abbrev pub Keeps : Option State → Type 0
  Keeps o = (t : State) → o ≡ some t → P t

  pub Keeps-some : (s : State) → P s → Keeps (some s)
  Keeps-some s p t e = subst P (some-injective _ _ e) p

  pub Keeps-none : Keeps none
  Keeps-none t e = absurd (grind arith)
