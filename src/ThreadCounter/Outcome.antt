-- ===== src/ThreadCounter/Outcome.antt =====
-- What the two increments can come to.
use cs_lab.Base.{ℕ, ◌≤◌, ◌≡◌, refl, Option, none, some, arith, subst}
use cs_lab.Interleaving.{Ending, run-IsFinished}
use cs_lab.ThreadCounter.{
  WorkerAt, to_load, to_store, to_print, returned, State, worker, Thread, t1, t2, choose_first,
  choose_second, any_step, start, run,
}
use cs_lab.ThreadCounter.Invariant.{IsSafe, Safe, rank, measure, any_step-Moved, Moved-Safe}

-- Both threads have printed 1 or 2, and `count` is 1 or 2.
abbrev pub OneOrTwo : ℕ → Type 0
OneOrTwo n = (1 ≤ n) × (n ≤ 2)

abbrev pub Finished : State → Type 0
Finished s =
    (a : ℕ) × (b : ℕ) × (s.first ≡ returned a)
    × (s.second ≡ returned b)
    × OneOrTwo a
    × OneOrTwo b
    × OneOrTwo s.count

worker-none : (w : WorkerAt) (count : ℕ) → worker w count ≡ none → (a : ℕ) × (w ≡ returned a)
unfolding worker
worker-none to_load count e = absurd (grind arith)
worker-none (to_store loaded) count e = absurd (grind arith)
worker-none to_print count e = absurd (grind arith)
worker-none (returned printed) count e = (printed, refl)

choose_first-none :
    (s : State) (a b : Option (WorkerAt × ℕ)) → choose_first s a b ≡ none → (a ≡ none) × (b ≡ none)
unfolding choose_first
choose_first-none s (some a) b e = absurd (grind arith)
choose_first-none s none (some b) e = absurd (grind arith)
choose_first-none s none none e = (refl, refl)

choose_second-none :
    (s : State) (a b : Option (WorkerAt × ℕ)) → choose_second s a b ≡ none → (a ≡ none) × (b ≡ none)
unfolding choose_second
choose_second-none s a (some b) e = absurd (grind arith)
choose_second-none s (some a) none e = absurd (grind arith)
choose_second-none s none none e = (refl, refl)

both_returned :
    (a b : WorkerAt) (count : ℕ)
    → IsSafe a b count
    → (i : ℕ) × (a ≡ returned i)
    → (j : ℕ) × (b ≡ returned j)
    → Finished (record { first = a; second = b; count = count })
both_returned a b count h (i, e) (j, f) =
    let c = subst (λ u. IsSafe u b count) e h in
    let d = subst (λ u. IsSafe (returned i) u count) f c in
    (i, j, e, f, d.first, d.second, (d.counts.1 (omega arith), d.counts.0))

any_step-none : (who : Thread) (s : State) → any_step who s ≡ none → Safe s → Finished s
unfolding any_step
any_step-none t1 s e h =
    let n = choose_first-none s (worker s.first s.count) (worker s.second s.count) e in
    both_returned s.first s.second s.count h (worker-none s.first s.count n.0)
      (worker-none s.second s.count n.1)
any_step-none t2 s e h =
    let n = choose_second-none s (worker s.first s.count) (worker s.second s.count) e in
    both_returned s.first s.second s.count h (worker-none s.first s.count n.0)
      (worker-none s.second s.count n.1)

abbrev system : Ending
system = record {
  State = State;
  Choice = Thread;
  next = any_step;
  measure = measure;
  IsSafe = Safe;
  IsFinished = Finished;
  moves = λ who s t e h. Moved-Safe s t (any_step-Moved who s t e) h;
  stops = any_step-none;
}

start-Safe : Safe start
start-Safe = record { counts = (omega arith, λ h. absurd (omega arith)); first = tt; second = tt }

-- Whatever the order of their steps, the two threads are at their ends after 6 steps; the count is
-- then 1 or 2, and so is what each prints.
pub counter-finishes : (chooses : ℕ → Thread) (n : ℕ) → 6 ≤ n → Finished (run chooses n start)
unfolding measure rank
counter-finishes chooses n le = run-IsFinished system chooses n start start-Safe (omega arith)
