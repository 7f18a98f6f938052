-- ===== src/ProducerConsumer/Termination.antt =====
-- Every schedule without spurious wakeups ends, with both threads done.
use cs_lab.Base.{
  ◌*◌, ◌<◌, ◌≤◌, ℕ, ◌+◌, ◌≡◌, subst, Bool, true, false, Option, none, some, ◌==◌, if◌then◌else◌,
  arith, inl, inr,
}
use mathlib.Core.Option.{map, some-injective}
use cs_lab.ProducerConsumer.{
  any_step, other, run, Thread, producer, consumer, Shared, ProducerAt, to_lock, to_produce,
  to_flag, to_signal, to_unlock, produced, ConsumerAt, to_enter, to_test, waiting, woken,
  to_receive, to_reset, to_leave, consumed, State, state, lock, signal, produce, consume, step,
  start, Reached, stepped,
}
use cs_lab.ProducerConsumer.Invariant.{Safe}
use cs_lab.ProducerConsumer.Reach.{step-Keeps, start-Safe, IsStuck, Safe-finished}
use cs_lab.Interleaving.{or_else-cases, or_else-neither, Ending, run-IsFinished, run-keeps}

abbrev producer_rank : ProducerAt → ℕ
producer_rank to_lock = 5
producer_rank to_produce = 4
producer_rank to_flag = 3
producer_rank to_signal = 2
producer_rank to_unlock = 1
producer_rank produced = 0

abbrev consumer_rank : ConsumerAt → ℕ
consumer_rank to_enter = 8
consumer_rank woken = 7
consumer_rank to_test = 6
consumer_rank waiting = 5
consumer_rank to_receive = 4
consumer_rank to_reset = 3
consumer_rank to_leave = 2
consumer_rank consumed = 1

-- A signal makes the consumer test once more, which the producer's progress outweighs.
abbrev measure : State → ℕ
measure s = 10 * producer_rank s.producer_at + consumer_rank s.consumer_at

abbrev Lowers : ℕ → Option State → Type 0
Lowers n o = (t : State) → o ≡ some t → measure t < n

Lowers-some : (n : ℕ) (s : State) → measure s < n → Lowers n (some s)
Lowers-some n s h t e = subst (λ u. measure u < n) (some-injective _ _ e) h

Lowers-none : (n : ℕ) → Lowers n none
Lowers-none n t e = grind arith

Lowers-lock :
    (n : ℕ) (w : Thread) (o : Option Thread) (p : ProducerAt) (c : ConsumerAt) (m : Shared)
    → ((u : Shared) → measure (state p c u) < n)
    → Lowers n (map (state p c) (lock w o m))
unfolding lock
Lowers-lock n w none p c m h = Lowers-some n _ (h (record m { owner = some w }))
Lowers-lock n w (some v) p c m h = Lowers-none n

signal_rank : (c : ConsumerAt) → consumer_rank (signal c) ≤ consumer_rank c + 2
unfolding signal
signal_rank c = ground arith

produce-Lowers :
    (p : ProducerAt) (c : ConsumerAt) (m : Shared) → Lowers (measure (state p c m)) (produce p c m)
unfolding produce
produce-Lowers to_lock c m = Lowers-lock _ producer m.owner to_produce c m (λ u. omega arith)
produce-Lowers to_produce c m = Lowers-some _ _ (omega arith)
produce-Lowers to_flag c m = Lowers-some _ _ (omega arith)
produce-Lowers to_signal c m = Lowers-some _ _ (omega (arith, signal_rank c))
produce-Lowers to_unlock c m = Lowers-some _ _ (omega arith)
produce-Lowers produced c m = Lowers-none _

test-Lowers :
    (b : Bool) (p : ProducerAt) (m : Shared)
    → Lowers (measure (state p to_test m)) (
        if b
        then some (state p waiting (record m { owner = none }))
        else some (state p to_receive m))
test-Lowers true p m = Lowers-some _ _ (omega arith)
test-Lowers false p m = Lowers-some _ _ (omega arith)

consume-Lowers :
    (p : ProducerAt) (c : ConsumerAt) (m : Shared) → Lowers (measure (state p c m)) (consume p c m)
unfolding consume
consume-Lowers p to_enter m = Lowers-lock _ consumer m.owner p to_test m (λ u. omega arith)
consume-Lowers p to_test m = test-Lowers (m.has_data == 0) p m
consume-Lowers p waiting m = Lowers-none _
consume-Lowers p woken m = Lowers-lock _ consumer m.owner p to_test m (λ u. omega arith)
consume-Lowers p to_receive m = Lowers-some _ _ (omega arith)
consume-Lowers p to_reset m = Lowers-some _ _ (omega arith)
consume-Lowers p to_leave m = Lowers-some _ _ (omega arith)
consume-Lowers p consumed m = Lowers-none _

step-Lowers : (who : Thread) (s : State) → Lowers (measure s) (step who s)
unfolding step
step-Lowers producer s = produce-Lowers s.producer_at s.consumer_at s.shared
step-Lowers consumer s = consume-Lowers s.producer_at s.consumer_at s.shared

any_step-IsStuck : (who : Thread) (s : State) → any_step who s ≡ none → IsStuck s
unfolding any_step other
any_step-IsStuck producer s e =
    let both = or_else-neither (step producer s) (step consumer s) e in
    λ w. elim w as (λ w. step w s ≡ none) [ producer ↦ both.0 | consumer ↦ both.1 ]
any_step-IsStuck consumer s e =
    let both = or_else-neither (step consumer s) (step producer s) e in
    λ w. elim w as (λ w. step w s ≡ none) [ producer ↦ both.1 | consumer ↦ both.0 ]

any_step-moves :
    (who : Thread) (s t : State)
    → any_step who s ≡ some t
    → Safe s
    → Safe t × (measure t < measure s)
unfolding any_step
any_step-moves who s t e h = elim (or_else-cases (step who s) (step (other who) s) t e) [
  | inl f ↦ (step-Keeps who s h t f, step-Lowers who s t f)
  | inr f ↦ (step-Keeps (other who) s h t f, step-Lowers (other who) s t f)
]

abbrev Finished : State → Type 0
Finished s =
    (s.producer_at ≡ produced) × (s.consumer_at ≡ consumed) × (s.shared.received ≡ some 100)

-- The two threads with the invariant, as a system that ends.
abbrev system : Ending
system = record {
  State = State;
  Choice = Thread;
  next = any_step;
  measure = measure;
  IsSafe = Safe;
  IsFinished = Finished;
  moves = λ who s t e h. any_step-moves who s t e h;
  stops = λ who s e h. Safe-finished s h (any_step-IsStuck who s e);
}

-- Whatever the order in which the two threads are scheduled, without spurious wakeups both are at
-- their end after 58 steps, and the consumer has received 100.
pub run-finishes :
    (chooses : ℕ → Thread) (n : ℕ)
    → 58 ≤ n
    → let end = run chooses n start in
      (end.producer_at ≡ produced) × (end.consumer_at ≡ consumed) × (end.shared.received ≡ some 100)
run-finishes chooses n le = run-IsFinished system chooses n start start-Safe le

any_step-Reached : (who : Thread) (s t : State) → any_step who s ≡ some t → Reached s → Reached t
unfolding any_step
any_step-Reached who s t e r = elim (or_else-cases (step who s) (step (other who) s) t e) [
  | inl f ↦ stepped who s t r f
  | inr f ↦ stepped (other who) s t r f
]

-- A run stays in the states that the threads reach.
pub run-Reached : (chooses : ℕ → Thread) (n : ℕ) (s : State) → Reached s → Reached (run chooses n s)
run-Reached = run-keeps any_step Reached any_step-Reached
