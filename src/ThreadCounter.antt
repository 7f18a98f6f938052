-- ===== src/ThreadCounter.antt =====
-- linux-process-lab/03-thread/thread.c: two threads that increment a global without a lock. `count++`
-- is a load and a store; a thread prints what it loads again.
pub mod Invariant
pub mod Outcome
mod Tests
use cs_lab.Interleaving
use cs_lab.Base.{ℕ, zero, suc, ◌+◌, Bool, Option, none, some}

-- Where a thread is: before its load, before its store of what it has loaded plus one, before its
-- print, and at the end with what it has printed.
pub data WorkerAt : Type 0 where
  to_load : WorkerAt
  to_store : ℕ → WorkerAt
  to_print : WorkerAt
  returned : ℕ → WorkerAt

pub record State : Type 0 where
  pub first : WorkerAt
  pub second : WorkerAt
  pub count : ℕ

-- A step of `worker`: the thread and `count` behind it, or none at the end.
unfoldable pub worker : WorkerAt → ℕ → Option (WorkerAt × ℕ)
worker to_load count = some (to_store count, count)
worker (to_store loaded) count = some (to_print, loaded + 1)
worker to_print count = some (returned count, count)
worker (returned printed) count = none

pub data Thread : Type 0 where
  t1 : Thread
  t2 : Thread

abbrev first_moved : State → WorkerAt × ℕ → State
first_moved s (w, count) = record { first = w; second = s.second; count = count }

abbrev second_moved : State → WorkerAt × ℕ → State
second_moved s (w, count) = record { first = s.first; second = w; count = count }

-- A step of the thread that is chosen, or of the other one where it has returned.
unfoldable pub choose_first : State → Option (WorkerAt × ℕ) → Option (WorkerAt × ℕ) → Option State
choose_first s (some a) b = some (first_moved s a)
choose_first s none (some b) = some (second_moved s b)
choose_first s none none = none

unfoldable pub choose_second : State → Option (WorkerAt × ℕ) → Option (WorkerAt × ℕ) → Option State
choose_second s a (some b) = some (second_moved s b)
choose_second s (some a) none = some (first_moved s a)
choose_second s none none = none

unfoldable pub any_step : Thread → State → Option State
any_step t1 s = choose_first s (worker s.first s.count) (worker s.second s.count)
any_step t2 s = choose_second s (worker s.first s.count) (worker s.second s.count)

-- `main` behind its two calls of `pthread_create`
abbrev pub start : State
start = record { first = to_load; second = to_load; count = 0 }

abbrev pub run : (ℕ → Thread) → ℕ → State → State
run = Interleaving.run any_step
