-- ===== src/ProducerConsumer.antt =====
-- linux-process-lab/03-thread/condition-variable/producer_consumer.c: two threads with a mutex and
-- a condition variable. A step is a statement of one thread; `pthread_cond_wait` is three: it
-- releases the mutex and waits, is woken, and takes the mutex again.
pub mod Invariant
pub mod Produce
pub mod Consume
pub mod Reach
pub mod Termination
mod Tests
use cs_lab.Interleaving
use cs_lab.Interleaving.{or_else}
use cs_lab.Base.{ℕ, zero, suc, ◌+◌, ◌≡◌, Bool, true, false, Option, none, some, ◌==◌, if◌then◌else◌}
use mathlib.Core.Option.{map}

pub data Thread : Type 0 where
  producer : Thread
  consumer : Thread

-- The globals, who holds the mutex, and what the consumer has printed as received.
pub record Shared : Type 0 where
  pub value : ℕ
  pub has_data : ℕ
  pub owner : Option Thread
  pub received : Option ℕ

-- Where the producer is: before the lock, before each of the two assignments, before the signal,
-- before the unlock, at the end.
pub data ProducerAt : Type 0 where
  to_lock : ProducerAt
  to_produce : ProducerAt
  to_flag : ProducerAt
  to_signal : ProducerAt
  to_unlock : ProducerAt
  produced : ProducerAt

-- Where the consumer is: before the lock, at the test of the loop, waiting on `cond`, woken and
-- before the lock inside `pthread_cond_wait`, before the print, the reset, the unlock, at the end.
pub data ConsumerAt : Type 0 where
  to_enter : ConsumerAt
  to_test : ConsumerAt
  waiting : ConsumerAt
  woken : ConsumerAt
  to_receive : ConsumerAt
  to_reset : ConsumerAt
  to_leave : ConsumerAt
  consumed : ConsumerAt

pub record State : Type 0 where
  pub producer_at : ProducerAt
  pub consumer_at : ConsumerAt
  pub shared : Shared

abbrev pub state : ProducerAt → ConsumerAt → Shared → State
state p c m = record { producer_at = p; consumer_at = c; shared = m }

-- `pthread_mutex_lock` goes on only where nobody holds the mutex.
unfoldable pub lock : Thread → Option Thread → Shared → Option Shared
lock who none m = some (record m { owner = some who })
lock who (some other) m = none

-- `pthread_cond_signal`
unfoldable pub signal : ConsumerAt → ConsumerAt
signal waiting = woken
signal to_enter = to_enter
signal to_test = to_test
signal woken = woken
signal to_receive = to_receive
signal to_reset = to_reset
signal to_leave = to_leave
signal consumed = consumed

-- A step of `producer`, or none where it is blocked or done.
unfoldable pub produce : ProducerAt → ConsumerAt → Shared → Option State
produce to_lock c m = map (state to_produce c) (lock producer m.owner m)
produce to_produce c m = some (state to_flag c (record m { value = 100 }))
produce to_flag c m = some (state to_signal c (record m { has_data = 1 }))
produce to_signal c m = some (state to_unlock (signal c) m)
produce to_unlock c m = some (state produced c (record m { owner = none }))
produce produced c m = none

-- A step of `consumer`.
unfoldable pub consume : ProducerAt → ConsumerAt → Shared → Option State
consume p to_enter m = map (state p to_test) (lock consumer m.owner m)
consume p to_test m =
    if m.has_data == 0
    then some (state p waiting (record m { owner = none }))
    else some (state p to_receive m)
consume p waiting m = none
consume p woken m = map (state p to_test) (lock consumer m.owner m)
consume p to_receive m = some (state p to_reset (record m { received = some m.value }))
consume p to_reset m = some (state p to_leave (record m { has_data = 0 }))
consume p to_leave m = some (state p consumed (record m { owner = none }))
consume p consumed m = none

unfoldable pub step : Thread → State → Option State
step producer s = produce s.producer_at s.consumer_at s.shared
step consumer s = consume s.producer_at s.consumer_at s.shared

-- The start of both threads.
abbrev pub start : State
start = state to_lock to_enter (record { value = 0; has_data = 0; owner = none; received = none })

-- The states that the threads reach. A wait may end without a signal.
pub data Reached : State → Type 0 where
  started : Reached start
  stepped : (who : Thread) (s t : State) → Reached s → step who s ≡ some t → Reached t
  spurious : (p : ProducerAt) (m : Shared) → Reached (state p waiting m) → Reached (state p woken m)

-- A run of at most `n` steps, in which `chooses` says who is to move next; where that thread cannot,
-- the other one does.
unfoldable pub other : Thread → Thread
other producer = consumer
other consumer = producer

unfoldable pub any_step : Thread → State → Option State
any_step who s = or_else (step who s) (step (other who) s)

abbrev pub run : (chooses : ℕ → Thread) → ℕ → State → State
run = Interleaving.run any_step
