-- ===== src/ProducerConsumer/Reach.antt =====
-- What holds in every state that the threads reach, and that they never stop early.
use cs_lab.Base.{◌≡◌, refl, ap, ◌∙◌, true, false, Option, none, some, if◌then◌else◌, arith}
use mathlib.Core.Option.{map}
use cs_lab.Interleaving.{Keeps}
use cs_lab.ProducerConsumer.{
  Thread, producer, consumer, Shared, ProducerAt, to_lock, to_produce, to_flag, to_signal,
  to_unlock, produced, ConsumerAt, to_enter, to_test, waiting, woken, to_receive, to_reset,
  to_leave, consumed, State, state, lock, produce, consume, step, start, Reached, started, stepped,
  spurious,
}
use cs_lab.ProducerConsumer.Invariant.{consumer_holds, has_received, holder, IsSafe, Safe}
use cs_lab.ProducerConsumer.Produce.{produce-Keeps}
use cs_lab.ProducerConsumer.Consume.{consume-Keeps}

pub step-Keeps : (who : Thread) (s : State) → Safe s → Keeps Safe (step who s)
unfolding step
step-Keeps producer s h = produce-Keeps s.producer_at s.consumer_at s.shared h
step-Keeps consumer s h = consume-Keeps s.producer_at s.consumer_at s.shared h

pub start-Safe : Safe start
start-Safe = record {
  mutex = refl;
  exclusive = refl;
  value = refl;
  flag = refl;
  no_lost_signal = refl;
  order = refl;
  result = refl;
}

-- In every state that the two threads reach, spurious wakeups included: at most one of them is
-- between lock and unlock, and it holds the mutex; the globals have the values that the places of
-- the threads give; the consumer does not wait behind the signal, is past its loop only if the flag
-- was set, and has received 100 or nothing.
pub Reached-Safe : (s : State) → Reached s → Safe s
Reached-Safe s started = start-Safe
Reached-Safe s (stepped who u _ r e) = step-Keeps who u (Reached-Safe u r) s e
Reached-Safe s (spurious p m r) =
    let h = Reached-Safe (state p waiting m) r in
    record {
      mutex = h.mutex;
      exclusive = h.exclusive;
      value = h.value;
      flag = h.flag;
      no_lost_signal = refl;
      order = h.order;
      result = h.result;
    }

-- Where the mutex is free, a lock succeeds.
locked_free :
    (w : Thread) (o : Option Thread) (m : Shared) → o ≡ none → lock w o m ≡ none → true ≡ false
unfolding lock
locked_free w none m e f = grind arith
locked_free w (some v) m e f = grind arith

locked : (w : Thread) (m : Shared) → m.owner ≡ none → lock w m.owner m ≡ none → true ≡ false
locked w m = locked_free w m.owner m

map-none : {A B : Type 0} (f : A → B) (o : Option A) → map f o ≡ none → o ≡ none
map-none f none e = refl
map-none f (some a) e = grind arith

-- The consumer holds the mutex and can move, or does not hold it.
busy :
    (p : ProducerAt) (c : ConsumerAt) (m : Shared) → consume p c m ≡ none → consumer_holds c ≡ false
unfolding consume
busy p to_enter m e = refl
busy p to_test m e = ground arith
busy p waiting m e = refl
busy p woken m e = refl
busy p to_receive m e = grind arith
busy p to_reset m e = grind arith
busy p to_leave m e = grind arith
busy p consumed m e = refl

consumer_stuck :
    (c : ConsumerAt) (m : Shared) → IsSafe produced c m → consume produced c m ≡ none → c ≡ consumed
unfolding consume
consumer_stuck to_enter m h e = grind (arith, locked consumer m h.mutex (map-none _ _ e))
consumer_stuck to_test m h e = grind (arith, busy produced to_test m e)
consumer_stuck waiting m h e = grind (arith, h.no_lost_signal)
consumer_stuck woken m h e = grind (arith, locked consumer m h.mutex (map-none _ _ e))
consumer_stuck to_receive m h e = grind arith
consumer_stuck to_reset m h e = grind arith
consumer_stuck to_leave m h e = grind arith
consumer_stuck consumed m h e = refl

both_stuck :
    (p : ProducerAt) (c : ConsumerAt) (m : Shared)
    → IsSafe p c m
    → produce p c m ≡ none
    → consume p c m ≡ none
    → (p ≡ produced) × (c ≡ consumed)
unfolding produce
both_stuck to_lock c m h e f =
    let free = h.mutex ∙ ap (holder false) (busy to_lock c m f) in
    grind (arith, locked producer m free (map-none _ _ e))
both_stuck to_produce c m h e f = grind arith
both_stuck to_flag c m h e f = grind arith
both_stuck to_signal c m h e f = grind arith
both_stuck to_unlock c m h e f = grind arith
both_stuck produced c m h e f = (refl, consumer_stuck c m h f)

-- Nobody can move.
abbrev pub IsStuck : State → Type 0
IsStuck s = (who : Thread) → step who s ≡ none

pub Safe-finished :
    (s : State)
    → Safe s
    → IsStuck s
    → (s.producer_at ≡ produced) × (s.consumer_at ≡ consumed) × (s.shared.received ≡ some 100)
unfolding step
Safe-finished s h stuck =
    let ends =
      both_stuck s.producer_at s.consumer_at s.shared h (stuck producer) (stuck consumer) in
    (ends.0, ends.1, h.result ∙ ap (λ c. if has_received c then some 100 else none) (ends.1))

-- In every state that the producer and the consumer reach, spurious wakeups included, in which
-- neither can move, both are at their end and the consumer has received 100: there is no deadlock
-- and no lost signal.
pub Reached-finished :
    (s : State)
    → Reached s
    → IsStuck s
    → (s.producer_at ≡ produced) × (s.consumer_at ≡ consumed) × (s.shared.received ≡ some 100)
Reached-finished s r = Safe-finished s (Reached-Safe s r)
