-- ===== src/ProducerConsumer/Invariant.antt =====
-- What the two threads keep: the mutex excludes them, the flag is set before the consumer reads,
-- and no signal is lost.
use cs_lab.Base.{
  ℕ, ◌≡◌, refl, Bool, true, false, ◌&&◌, not, Option, none, some, if◌then◌else◌, arith,
}
use cs_lab.ProducerConsumer.{
  Thread, producer, consumer, Shared, ProducerAt, to_lock, to_produce, to_flag, to_unlock, produced,
  ConsumerAt, to_enter, waiting, woken, to_receive, to_reset, to_leave, consumed, State, signal,
}

abbrev pub producer_holds : ProducerAt → Bool
producer_holds to_lock = false
producer_holds produced = false
producer_holds _ = true

abbrev pub consumer_holds : ConsumerAt → Bool
consumer_holds to_enter = false
consumer_holds waiting = false
consumer_holds woken = false
consumer_holds consumed = false
consumer_holds _ = true

abbrev pub has_value : ProducerAt → Bool
has_value to_lock = false
has_value to_produce = false
has_value _ = true

abbrev pub has_flag : ProducerAt → Bool
has_flag to_lock = false
has_flag to_produce = false
has_flag to_flag = false
has_flag _ = true

abbrev pub has_signalled : ProducerAt → Bool
has_signalled to_unlock = true
has_signalled produced = true
has_signalled _ = false

abbrev pub is_waiting : ConsumerAt → Bool
is_waiting waiting = true
is_waiting _ = false

-- Behind the loop
abbrev pub has_passed : ConsumerAt → Bool
has_passed to_receive = true
has_passed to_reset = true
has_passed to_leave = true
has_passed consumed = true
has_passed _ = false

abbrev pub has_received : ConsumerAt → Bool
has_received to_reset = true
has_received to_leave = true
has_received consumed = true
has_received _ = false

abbrev pub has_reset : ConsumerAt → Bool
has_reset to_leave = true
has_reset consumed = true
has_reset _ = false

abbrev pub holder : Bool → Bool → Option Thread
holder true c = some producer
holder false true = some consumer
holder false false = none

pub record IsSafe (p : ProducerAt) (c : ConsumerAt) (m : Shared) : Type 0 where
  pub mutex : m.owner ≡ holder (producer_holds p) (consumer_holds c)
  pub exclusive : producer_holds p && consumer_holds c ≡ false
  pub value : m.value ≡ (if has_value p then 100 else 0)
  pub flag : m.has_data ≡ (if has_flag p && not (has_reset c) then 1 else 0)
  pub no_lost_signal : is_waiting c && has_signalled p ≡ false
  pub order : has_passed c && not (has_flag p) ≡ false
  pub result : m.received ≡ (if has_received c then some 100 else none)

abbrev pub Safe : State → Type 0
Safe s = IsSafe s.producer_at s.consumer_at s.shared

pub and_false : (b : Bool) → b && false ≡ false
and_false true = refl
and_false false = refl

pub has_100 :
    (p : ProducerAt) → not (has_flag p) ≡ false → ◌≡◌ {A = ℕ} (if has_value p then 100 else 0) 100
has_100 p h = ground arith

pub holder_free : (b c : Bool) → none ≡ holder b c → (b ≡ false) × (c ≡ false)
holder_free true c e = grind arith
holder_free false true e = grind arith
holder_free false false e = (refl, refl)

pub not_reset : (c : ConsumerAt) → has_passed c && true ≡ false → not (has_reset c) ≡ true
not_reset c h = ground arith

pub signal_lem :
    (c : ConsumerAt)
    → (consumer_holds (signal c) ≡ consumer_holds c)
      × (is_waiting (signal c) ≡ false)
      × (has_passed (signal c) ≡ has_passed c)
      × (has_received (signal c) ≡ has_received c)
      × (has_reset (signal c) ≡ has_reset c)
unfolding signal
signal_lem c = ground arith
