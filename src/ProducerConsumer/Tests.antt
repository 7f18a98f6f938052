-- ===== src/ProducerConsumer/Tests.antt =====
-- Runs of the producer and the consumer.
use cs_lab.Interleaving
use cs_lab.Base.{ℕ, ◌≡◌, refl, arith, none, some}
use cs_lab.ProducerConsumer.{
  Thread, producer, consumer, state, start, step, produce, consume, lock, signal, run, any_step,
  other, produced, consumed, waiting, Reached, started,
}
use cs_lab.ProducerConsumer.Invariant.{Safe}
use cs_lab.ProducerConsumer.Reach.{Reached-Safe, Reached-finished, IsStuck}
use cs_lab.ProducerConsumer.Termination.{run-finishes, run-Reached}

abbrev consumer_first : ℕ → Thread
consumer_first n = consumer

-- The consumer comes first and waits, and receives what the producer left.
run_consumer_first :
    run consumer_first 58 start
    ≡ state produced consumed
        (record { value = 100; has_data = 0; owner = none; received = some 100 })
unfolding Interleaving.run Interleaving.run_on any_step Interleaving.or_else other step produce
    consume lock signal
run_consumer_first = refl

run_waits : (run consumer_first 5 start).consumer_at ≡ waiting
unfolding run_consumer_first
run_waits = refl

run-finishes_example :
    let end = run consumer_first 58 start in
    (end.producer_at ≡ produced) × (end.consumer_at ≡ consumed) × (end.shared.received ≡ some 100)
run-finishes_example = run-finishes consumer_first 58 (omega arith)

waits : Reached (run consumer_first 5 start)
waits = run-Reached consumer_first 5 start started

Reached-Safe_example : Safe (run consumer_first 5 start)
Reached-Safe_example = Reached-Safe (run consumer_first 5 start) waits

over : IsStuck (run consumer_first 58 start)
unfolding run_consumer_first
over producer = refl
over consumer = refl

Reached-finished_example :
    let end = run consumer_first 58 start in
    (end.producer_at ≡ produced) × (end.consumer_at ≡ consumed) × (end.shared.received ≡ some 100)
Reached-finished_example =
    Reached-finished (run consumer_first 58 start) (run-Reached consumer_first 58 start started)
      over
