-- ===== src/ProducerConsumer/Consume.antt =====
-- The steps of the consumer keep the invariant.
use cs_lab.Base.{
  ℕ, ◌≡◌, ◌≢◌, refl, ap, sym, ◌∙◌, Bool, true, false, ◌&&◌, not, Option, none, some, ◌==◌,
  if◌then◌else◌, arith, ==→eq, ==→ne,
}
use mathlib.Core.Option.{map}
use cs_lab.Interleaving.{Keeps, Keeps-some, Keeps-none}
use cs_lab.ProducerConsumer.{
  Thread, consumer, Shared, ProducerAt, ConsumerAt, to_enter, to_test, waiting, woken, to_receive,
  to_reset, to_leave, consumed, state, lock, consume,
}
use cs_lab.ProducerConsumer.Invariant.{
  producer_holds, consumer_holds, has_flag, has_signalled, has_passed, has_received, has_reset,
  holder, IsSafe, Safe, holder_free, and_false, has_100,
}

lock_consume-Keeps :
    (o : Option Thread) (p : ProducerAt) (c : ConsumerAt) (m : Shared)
    → m.owner ≡ o
    → (has_passed c ≡ false) × (has_received c ≡ false) × (has_reset c ≡ false)
    → IsSafe p c m
    → Keeps Safe (map (state p to_test) (lock consumer o m))
unfolding lock
lock_consume-Keeps (some w) p c m e early h = Keeps-none _
lock_consume-Keeps none p c m e early h =
    let free = holder_free (producer_holds p) (consumer_holds c) (sym e ∙ h.mutex) in
    Keeps-some _ _ (record {
      mutex = ap (λ b. holder b true) (sym free.0);
      exclusive = ap (λ b. b && true) free.0;
      value = h.value;
      flag = h.flag ∙ ap (λ b. if has_flag p && not b then 1 else 0) early.2;
      no_lost_signal = refl;
      order = refl;
      result = h.result ∙ ap (λ b. if b then some 100 else none) early.1;
    })

-- While the consumer holds the mutex the producer does not.
outside : (p : ProducerAt) → producer_holds p && true ≡ false → producer_holds p ≡ false
outside p h = ground arith

-- A consumer that finds no data waits before the signal.
unsignalled :
    (p : ProducerAt) → ◌≡◌ {A = ℕ} 0 (if has_flag p && true then 1 else 0) → has_signalled p ≡ false
unsignalled p h = ground arith

flagged : (p : ProducerAt) → ◌≢◌ {A = ℕ} (if has_flag p && true then 1 else 0) 0 → has_flag p ≡ true
flagged p h = ground arith

test-Keeps :
    (b : Bool) (p : ProducerAt) (m : Shared)
    → (m.has_data == 0) ≡ b
    → IsSafe p to_test m
    → Keeps Safe (
        if b
        then some (state p waiting (record m { owner = none }))
        else some (state p to_receive m))
test-Keeps true p m e h = Keeps-some _ _ (record {
  mutex = ap (λ b. holder b false) (sym (outside p h.exclusive));
  exclusive = ap (λ b. b && false) (outside p h.exclusive);
  value = h.value;
  flag = h.flag;
  no_lost_signal = unsignalled p (sym (==→eq m.has_data 0 e) ∙ h.flag);
  order = refl;
  result = h.result;
})
test-Keeps false p m e h = Keeps-some _ _ (record {
  mutex = h.mutex;
  exclusive = h.exclusive;
  value = h.value;
  flag = h.flag;
  no_lost_signal = refl;
  order = ap not (flagged p (λ z. ==→ne m.has_data 0 e (h.flag ∙ z)));
  result = h.result;
})

pub consume-Keeps :
    (p : ProducerAt) (c : ConsumerAt) (m : Shared) → IsSafe p c m → Keeps Safe (consume p c m)
unfolding consume
consume-Keeps p to_enter m h = lock_consume-Keeps m.owner p to_enter m refl (refl, refl, refl) h
consume-Keeps p to_test m h = test-Keeps (m.has_data == 0) p m refl h
consume-Keeps p waiting m h = Keeps-none _
consume-Keeps p woken m h = lock_consume-Keeps m.owner p woken m refl (refl, refl, refl) h
consume-Keeps p to_receive m h = Keeps-some _ _ (record {
  mutex = h.mutex;
  exclusive = h.exclusive;
  value = h.value;
  flag = h.flag;
  no_lost_signal = refl;
  order = h.order;
  result = ap some (h.value ∙ has_100 p h.order);
})
consume-Keeps p to_reset m h = Keeps-some _ _ (record {
  mutex = h.mutex;
  exclusive = h.exclusive;
  value = h.value;
  flag = sym (ap (λ b. if b then 1 else 0) (and_false (has_flag p)));
  no_lost_signal = refl;
  order = h.order;
  result = h.result;
})
consume-Keeps p to_leave m h = Keeps-some _ _ (record {
  mutex = ap (λ b. holder b false) (sym (outside p h.exclusive));
  exclusive = ap (λ b. b && false) (outside p h.exclusive);
  value = h.value;
  flag = h.flag;
  no_lost_signal = refl;
  order = h.order;
  result = h.result;
})
consume-Keeps p consumed m h = Keeps-none _
