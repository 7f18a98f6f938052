-- ===== src/ProducerConsumer/Produce.antt =====
-- The steps of the producer keep the invariant.
use cs_lab.Base.{◌≡◌, refl, ap, sym, ◌∙◌, true, false, ◌&&◌, not, Option, none, some, if◌then◌else◌}
use mathlib.Core.Option.{map}
use cs_lab.Interleaving.{Keeps, Keeps-some, Keeps-none}
use cs_lab.ProducerConsumer.{
  Thread, producer, Shared, ProducerAt, to_lock, to_produce, to_flag, to_signal, to_unlock,
  produced, ConsumerAt, state, lock, signal, produce,
}
use cs_lab.ProducerConsumer.Invariant.{
  consumer_holds, has_passed, holder, IsSafe, Safe, holder_free, and_false, not_reset, signal_lem,
}

lock_produce-Keeps :
    (o : Option Thread) (c : ConsumerAt) (m : Shared)
    → m.owner ≡ o
    → IsSafe to_lock c m
    → Keeps Safe (map (state to_produce c) (lock producer o m))
unfolding lock
lock_produce-Keeps (some w) c m e h = Keeps-none _
lock_produce-Keeps none c m e h =
    let free = holder_free false (consumer_holds c) (sym e ∙ h.mutex) in
    Keeps-some _ _ (record {
      mutex = refl;
      exclusive = free.1;
      value = h.value;
      flag = h.flag;
      no_lost_signal = h.no_lost_signal;
      order = h.order;
      result = h.result;
    })

pub produce-Keeps :
    (p : ProducerAt) (c : ConsumerAt) (m : Shared) → IsSafe p c m → Keeps Safe (produce p c m)
unfolding produce
produce-Keeps to_lock c m h = lock_produce-Keeps m.owner c m refl h
produce-Keeps to_produce c m h = Keeps-some _ _ (record {
  mutex = h.mutex;
  exclusive = h.exclusive;
  value = refl;
  flag = h.flag;
  no_lost_signal = h.no_lost_signal;
  order = h.order;
  result = h.result;
})
produce-Keeps to_flag c m h = Keeps-some _ _ (record {
  mutex = h.mutex;
  exclusive = h.exclusive;
  value = h.value;
  flag = ap (λ b. if b then 1 else 0) (sym (not_reset c h.order));
  no_lost_signal = h.no_lost_signal;
  order = and_false (has_passed c);
  result = h.result;
})
produce-Keeps to_signal c m h =
    let (holds, awake, passed, received, reset) = signal_lem c in
    Keeps-some _ _ (record {
      mutex = h.mutex;
      exclusive = holds ∙ h.exclusive;
      value = h.value;
      flag = h.flag ∙ ap (λ b. if not b then 1 else 0) (sym reset);
      no_lost_signal = ap (λ b. b && true) awake;
      order = and_false (has_passed (signal c));
      result = h.result ∙ ap (λ b. if b then some 100 else none) (sym received);
    })
produce-Keeps to_unlock c m h = Keeps-some _ _ (record {
  mutex = sym (ap (holder false) h.exclusive);
  exclusive = refl;
  value = h.value;
  flag = h.flag;
  no_lost_signal = h.no_lost_signal;
  order = h.order;
  result = h.result;
})
produce-Keeps produced c m h = Keeps-none _
