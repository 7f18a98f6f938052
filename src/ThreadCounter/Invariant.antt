-- ===== src/ThreadCounter/Invariant.antt =====
-- What the steps of the two threads keep, and that they come to an end.
use cs_lab.Base.{ℕ, ◌+◌, ◌≤◌, ◌<◌, ◌≡◌, refl, sym, Option, none, some, arith, ◌⊎◌, inl, inr, subst}
use cs_lab.Interleaving.{Keeps, Keeps-some, Keeps-none}
use cs_lab.ThreadCounter.{
  WorkerAt, to_load, to_store, to_print, returned, State, worker, Thread, t1, t2, choose_first,
  choose_second, any_step,
}

abbrev pub stores : WorkerAt → ℕ
stores to_load = 0
stores (to_store loaded) = 0
stores to_print = 1
stores (returned printed) = 1

-- A thread has loaded no more than the other one has stored, and printed what was stored by then.
abbrev pub Plausible : WorkerAt → (others : ℕ) → Type 0
Plausible to_load others = Unit
Plausible (to_store loaded) others = loaded ≤ others
Plausible to_print others = Unit
Plausible (returned printed) others = (1 ≤ printed) × (printed ≤ 1 + others)

-- `count` for two threads that have stored so often.
abbrev pub Counts : ℕ → ℕ → ℕ → Type 0
Counts a b count = (count ≤ a + b) × ((1 ≤ a + b) → 1 ≤ count)

pub record IsSafe (a b : WorkerAt) (count : ℕ) : Type 0 where
  pub counts : Counts (stores a) (stores b) count
  pub first : Plausible a (stores b)
  pub second : Plausible b (stores a)

-- What one thread has loaded or printed stays plausible when the other one stores.
Plausible-mono : (w : WorkerAt) (m n : ℕ) → m ≤ n → Plausible w m → Plausible w n
Plausible-mono to_load m n le p = tt
Plausible-mono (to_store loaded) m n le p = omega arith
Plausible-mono to_print m n le p = tt
Plausible-mono (returned printed) m n le p = (p.0, omega arith)

-- A step of one thread, seen from a thread that has stored `others` times.
record Stepped (w : WorkerAt) (others : ℕ) (out : WorkerAt × ℕ) : Type 0 where
  counted : Counts (stores out.0) others out.1
  grows : stores w ≤ stores out.0
  plausible : Plausible out.0 others

worker-Stepped :
    (w : WorkerAt) (others count : ℕ)
    → Counts (stores w) others count
    → Plausible w others
    → Keeps (Stepped w others) (worker w count)
unfolding worker
worker-Stepped to_load others count c p =
    Keeps-some _ _ (record { counted = c; grows = omega arith; plausible = omega (arith, c.0) })
worker-Stepped (to_store loaded) others count c p =
    Keeps-some _ _
      (record { counted = (omega arith, λ h. omega arith); grows = omega arith; plausible = tt })
worker-Stepped to_print others count c p =
    Keeps-some _ _
      (record { counted = c; grows = omega arith; plausible = (c.1 (omega arith), c.0) })
worker-Stepped (returned printed) others count c p = Keeps-none _

abbrev pub Safe : State → Type 0
Safe s = IsSafe s.first s.second s.count

unfoldable pub rank : WorkerAt → ℕ
rank to_load = 3
rank (to_store loaded) = 2
rank to_print = 1
rank (returned printed) = 0

worker-lowers : (w : WorkerAt) (count : ℕ) → Keeps (λ out. rank out.0 < rank w) (worker w count)
unfolding worker rank
worker-lowers to_load count = Keeps-some _ _ (omega arith)
worker-lowers (to_store loaded) count = Keeps-some _ _ (omega arith)
worker-lowers to_print count = Keeps-some _ _ (omega arith)
worker-lowers (returned printed) count = Keeps-none _

unfoldable pub measure : State → ℕ
measure s = rank s.first + rank s.second

-- A move is one of the two threads'.
abbrev pub Moved : State → State → Type 0
Moved s t =
    ((out : WorkerAt × ℕ) × (worker s.first s.count ≡ some out)
      × (t ≡ record { first = out.0; second = s.second; count = out.1 }))
    ⊎ ((out : WorkerAt × ℕ) × (worker s.second s.count ≡ some out)
        × (t ≡ record { first = s.first; second = out.0; count = out.1 }))

choose_first-Moved :
    (s : State) (a b : Option (WorkerAt × ℕ))
    → worker s.first s.count ≡ a
    → worker s.second s.count ≡ b
    → Keeps (Moved s) (choose_first s a b)
unfolding choose_first
choose_first-Moved s (some a) b e f = Keeps-some _ _ (inl (a, e, refl))
choose_first-Moved s none (some b) e f = Keeps-some _ _ (inr (b, f, refl))
choose_first-Moved s none none e f = Keeps-none _

choose_second-Moved :
    (s : State) (a b : Option (WorkerAt × ℕ))
    → worker s.first s.count ≡ a
    → worker s.second s.count ≡ b
    → Keeps (Moved s) (choose_second s a b)
unfolding choose_second
choose_second-Moved s a (some b) e f = Keeps-some _ _ (inr (b, f, refl))
choose_second-Moved s (some a) none e f = Keeps-some _ _ (inl (a, e, refl))
choose_second-Moved s none none e f = Keeps-none _

pub any_step-Moved : (who : Thread) (s : State) → Keeps (Moved s) (any_step who s)
unfolding any_step
any_step-Moved t1 s =
    choose_first-Moved s (worker s.first s.count) (worker s.second s.count) refl refl
any_step-Moved t2 s =
    choose_second-Moved s (worker s.first s.count) (worker s.second s.count) refl refl

pub Moved-Safe : (s t : State) → Moved s t → Safe s → Safe t × (measure t < measure s)
unfolding measure
Moved-Safe s t (inl (out, e, f)) h =
    let d = worker-Stepped s.first (stores s.second) s.count h.counts h.first out e in
    let l = worker-lowers s.first s.count out e in
    subst (λ u. Safe u × (measure u < measure s)) (sym f)
      (
        record {
          counts = d.counted;
          first = d.plausible;
          second = Plausible-mono s.second (stores s.first) (stores out.0) d.grows h.second;
        },
        omega (arith, l),
      )
Moved-Safe s t (inr (out, e, f)) h =
    let flipped : Counts (stores s.second) (stores s.first) s.count =
      (omega (arith, h.counts.0), λ p. h.counts.1 (omega arith)) in
    let d = worker-Stepped s.second (stores s.first) s.count flipped h.second out e in
    let l = worker-lowers s.second s.count out e in
    subst (λ u. Safe u × (measure u < measure s)) (sym f)
      (
        record {
          counts = (omega (arith, d.counted.0), λ p. d.counted.1 (omega arith));
          first = Plausible-mono s.first (stores s.second) (stores out.0) d.grows h.first;
          second = d.plausible;
        },
        omega (arith, l),
      )
