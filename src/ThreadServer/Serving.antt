-- ===== src/ThreadServer/Serving.antt =====
-- Who owns the descriptors and the heap cells, through the statements of the main thread.
use cs_lab.Base.{
  ℕ, ◌+◌, ◌*◌, ◌≡◌, ◌≢◌, refl, ap, sym, ◌∙◌, true, false, Option, none, some, List, ◌==◌, ==-refl,
  ne→==, arith, subst, Bool,
}
use native.Mathlib.Decide.{ℕ_discrete}
use cs_lab.Net.Counts.{one, opened, closed}
use cs_lab.ThreadServer.{
  Cell, unallocated, uninitialised, holds, Heap, write, Worker, MainAt, to_accept, to_allocate,
  to_store, to_create, to_free, to_close, State, Results, accept, allocate, create, serve,
}
use cs_lab.ThreadServer.Holders.{
  content, live, main_owns, main_cell, IsStored, live-le, HoldsSome, owned, cells, AllFine,
  write_self, write_ne, owned_agree, AllFine-agree,
}

-- Each open descriptor is the listening one, the main thread's or a worker's, itself or in its cell;
-- each cell that is not free is the main thread's or a worker's; the cells that are handed over hold
-- descriptors.
pub record IsOwned (server_fd : ℕ) (s : State) : Type 0 where
  pub descriptors :
      (d : ℕ)
      → opened d s.effects.calls
        ≡ closed d s.effects.calls
          + (owned s.effects.heap d s.workers + (main_owns d s.main_at + one (server_fd == d)))
  pub memory : (a : ℕ) → live (s.effects.heap a) ≡ main_cell a s.main_at + cells a s.workers
  pub stored : IsStored s.effects.heap s.main_at
  pub fine : AllFine s.effects.heap s.workers

live-write :
    (h : Heap) (arg a : ℕ) (c : Cell)
    → live (write h arg c a) + one (arg == a) * live (h arg) ≡ live (h a) + one (arg == a) * live c
live-write h arg a c = elim (ℕ_discrete a arg) [
  | yes e ↦
      let now : live (write h arg c a) ≡ live c =
        ap (λ b. live (write h arg c b)) e ∙ ap live (write_self h arg c) in
      let mine : one (arg == a) ≡ 1 = ap (λ b. one (arg == b)) e ∙ ap one (==-refl arg) in
      let old : live (h a) ≡ live (h arg) = ap (λ b. live (h b)) e in rw mine (omega arith)
  | no ne ↦
      let kept = ap live (write_ne h arg a c ne) in
      let other : one (arg == a) ≡ 0 = ap one (ne→== arg a (λ e. ne (sym e))) in
      rw other (omega arith)
]

-- The main thread's cell is no worker's.
elsewhere :
    (h : Heap) (arg : ℕ) (c : Cell) (ws : List Worker)
    → cells arg ws ≡ 0
    → (a : ℕ) → cells a ws ≢ 0
    → write h arg c a ≡ h a
elsewhere h arg c ws out a ne = write_ne h arg a c (λ e. ne (ap (λ b. cells b ws) e ∙ out))

pub live_main :
    (server_fd arg : ℕ) (s : State)
    → main_cell arg s.main_at ≡ 1
    → IsOwned server_fd s
    → live (s.effects.heap arg) ≡ 1
live_main server_fd arg s mine h = omega (arith, h.memory arg, live-le (s.effects.heap arg))

pub only_main :
    (server_fd arg : ℕ) (s : State)
    → main_cell arg s.main_at ≡ 1
    → IsOwned server_fd s
    → cells arg s.workers ≡ 0
only_main server_fd arg s mine h = omega (arith, h.memory arg, live-le (s.effects.heap arg))

pub one_self : (fd : ℕ) → one (fd == fd) ≡ 1
one_self fd = ap one (==-refl fd)

module _ (server_fd : ℕ) where
  accept-IsOwned :
      (o : Option ℕ) (s : State)
      → s.main_at ≡ to_accept
      → IsOwned server_fd s
      → IsOwned server_fd (accept o s)
  unfolding accept opened closed
  accept-IsOwned none s e h = h
  accept-IsOwned (some fd) s e h = record {
    descriptors = λ d. let same = ap (main_owns d) e in omega (arith, h.descriptors d);
    memory = λ a. let same = ap (main_cell a) e in omega (arith, h.memory a);
    stored = tt;
    fine = h.fine;
  }

  -- The main thread writes its own cell, or one that is free.
  assigned :
      (m : MainAt) (arg : ℕ) (c : Cell) (s : State)
      → cells arg s.workers ≡ 0
      → ((d : ℕ) → main_owns d m ≡ main_owns d s.main_at)
      → ((a : ℕ)
          → live (write s.effects.heap arg c a) + main_cell a s.main_at
            ≡ live (s.effects.heap a) + main_cell a m)
      → IsStored (write s.effects.heap arg c) m
      → IsOwned server_fd s
      → IsOwned server_fd (record s {
        main_at = m;
        effects = record { calls = s.effects.calls; heap = write s.effects.heap arg c };
      })
  assigned m arg c s out same traded ok h =
      let heap = s.effects.heap in
      let kept = elsewhere heap arg c s.workers out in
      record {
        descriptors = λ d.
            omega (
              arith,
              h.descriptors d,
              same d,
              owned_agree heap (write heap arg c) d s.workers kept,
            );
        memory = λ a. omega (arith, h.memory a, traded a);
        stored = ok;
        fine = AllFine-agree heap (write heap arg c) s.workers kept h.fine;
      }

  allocate-IsOwned :
      (fd : ℕ) (o : Option ℕ) (s : State)
      → s.main_at ≡ to_allocate fd
      → ((a : ℕ) → o ≡ some a → s.effects.heap a ≡ unallocated)
      → IsOwned server_fd s
      → IsOwned server_fd (allocate fd o s)
  unfolding allocate
  allocate-IsOwned fd none s e free h = record {
    descriptors = λ d. let same = ap (main_owns d) e in omega (arith, h.descriptors d);
    memory = λ a. let same = ap (main_cell a) e in omega (arith, h.memory a);
    stored = tt;
    fine = h.fine;
  }
  allocate-IsOwned fd (some arg) s e free h =
      let unused : live (s.effects.heap arg) ≡ 0 = ap live (free arg refl) in
      assigned (to_store fd arg) arg uninitialised s (omega (arith, h.memory arg))
        (λ d. sym (ap (main_owns d) e))
        (λ a.
          let same = ap (main_cell a) e in
          let w = live-write s.effects.heap arg a uninitialised in omega (arith, rw unused at w))
        tt h

  create-IsOwned :
      (fd arg : ℕ) (created : Bool) (s : State)
      → s.main_at ≡ to_create fd arg
      → IsOwned server_fd s
      → IsOwned server_fd (create fd arg created s)
  unfolding create owned cells
  create-IsOwned fd arg true s e h =
      let held : s.effects.heap arg ≡ holds fd = subst (IsStored s.effects.heap) e h.stored in
      record {
        descriptors = λ d.
            let same = ap (main_owns d) e in
            let passed = ap (content d) held in omega (arith, h.descriptors d);
        memory = λ a. let same = ap (main_cell a) e in omega (arith, h.memory a);
        stored = tt;
        fine = (subst HoldsSome (sym held) tt, h.fine);
      }
  create-IsOwned fd arg false s e h = record {
    descriptors = λ d. let same = ap (main_owns d) e in omega (arith, h.descriptors d);
    memory = λ a. let same = ap (main_cell a) e in omega (arith, h.memory a);
    stored = tt;
    fine = h.fine;
  }

  pub serve-IsOwned :
      (m : MainAt) (r : Results) (s : State)
      → s.main_at ≡ m
      → ((a : ℕ) → r.allocated ≡ some a → s.effects.heap a ≡ unallocated)
      → IsOwned server_fd s
      → IsOwned server_fd (serve m r s)
  unfolding serve opened closed
  serve-IsOwned to_accept r s e free h = accept-IsOwned r.accepted s e h
  serve-IsOwned (to_allocate fd) r s e free h = allocate-IsOwned fd r.allocated s e free h
  serve-IsOwned (to_store fd arg) r s e free h =
      assigned (to_create fd arg) arg (holds fd) s
        (only_main server_fd arg s (ap (main_cell arg) e ∙ one_self arg) h)
        (λ d. sym (ap (main_owns d) e))
        (λ a.
          let same = ap (main_cell a) e in
          let w = live-write s.effects.heap arg a (holds fd) in
          omega
            (arith, rw (live_main server_fd arg s (ap (main_cell arg) e ∙ one_self arg) h) at w))
        (write_self s.effects.heap arg (holds fd)) h
  serve-IsOwned (to_create fd arg) r s e free h = create-IsOwned fd arg r.created s e h
  serve-IsOwned (to_free fd arg) r s e free h =
      assigned (to_close fd) arg unallocated s
        (only_main server_fd arg s (ap (main_cell arg) e ∙ one_self arg) h)
        (λ d. sym (ap (main_owns d) e))
        (λ a.
          let same = ap (main_cell a) e in
          let w = live-write s.effects.heap arg a unallocated in
          omega
            (arith, rw (live_main server_fd arg s (ap (main_cell arg) e ∙ one_self arg) h) at w))
        tt h
  serve-IsOwned (to_close fd) r s e free h = record {
    descriptors = λ d. let same = ap (main_owns d) e in omega (arith, h.descriptors d);
    memory = λ a. let same = ap (main_cell a) e in omega (arith, h.memory a);
    stored = tt;
    fine = h.fine;
  }
