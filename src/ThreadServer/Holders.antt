-- ===== src/ThreadServer/Holders.antt =====
-- Who holds a descriptor and a heap cell, and what a worker's step does to that.
use cs_lab.Base.{ℕ, ◌+◌, ◌≤◌, ◌≡◌, ◌≢◌, refl, ap, sym, List, [], ◌∷◌, ◌==◌, ==-refl, arith, subst}
use cs_lab.Net.Counts.{one}
use cs_lab.ThreadServer.{
  MainAt, to_accept, to_allocate, to_store, to_create, to_free, to_close, Cell, unallocated,
  uninitialised, holds, Heap, write, Worker, starting, freeing, receiving, closing, finished,
  undefined,
}

-- The descriptor that a cell passes on.
abbrev pub content : ℕ → Cell → ℕ
content d (holds fd) = one (fd == d)
content d uninitialised = 0
content d unallocated = 0

abbrev pub live : Cell → ℕ
live unallocated = 0
live uninitialised = 1
live (holds fd) = 1

abbrev pub HoldsSome : Cell → Type 0
HoldsSome (holds fd) = Unit
HoldsSome uninitialised = ⊥
HoldsSome unallocated = ⊥

-- Whether the worker has the descriptor `d`, itself or in its cell, and whether it has the cell `a`.
abbrev pub owns : Heap → ℕ → Worker → ℕ
owns h d (starting arg) = content d (h arg)
owns h d (freeing fd arg) = one (fd == d)
owns h d (receiving fd) = one (fd == d)
owns h d (closing fd) = one (fd == d)
owns h d finished = 0
owns h d undefined = 0

abbrev pub cell : ℕ → Worker → ℕ
cell a (starting arg) = one (arg == a)
cell a (freeing fd arg) = one (arg == a)
cell a (receiving fd) = 0
cell a (closing fd) = 0
cell a finished = 0
cell a undefined = 0

-- The cell of a worker that has not started holds a descriptor.
abbrev pub IsFine : Heap → Worker → Type 0
IsFine h (starting arg) = HoldsSome (h arg)
IsFine h undefined = ⊥
IsFine h (freeing fd arg) = Unit
IsFine h (receiving fd) = Unit
IsFine h (closing fd) = Unit
IsFine h finished = Unit

-- The descriptor and the cell that the main thread has between `accept` and `pthread_create`.
abbrev pub main_owns : ℕ → MainAt → ℕ
main_owns d to_accept = 0
main_owns d (to_allocate fd) = one (fd == d)
main_owns d (to_store fd arg) = one (fd == d)
main_owns d (to_create fd arg) = one (fd == d)
main_owns d (to_free fd arg) = one (fd == d)
main_owns d (to_close fd) = one (fd == d)

abbrev pub main_cell : ℕ → MainAt → ℕ
main_cell a to_accept = 0
main_cell a (to_allocate fd) = 0
main_cell a (to_store fd arg) = one (arg == a)
main_cell a (to_create fd arg) = one (arg == a)
main_cell a (to_free fd arg) = one (arg == a)
main_cell a (to_close fd) = 0

abbrev pub IsStored : Heap → MainAt → Type 0
IsStored h to_accept = Unit
IsStored h (to_allocate fd) = Unit
IsStored h (to_store fd arg) = Unit
IsStored h (to_create fd arg) = h arg ≡ holds fd
IsStored h (to_free fd arg) = Unit
IsStored h (to_close fd) = Unit

unfoldable pub owned : Heap → ℕ → List Worker → ℕ
owned h d [] = 0
owned h d (w ∷ rest) = owns h d w + owned h d rest

unfoldable pub cells : ℕ → List Worker → ℕ
cells a [] = 0
cells a (w ∷ rest) = cell a w + cells a rest

abbrev pub AllFine : Heap → List Worker → Type 0
AllFine h [] = Unit
AllFine h (w ∷ rest) = IsFine h w × AllFine h rest

pub live-le : (c : Cell) → live c ≤ 1
live-le unallocated = omega arith
live-le uninitialised = omega arith
live-le (holds fd) = omega arith

pub write_self : (h : Heap) (a : ℕ) (c : Cell) → write h a c a ≡ c
unfolding write
write_self h a c = rw (==-refl a) refl

pub write_ne : (h : Heap) (a b : ℕ) (c : Cell) → b ≢ a → write h a c b ≡ h b
unfolding write
write_ne h a b c ne = ground arith

-- A change of the heap elsewhere is none for a worker.
module _ (h h' : Heap) where
  owns_agree :
      (d : ℕ) (w : Worker) → ((a : ℕ) → cell a w ≢ 0 → h' a ≡ h a) → owns h' d w ≡ owns h d w
  owns_agree d (starting arg) same =
      ap (content d) (same arg (λ z. let e = ==-refl arg in ground arith))
  owns_agree d (freeing fd arg) same = refl
  owns_agree d (receiving fd) same = refl
  owns_agree d (closing fd) same = refl
  owns_agree d finished same = refl
  owns_agree d undefined same = refl

  IsFine-agree : (w : Worker) → ((a : ℕ) → cell a w ≢ 0 → h' a ≡ h a) → IsFine h w → IsFine h' w
  IsFine-agree (starting arg) same fine =
      subst HoldsSome (sym (same arg (λ z. let e = ==-refl arg in ground arith))) fine
  IsFine-agree (freeing fd arg) same fine = tt
  IsFine-agree (receiving fd) same fine = tt
  IsFine-agree (closing fd) same fine = tt
  IsFine-agree finished same fine = tt
  IsFine-agree undefined same fine = fine

  pub owned_agree :
      (d : ℕ) (ws : List Worker)
      → ((a : ℕ) → cells a ws ≢ 0 → h' a ≡ h a)
      → owned h' d ws ≡ owned h d ws
  unfolding owned cells
  owned_agree d [] same = refl
  owned_agree d (w ∷ rest) same =
      let first = owns_agree d w (λ a ne. same a (omega arith)) in
      let later = owned_agree d rest (λ a ne. same a (omega arith)) in omega arith

  pub AllFine-agree :
      (ws : List Worker) → ((a : ℕ) → cells a ws ≢ 0 → h' a ≡ h a) → AllFine h ws → AllFine h' ws
  unfolding cells
  AllFine-agree [] same fine = tt
  AllFine-agree (w ∷ rest) same fine = (
    IsFine-agree w (λ a ne. same a (omega arith)) fine.0,
    AllFine-agree rest (λ a ne. same a (omega arith)) fine.1,
  )
