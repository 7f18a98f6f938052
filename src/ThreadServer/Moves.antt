-- ===== src/ThreadServer/Moves.antt =====
-- What a step of a worker does to the descriptors and the cells.
use cs_lab.Base.{
  ℕ, zero, suc, ◌+◌, ◌≤◌, ◌≡◌, ◌≢◌, refl, ap, sym, ◌∙◌, List, [], ◌∷◌, ◌==◌, ==-refl, arith, ne→==,
}
use cs_lab.Net.{Received, data_bytes, nothing_yet, recv_failed, take}
use cs_lab.Net.Counts.{one, opened, closed}
use cs_lab.ThreadServer.{
  Cell, unallocated, uninitialised, holds, Heap, write, Worker, starting, freeing, receiving,
  closing, finished, undefined, Effects, read_argument, answer, handle_client, move,
}
use native.Mathlib.Decide.{ℕ_discrete}
use cs_lab.ThreadServer.Holders.{
  content, live, HoldsSome, owns, cell, IsFine, owned, cells, AllFine, live-le, write_self,
  write_ne, owned_agree, AllFine-agree,
}

record Handled (w : Worker) (e : Effects) (w' : Worker) (e' : Effects) : Type 0 where
  same_opened : (d : ℕ) → opened d e'.calls ≡ opened d e.calls
  traded : (d : ℕ) → closed d e'.calls + owns e'.heap d w' ≡ closed d e.calls + owns e.heap d w
  balanced : (a : ℕ) → live (e'.heap a) + cell a w ≡ live (e.heap a) + cell a w'
  elsewhere : (a : ℕ) → cell a w ≡ 0 → e'.heap a ≡ e.heap a
  fine : IsFine e'.heap w'

answer-Handled :
    (fd : ℕ) (bytes : List ℕ) (e : Effects)
    → let (w, e') = answer fd bytes e in Handled (receiving fd) e w e'
unfolding answer opened closed
answer-Handled fd [] e = record {
  same_opened = λ d. refl;
  traded = λ d. omega arith;
  balanced = λ a. refl;
  elsewhere = λ a out. refl;
  fine = tt;
}
answer-Handled fd (b ∷ more) e = record {
  same_opened = λ d. refl;
  traded = λ d. refl;
  balanced = λ a. refl;
  elsewhere = λ a out. refl;
  fine = tt;
}

read_argument-Handled :
    (arg : ℕ) (c : Cell) (e : Effects)
    → e.heap arg ≡ c
    → HoldsSome c
    → Handled (starting arg) e (read_argument arg c) e
unfolding read_argument
read_argument-Handled arg (holds fd) e at some_fd = record {
  same_opened = λ d. refl;
  traded = λ d. ap (λ c. closed d e.calls + content d c) (sym at);
  balanced = λ a. refl;
  elsewhere = λ a out. refl;
  fine = tt;
}
read_argument-Handled arg uninitialised e at some_fd = absurd some_fd
read_argument-Handled arg unallocated e at some_fd = absurd some_fd

-- The worker that frees a cell is the only one that has it.
freed-balanced :
    (h : Heap) (arg a : ℕ)
    → one (arg == a) ≤ live (h a)
    → live (write h arg unallocated a) + one (arg == a) ≡ live (h a) + 0
freed-balanced h arg a le = elim (ℕ_discrete a arg) [
  | yes e ↦
      let gone : live (write h arg unallocated a) ≡ 0 =
        ap (λ b. live (write h arg unallocated b)) e ∙ ap live (write_self h arg unallocated) in
      let mine : one (arg == a) ≡ 1 = ap (λ b. one (arg == b)) e ∙ ap one (==-refl arg) in
      omega (arith, live-le (h a))
  | no ne ↦
      let kept = ap live (write_ne h arg a unallocated ne) in
      let other : one (arg == a) ≡ 0 = ap one (ne→== arg a (λ e. ne (sym e))) in omega arith
]

handle_client-Handled :
    (w : Worker) (r : Received) (e : Effects)
    → IsFine e.heap w
    → ((a : ℕ) → cell a w ≤ live (e.heap a))
    → let (w', e') = handle_client w r e in Handled w e w' e'
unfolding handle_client opened closed
handle_client-Handled (starting arg) r e fine le =
    read_argument-Handled arg (e.heap arg) e refl fine
handle_client-Handled (freeing fd arg) r e fine le = record {
  same_opened = λ d. refl;
  traded = λ d. refl;
  balanced = λ a. freed-balanced e.heap arg a (le a);
  elsewhere = λ a out.
      write_ne e.heap arg a unallocated
        (λ same. let mine = ap (λ b. one (arg == b)) same ∙ ap one (==-refl arg) in omega arith);
  fine = tt;
}
handle_client-Handled (receiving fd) (data_bytes bytes) e fine le =
    answer-Handled fd (take 1023 bytes) e
handle_client-Handled (receiving fd) nothing_yet e fine le = record {
  same_opened = λ d. refl;
  traded = λ d. omega arith;
  balanced = λ a. refl;
  elsewhere = λ a out. refl;
  fine = tt;
}
handle_client-Handled (receiving fd) recv_failed e fine le = record {
  same_opened = λ d. refl;
  traded = λ d. omega arith;
  balanced = λ a. refl;
  elsewhere = λ a out. refl;
  fine = tt;
}
handle_client-Handled (closing fd) r e fine le = record {
  same_opened = λ d. refl;
  traded = λ d. omega arith;
  balanced = λ a. refl;
  elsewhere = λ a out. refl;
  fine = tt;
}
handle_client-Handled finished r e fine le = record {
  same_opened = λ d. refl;
  traded = λ d. refl;
  balanced = λ a. refl;
  elsewhere = λ a out. refl;
  fine = tt;
}
handle_client-Handled undefined r e fine le = absurd fine

pub record Moved (ws : List Worker) (e : Effects) (ws' : List Worker) (e' : Effects) : Type 0 where
  pub same_opened : (d : ℕ) → opened d e'.calls ≡ opened d e.calls
  pub traded :
      (d : ℕ) → closed d e'.calls + owned e'.heap d ws' ≡ closed d e.calls + owned e.heap d ws
  pub balanced : (a : ℕ) → live (e'.heap a) + cells a ws ≡ live (e.heap a) + cells a ws'
  pub elsewhere : (a : ℕ) → cells a ws ≡ 0 → e'.heap a ≡ e.heap a
  pub fine : AllFine e'.heap ws'

pub move-Moved :
    (i : ℕ) (r : Received) (ws : List Worker) (e : Effects)
    → AllFine e.heap ws
    → ((a : ℕ) → cells a ws ≤ live (e.heap a))
    → let (ws', e') = move i r ws e in Moved ws e ws' e'
unfolding move owned cells
move-Moved i r [] e fine le = record {
  same_opened = λ d. refl;
  traded = λ d. refl;
  balanced = λ a. refl;
  elsewhere = λ a out. refl;
  fine = tt;
}
move-Moved zero r (w ∷ rest) e fine le =
    let h = handle_client-Handled w r e fine.0 (λ a. omega (arith, le a)) in
    let (w', e') = handle_client w r e in
    let same : (a : ℕ) → cells a rest ≢ 0 → e'.heap a ≡ e.heap a =
      λ a ne. h.elsewhere a (omega (arith, le a, live-le (e.heap a))) in
    record {
      same_opened = h.same_opened;
      traded = λ d. omega (arith, h.traded d, owned_agree e.heap e'.heap d rest same);
      balanced = λ a. omega (arith, h.balanced a);
      elsewhere = λ a out. h.elsewhere a (omega arith);
      fine = (h.fine, AllFine-agree e.heap e'.heap rest same fine.1);
    }
move-Moved (suc i) r (w ∷ rest) e fine le =
    let h = move-Moved i r rest e fine.1 (λ a. omega (arith, le a)) in
    let (rest', e') = move i r rest e in
    let same : (a : ℕ) → cells a (w ∷ []) ≢ 0 → e'.heap a ≡ e.heap a =
      λ a ne. h.elsewhere a (omega (arith, le a, live-le (e.heap a))) in
    record {
      same_opened = h.same_opened;
      traded = λ d. omega (arith, h.traded d, owned_agree e.heap e'.heap d (w ∷ []) same);
      balanced = λ a. omega (arith, h.balanced a);
      elsewhere = λ a out. h.elsewhere a (omega arith);
      fine = ((AllFine-agree e.heap e'.heap (w ∷ []) same (fine.0, tt)).0, h.fine);
    }
