-- ===== src/ThreadServer/Ownership.antt =====
-- Each heap cell is freed once and each connection is closed once.
use cs_lab.Base.{ℕ, ◌≡◌, refl, ◌∙◌, some, List, [], arith, subst}
use cs_lab.Net.{Call, Received, Startup}
use cs_lab.ThreadServer.{
  unallocated, Heap, MainAt, to_accept, to_allocate, to_store, to_create, to_free, to_close, State,
  move, work, Running, listening, main_runs, worker_runs,
}
use cs_lab.ThreadServer.Holders.{main_cell, IsStored, live-le, owned, cells}
use cs_lab.ThreadServer.Moves.{move-Moved}
use cs_lab.BlockingServer.{listen_on, listen_on-HoldsOnly}
use cs_lab.Net.Program.{HoldsOnly}
use cs_lab.ThreadServer.Serving.{IsOwned, one_self, serve-IsOwned}

module _ (server_fd : ℕ) where
  still_stored :
      (heap heap' : Heap) (m : MainAt)
      → ((a : ℕ) → main_cell a m ≡ 1 → heap' a ≡ heap a)
      → IsStored heap m
      → IsStored heap' m
  still_stored heap heap' to_accept same ok = tt
  still_stored heap heap' (to_allocate fd) same ok = tt
  still_stored heap heap' (to_store fd arg) same ok = tt
  still_stored heap heap' (to_create fd arg) same ok = same arg (one_self arg) ∙ ok
  still_stored heap heap' (to_free fd arg) same ok = tt
  still_stored heap heap' (to_close fd) same ok = tt

  work-IsOwned :
      (i : ℕ) (r : Received) (s : State) → IsOwned server_fd s → IsOwned server_fd (work i r s)
  unfolding work
  work-IsOwned i r s h =
      let m = move-Moved i r s.workers s.effects h.fine (λ a. omega (arith, h.memory a)) in
      let (workers, effects) = move i r s.workers s.effects in
      record {
        descriptors = λ d. omega (arith, h.descriptors d, m.same_opened d, m.traded d);
        memory = λ a. omega (arith, h.memory a, m.balanced a);
        stored =
            still_stored s.effects.heap effects.heap s.main_at
              (λ a mine.
                m.elsewhere a (omega (arith, mine, h.memory a, live-le (s.effects.heap a))))
              h.stored;
        fine = m.fine;
      }

listening-IsOwned :
    (server_fd : ℕ) (s : Startup) (calls : List Call)
    → listen_on s.socket s.bound s.listening [] ≡ (some server_fd, calls)
    → IsOwned server_fd (record {
      main_at = to_accept;
      workers = [];
      effects = record { calls = calls; heap = λ a. unallocated };
    })
unfolding owned cells
listening-IsOwned server_fd s calls e =
    let only = subst HoldsOnly e (listen_on-HoldsOnly s.socket s.bound s.listening) in
    record { descriptors = λ d. omega (arith, only d); memory = λ a. refl; stored = tt; fine = tt }

-- In whatever order the statements of the main thread and of the workers run and whatever their
-- calls return, if `malloc` gives no cell in use: each descriptor was closed as often as it was
-- opened, but for the listening one, the one of the main thread between `accept` and the hand-over
-- or the `close`, and those that the workers have, themselves or in their cells; each allocated
-- cell belongs to exactly one thread; a cell that is handed over holds a descriptor until its
-- worker has read it, and no worker reads a cell without one.
pub Running-IsOwned : (server_fd : ℕ) (s : State) → Running server_fd s → IsOwned server_fd s
Running-IsOwned server_fd _ (listening s calls e) = listening-IsOwned server_fd s calls e
Running-IsOwned server_fd _ (main_runs r s free p) =
    serve-IsOwned server_fd s.main_at r s refl free (Running-IsOwned server_fd s p)
Running-IsOwned server_fd _ (worker_runs i r s p) =
    work-IsOwned server_fd i r s (Running-IsOwned server_fd s p)
