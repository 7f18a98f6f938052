-- ===== src/ThreadServer.antt =====
-- linux-process-lab/06-network/03-thread-per-connection/server.c: the main thread accepts and hands
-- each descriptor to a worker thread in a heap cell, whose address it passes. Each statement with an
-- effect is a step. The newest call stands first in the list of calls; of what the server prints
-- nothing is modelled.
pub mod Holders
pub mod Moves
pub mod Ownership
mod Serving
mod Tests
use cs_lab.Base.{
  ℕ, zero, suc, ◌+◌, ◌-◌, Bool, true, false, List, [], ◌∷◌, ◌≡◌, Option, some, none, ◌==◌,
  if◌then◌else◌,
}
use cs_lab.Net.{
  Call, opens, closes, sends, Received, data_bytes, nothing_yet, recv_failed, take, Startup,
}
use cs_lab.BlockingServer.{listen_on}

abbrev pub buf_size : ℕ
buf_size = 1024

-- The bytes of "server received message"
abbrev pub response : List ℕ
response =
    115 ∷ 101 ∷ 114 ∷ 118 ∷ 101 ∷ 114 ∷ 32 ∷ 114 ∷ 101 ∷ 99 ∷ 101 ∷ 105 ∷ 118 ∷ 101 ∷ 100 ∷ 32 ∷ 109
    ∷ 101 ∷ 115 ∷ 115 ∷ 97 ∷ 103 ∷ 101 ∷ []

-- A cell of the heap, as `malloc` and `free` see it, and the `int` in it.
pub data Cell : Type 0 where
  unallocated : Cell
  uninitialised : Cell
  holds : ℕ → Cell

abbrev pub Heap : Type 0
Heap = ℕ → Cell

unfoldable pub write : Heap → ℕ → Cell → Heap
write h a c b = if b == a then c else h b

-- Where a worker is: before it reads its argument, before it frees it, before `recv`, before the
-- last `close`, at the end; or it has read what is no descriptor.
pub data Worker : Type 0 where
  starting : ℕ → Worker
  freeing : (fd arg : ℕ) → Worker
  receiving : ℕ → Worker
  closing : ℕ → Worker
  finished : Worker
  undefined : Worker

-- What the threads share: the heap, and the calls so far.
pub record Effects : Type 0 where
  pub calls : List Call
  pub heap : Heap

-- Where the main thread is in a round of its loop: before `accept`, `malloc`, `*arg = client_fd`,
-- `pthread_create`, and on an error before `free` and `close`.
pub data MainAt : Type 0 where
  to_accept : MainAt
  to_allocate : (fd : ℕ) → MainAt
  to_store : (fd arg : ℕ) → MainAt
  to_create : (fd arg : ℕ) → MainAt
  to_free : (fd arg : ℕ) → MainAt
  to_close : (fd : ℕ) → MainAt

pub record State : Type 0 where
  pub main_at : MainAt
  pub workers : List Worker
  pub effects : Effects

abbrev call : Call → Effects → Effects
call c e = record e { calls = c ∷ e.calls }

abbrev assign : ℕ → Cell → Effects → Effects
assign a c e = record e { heap = write e.heap a c }

-- `int client_fd = *(int*)arg`
unfoldable pub read_argument : ℕ → Cell → Worker
read_argument arg (holds fd) = freeing fd arg
read_argument arg uninitialised = undefined
read_argument arg unallocated = undefined

-- What `recv` of at most 1023 bytes returned: nothing, or bytes, which are answered.
unfoldable pub answer : ℕ → List ℕ → Effects → Worker × Effects
answer fd [] e = (finished, call (closes fd) e)
answer fd (b ∷ more) e = (closing fd, call (sends fd response) e)

-- A step of `handle_client`. The socket blocks, so a failed `recv` is an error whatever `errno` is.
unfoldable pub handle_client : Worker → Received → Effects → Worker × Effects
handle_client (starting arg) r e = (read_argument arg (e.heap arg), e)
handle_client (freeing fd arg) r e = (receiving fd, assign arg unallocated e)
handle_client (receiving fd) (data_bytes bytes) e = answer fd (take (buf_size - 1) bytes) e
handle_client (receiving fd) nothing_yet e = (finished, call (closes fd) e)
handle_client (receiving fd) recv_failed e = (finished, call (closes fd) e)
handle_client (closing fd) r e = (finished, call (closes fd) e)
handle_client finished r e = (finished, e)
handle_client undefined r e = (undefined, e)

-- A step of the worker with the number `i`.
unfoldable pub move : ℕ → Received → List Worker → Effects → List Worker × Effects
move i r [] e = ([], e)
move zero r (w ∷ rest) e = let (w', e') = handle_client w r e in (w' ∷ rest, e')
move (suc i) r (w ∷ rest) e = let (rest', e') = move i r rest e in (w ∷ rest', e')

unfoldable pub work : ℕ → Received → State → State
work i r s =
    let (workers, effects) = move i r s.workers s.effects in
    record s { workers = workers; effects = effects }

-- What the next call of the main thread returns, whichever it is: the descriptor, the address,
-- whether there is a thread.
pub record Results : Type 0 where
  pub accepted : Option ℕ
  pub allocated : Option ℕ
  pub created : Bool

unfoldable pub accept : Option ℕ → State → State
accept none s = s
accept (some fd) s = record s { main_at = to_allocate fd; effects = call (opens fd) s.effects }

unfoldable pub allocate : ℕ → Option ℕ → State → State
allocate fd none s = record s { main_at = to_close fd }
allocate fd (some arg) s = record s {
  main_at = to_store fd arg;
  effects = assign arg uninitialised s.effects;
}

unfoldable pub create : ℕ → ℕ → Bool → State → State
create fd arg true s = record s { main_at = to_accept; workers = starting arg ∷ s.workers }
create fd arg false s = record s { main_at = to_free fd arg }

-- A step of the loop of `main`.
unfoldable pub serve : MainAt → Results → State → State
serve to_accept r s = accept r.accepted s
serve (to_allocate fd) r s = allocate fd r.allocated s
serve (to_store fd arg) r s = record s {
  main_at = to_create fd arg;
  effects = assign arg (holds fd) s.effects;
}
serve (to_create fd arg) r s = create fd arg r.created s
serve (to_free fd arg) r s = record s {
  main_at = to_close fd;
  effects = assign arg unallocated s.effects;
}
serve (to_close fd) r s = record s { main_at = to_accept; effects = call (closes fd) s.effects }

-- The states that the threads reach, in whatever order they run, once `main` has its socket. The
-- set-up is, call for call, that of the blocking server. `malloc` gives no address that is in use.
pub data Running (server_fd : ℕ) : State → Type 0 where
  listening :
      (s : Startup) (calls : List Call)
      → listen_on s.socket s.bound s.listening [] ≡ (some server_fd, calls)
      → Running server_fd (record {
        main_at = to_accept;
        workers = [];
        effects = record { calls = calls; heap = λ a. unallocated };
      })
  main_runs :
      (r : Results) (s : State)
      → ((a : ℕ) → r.allocated ≡ some a → s.effects.heap a ≡ unallocated)
      → Running server_fd s
      → Running server_fd (serve s.main_at r s)
  worker_runs :
      (i : ℕ) (r : Received) (s : State) → Running server_fd s → Running server_fd (work i r s)
