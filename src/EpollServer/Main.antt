-- ===== src/EpollServer/Main.antt =====
-- Whole runs of the epoll server: what is open when `main` returns.
use cs_lab.Base.{
  ℕ, ◌+◌, ◌≡◌, ◌≢◌, true, List, [], ◌∷◌, some, ◌==◌, arith, ◌⊎◌, inl, inr, Bool-cases,
}
use cs_lab.Net.{opens, Startup, Progress, goes_on, leaves_loop, exits}
use cs_lab.PollServer.{Polled, interrupted, poll_failed, ready}
use cs_lab.Net.Counts.{one, opened, closed}
use cs_lab.EpollServer.{
  Server, Event, set_nonblocking, handle_event, next_step, handle_events, after_wait, serve,
  clean_up, run_epoll, configure, open_socket, main,
}
use cs_lab.EpollServer.Balance.{watches, IsWatchful, handle_event-IsWatchful}

-- What holds of the state where the server goes on.
abbrev pub WhereOn : Progress × Server → (Server → Type 0) → Type 0
WhereOn (goes_on, st) P = P st
WhereOn (leaves_loop, st) P = Unit
WhereOn (exits, st) P = Unit

-- `epoll_wait` reports only descriptors that are watched when their event is handled.
abbrev pub IsHonest : ℕ → List Event → Server → Type 0
IsHonest server_fd [] st = Unit
IsHonest server_fd (e ∷ events) st =
    (watches e.active_fd st.watched ≢ 0)
    × WhereOn (handle_event server_fd e st) (IsHonest server_fd events)

abbrev pub AllHonest : ℕ → List (Polled × List Event) → Server → Type 0
AllHonest server_fd [] st = Unit
AllHonest server_fd ((interrupted, events) ∷ rounds) st = AllHonest server_fd rounds st
AllHonest server_fd ((poll_failed, events) ∷ rounds) st = Unit
AllHonest server_fd ((ready, events) ∷ rounds) st =
    IsHonest server_fd events st
    × WhereOn (handle_events server_fd events st) (AllHonest server_fd rounds)

-- The watched clients are open, and nothing else: the listening socket is watched to the end.
abbrev pub HoldsClients : ℕ → Server → Type 0
HoldsClients server_fd st =
    (d : ℕ) → opened d st.calls + one (server_fd == d) ≡ closed d st.calls + watches d st.watched

abbrev Good : ℕ → Progress × Server → Type 0
Good epfd (p, st) = (p ≡ exits) ⊎ IsWatchful epfd st

module _ (server_fd epfd : ℕ) where
  next_step-Good :
      (P : Server → Type 0) (later : Server → Progress × Server) (out : Progress × Server)
      → Good epfd out
      → WhereOn out P
      → ((st : Server) → IsWatchful epfd st → P st → Good epfd (later st))
      → Good epfd (next_step later out)
  unfolding next_step
  next_step-Good P later (goes_on, st) (inl e) honest ih = grind arith
  next_step-Good P later (goes_on, st) (inr w) honest ih = ih st w honest
  next_step-Good P later (leaves_loop, st) good honest ih = good
  next_step-Good P later (exits, st) good honest ih = good

  handle_events-Good :
      (events : List Event) (st : Server)
      → IsWatchful epfd st
      → IsHonest server_fd events st
      → Good epfd (handle_events server_fd events st)
  unfolding handle_events
  handle_events-Good [] st w honest = inr w
  handle_events-Good (e ∷ events) st w (watched, honest) =
      next_step-Good (IsHonest server_fd events) (handle_events server_fd events)
        (handle_event server_fd e st) (handle_event-IsWatchful epfd server_fd e st watched w) honest
        (handle_events-Good events)

  serve-Good :
      (rounds : List (Polled × List Event)) (st : Server)
      → IsWatchful epfd st
      → AllHonest server_fd rounds st
      → Good epfd (serve server_fd rounds st)
  unfolding serve after_wait next_step
  serve-Good [] st w honest = inr w
  serve-Good ((interrupted, events) ∷ rounds) st w honest = serve-Good rounds st w honest
  serve-Good ((poll_failed, events) ∷ rounds) st w honest = inr w
  serve-Good ((ready, events) ∷ rounds) st w (first, honest) =
      next_step-Good (AllHonest server_fd rounds) (serve server_fd rounds)
        (handle_events server_fd events st) (handle_events-Good events st w first) honest
        (serve-Good rounds)

  abbrev LeavesClients : Progress × Server → Type 0
  LeavesClients (p, st) = p ≡ leaves_loop → HoldsClients server_fd st

  clean_up-LeavesClients :
      (out : Progress × Server) → Good epfd out → LeavesClients (clean_up server_fd epfd out)
  unfolding clean_up opened closed
  clean_up-LeavesClients (goes_on, st) good e = grind arith
  clean_up-LeavesClients (exits, st) good e = grind arith
  clean_up-LeavesClients (leaves_loop, st) (inl never) e = grind arith
  clean_up-LeavesClients (leaves_loop, st) (inr w) e = λ d. omega (arith, w d)

abbrev pub start : ℕ → ℕ → Server
start server_fd epfd = record {
  watched = server_fd ∷ [];
  calls = opens epfd ∷ opens server_fd ∷ [];
}

start-IsWatchful : (server_fd epfd : ℕ) → IsWatchful epfd (start server_fd epfd)
unfolding opened closed watches
start-IsWatchful server_fd epfd d = omega arith

main-LeavesClients :
    (s : Startup) (server_fd epfd : ℕ) (rounds : List (Polled × List Event))
    → s.socket ≡ some server_fd
    → AllHonest server_fd rounds (start server_fd epfd)
    → LeavesClients server_fd epfd (main s (some epfd) true rounds)
unfolding main open_socket configure run_epoll
main-LeavesClients s server_fd epfd rounds e honest =
    let started : IsWatchful epfd (start server_fd epfd) = start-IsWatchful server_fd epfd in
    let finished =
      clean_up-LeavesClients server_fd epfd (serve server_fd rounds (start server_fd epfd))
        (serve-Good server_fd epfd rounds (start server_fd epfd) started honest) in
    rw e (elim (Bool-cases s.options) [
      | inr failed ↦ rw failed (λ x. grind arith)
      | inl a ↦ elim (Bool-cases s.bound) [
        | inr failed ↦ rw (a, failed) (λ x. grind arith)
        | inl b ↦ elim (Bool-cases s.listening) [
          | inr failed ↦ rw (a, b, failed) (λ x. grind arith)
          | inl c ↦ elim (Bool-cases (set_nonblocking s.nonblocking)) [
            | inr failed ↦ rw (a, b, c, failed) (λ x. grind arith)
            | inl n ↦ rw (a, b, c, n) finished
          ]
        ]
      ]
    ])

-- When `main` of the epoll server has its sockets and leaves its loop, and `epoll_wait` has
-- reported only descriptors watched when their event was handled, the descriptors still open are
-- exactly the clients that are watched: the listening socket and the epoll instance are closed and
-- the clients are not.
pub main-leaves_watched :
    (s : Startup) (server_fd epfd : ℕ) (rounds : List (Polled × List Event))
    → s.socket ≡ some server_fd
    → AllHonest server_fd rounds (start server_fd epfd)
    → (main s (some epfd) true rounds).0 ≡ leaves_loop
    → HoldsClients server_fd (main s (some epfd) true rounds).1
main-leaves_watched s server_fd epfd rounds e honest left =
    main-LeavesClients s server_fd epfd rounds e honest left
