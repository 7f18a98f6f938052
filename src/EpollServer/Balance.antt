-- ===== src/EpollServer/Balance.antt =====
-- The open descriptors are the watched ones and the epoll instance.
use cs_lab.Base.{
  ℕ, ◌+◌, ◌≡◌, ◌≢◌, refl, Bool, true, false, List, [], ◌∷◌, ◌==◌, if◌then◌else◌, arith, ◌⊎◌, inl,
  inr, Bool-cases, ==→eq, ==-refl, subst,
}
use cs_lab.Net.{
  opens, sends, Received, data_bytes, nothing_yet, recv_failed, take, Progress, goes_on, exits,
}
use cs_lab.Net.Counts.{one, opened, closed}
use cs_lab.EpollServer.{
  Server, Connecting, connection, nobody, accept_failed, add_client, accept_all, made_nonblocking,
  set_nonblocking, unwatch, read_all, echo, drop_client, Event, handle_event,
}

-- How often `epoll_ctl` has added the descriptor without deleting it.
unfoldable pub watches : ℕ → List ℕ → ℕ
watches d [] = 0
watches d (w ∷ rest) = one (w == d) + watches d rest

-- What may happen in the main loop: `epoll_wait` reports watched descriptors only.
pub data Reached (server_fd epfd : ℕ) : Server → Type 0 where
  started :
      Reached server_fd epfd
        (record { watched = server_fd ∷ []; calls = opens epfd ∷ opens server_fd ∷ [] })
  event :
      (st st' : Server) (e : Event)
      → Reached server_fd epfd st
      → watches e.active_fd st.watched ≢ 0
      → handle_event server_fd e st ≡ (goes_on, st')
      → Reached server_fd epfd st'

-- Every descriptor was closed as often as it was opened, but for the watched ones and `epfd`.
abbrev pub IsWatchful : ℕ → Server → Type 0
IsWatchful epfd st =
    (d : ℕ) → opened d st.calls ≡ closed d st.calls + (watches d st.watched + one (epfd == d))

module _ (epfd : ℕ) where
  add_client-IsWatchful :
      (client : ℕ) (added : Bool) (st : Server)
      → IsWatchful epfd st
      → IsWatchful epfd (add_client client added st)
  unfolding add_client opened closed watches
  add_client-IsWatchful client true st w d = omega (arith, w d)
  add_client-IsWatchful client false st w d = omega (arith, w d)

  made_nonblocking-IsWatchful :
      (b : Bool) (later : Progress × Server) (st : Server)
      → (later.0 ≡ exits) ⊎ IsWatchful epfd later.1
      → let (p, g) = made_nonblocking b later st in (p ≡ exits) ⊎ IsWatchful epfd g
  unfolding made_nonblocking
  made_nonblocking-IsWatchful true later st h = h
  made_nonblocking-IsWatchful false later st h = inl refl

  accept_all-IsWatchful :
      (accepts : List Connecting) (st : Server)
      → IsWatchful epfd st
      → let (p, g) = accept_all accepts st in (p ≡ exits) ⊎ IsWatchful epfd g
  unfolding accept_all
  accept_all-IsWatchful [] st w = inr w
  accept_all-IsWatchful (nobody ∷ later) st w = inr w
  accept_all-IsWatchful (accept_failed ∷ later) st w = inr w
  accept_all-IsWatchful (connection client f added ∷ later) st w =
      made_nonblocking-IsWatchful (set_nonblocking f)
        (accept_all later (add_client client added st))
        (record st { calls = opens client ∷ st.calls })
        (accept_all-IsWatchful later (add_client client added st)
          (add_client-IsWatchful client added st w))

  watches-unwatch :
      (d fd : ℕ) (l : List ℕ)
      → watches fd l ≢ 0
      → one (fd == d) + watches d (unwatch fd l) ≡ watches d l
  unfolding watches unwatch
  watches-unwatch d fd [] h = grind arith
  watches-unwatch d fd (w ∷ rest) h = elim (Bool-cases (w == fd)) [
    | inl e ↦ rw (==→eq w fd e, ==-refl fd) refl
    | inr ne ↦
        let k : watches fd rest ≢ 0 = λ z. h (rw (ne, z) refl) in
        let ih = watches-unwatch d fd rest k in rw ne (omega (arith, ih))
  ]

  drop_client-IsWatchful :
      (fd : ℕ) (st : Server)
      → watches fd st.watched ≢ 0
      → IsWatchful epfd st
      → IsWatchful epfd (drop_client fd st)
  unfolding drop_client opened closed
  drop_client-IsWatchful fd st h w d = omega (arith, w d, watches-unwatch d fd st.watched h)

  echo-IsWatchful :
      (fd : ℕ) (bytes : List ℕ) (later : Server → Server) (st : Server)
      → ((u : Server) → watches fd u.watched ≢ 0 → IsWatchful epfd u → IsWatchful epfd (later u))
      → watches fd st.watched ≢ 0
      → IsWatchful epfd st
      → IsWatchful epfd (echo fd bytes later st)
  unfolding echo opened closed
  echo-IsWatchful fd [] later st ih h w = drop_client-IsWatchful fd st h w
  echo-IsWatchful fd (b ∷ more) later st ih h w =
      ih (record st { calls = sends fd (b ∷ more) ∷ st.calls }) h w

  read_all-IsWatchful :
      (fd : ℕ) (recvs : List Received) (st : Server)
      → watches fd st.watched ≢ 0
      → IsWatchful epfd st
      → IsWatchful epfd (read_all fd recvs st)
  unfolding read_all
  read_all-IsWatchful fd [] st h w = w
  read_all-IsWatchful fd (data_bytes bytes ∷ later) st h w =
      echo-IsWatchful fd (take 1023 bytes) (read_all fd later) st (read_all-IsWatchful fd later) h w
  read_all-IsWatchful fd (nothing_yet ∷ later) st h w = w
  read_all-IsWatchful fd (recv_failed ∷ later) st h w = drop_client-IsWatchful fd st h w

  pub handle_event-IsWatchful :
      (server_fd : ℕ) (e : Event) (st : Server)
      → watches e.active_fd st.watched ≢ 0
      → IsWatchful epfd st
      → let (p, g) = handle_event server_fd e st in (p ≡ exits) ⊎ IsWatchful epfd g
  unfolding handle_event
  handle_event-IsWatchful server_fd e st h w = go (e.active_fd == server_fd)
    where
      go :
          (b : Bool)
          → let (p, g) =
              (if b then accept_all e.accepts st else (goes_on, read_all e.active_fd e.recvs st)) in
            (p ≡ exits) ⊎ IsWatchful epfd g
      go true = accept_all-IsWatchful e.accepts st w
      go false = inr (read_all-IsWatchful e.active_fd e.recvs st h w)

-- In every state that the epoll server reaches by events on watched descriptors, each descriptor
-- was opened as often as it was closed, plus once where it is watched, and once for the epoll
-- instance.
pub Reached-IsWatchful :
    (server_fd epfd : ℕ) (st : Server) → Reached server_fd epfd st → IsWatchful epfd st
unfolding opened closed watches
Reached-IsWatchful server_fd epfd st started = λ d. omega arith
Reached-IsWatchful server_fd epfd st' (event st _ e r h s) =
    elim (handle_event-IsWatchful epfd server_fd e st h (Reached-IsWatchful server_fd epfd st r)) [
      | inl stopped ↦ grind arith
      | inr w ↦ subst (λ out. IsWatchful epfd (out.1)) s w
    ]
