-- ===== src/EpollServer/Tests.antt =====
-- Runs of the epoll server.
use cs_lab.Base.{◌≡◌, refl, true, false, none, some, [], ◌∷◌, arith, List}
use cs_lab.Net.{opens, closes, sends, Startup, data_bytes, leaves_loop, take}
use cs_lab.PollServer.{ready, interrupted, poll_failed, Polled}
use cs_lab.EpollServer.{
  Event, connection, main, open_socket, configure, run_epoll, serve, next_step, after_wait,
  handle_events, handle_event, accept_all, made_nonblocking, set_nonblocking, add_client, read_all,
  echo, drop_client, unwatch, clean_up,
}
use cs_lab.EpollServer.Main.{AllHonest, HoldsClients, start, main-leaves_watched}
use cs_lab.EpollServer.Balance.{watches}

abbrev startup : Startup
startup = record {
  socket = some 3;
  options = true;
  bound = true;
  listening = true;
  nonblocking = record { flags = none; set = false };
}

-- The client 5 connects, and 6, which `epoll_ctl` refuses.
abbrev arrivals : Event
arrivals = record {
  active_fd = 3;
  accepts = connection 5 (startup.nonblocking) true ∷ connection 6 (startup.nonblocking) false ∷ [];
  recvs = [];
}

-- The client sends twice and leaves.
abbrev farewell : Event
farewell = record {
  active_fd = 5;
  accepts = [];
  recvs = data_bytes (65 ∷ 66 ∷ []) ∷ data_bytes (67 ∷ []) ∷ data_bytes [] ∷ [];
}

run_main :
    main startup
      (some 4)
      true
      ((ready, arrivals ∷ []) ∷ (interrupted, []) ∷ (ready, farewell ∷ []) ∷ (poll_failed, []) ∷ [])
    ≡ (
      leaves_loop,
      record {
        watched = 3 ∷ [];
        calls =
            closes 4
            ∷ closes 3
            ∷ closes 5
            ∷ sends 5 (67 ∷ [])
            ∷ sends 5 (65 ∷ 66 ∷ [])
            ∷ closes 6
            ∷ opens 6
            ∷ opens 5
            ∷ opens 4
            ∷ opens 3
            ∷ [];
      },
    )
unfolding main open_socket configure run_epoll serve next_step after_wait handle_events handle_event
    accept_all made_nonblocking set_nonblocking add_client read_all echo drop_client unwatch
    clean_up take
run_main = refl

-- The same rounds, with the client that stays when `epoll_wait` fails.
abbrev rounds : List (Polled × List Event)
rounds = (ready, arrivals ∷ []) ∷ (interrupted, []) ∷ (poll_failed, []) ∷ []

rounds-AllHonest : AllHonest 3 rounds (start 3 4)
unfolding handle_events handle_event accept_all made_nonblocking set_nonblocking add_client watches
    next_step
rounds-AllHonest = ((omega arith, tt), tt)

main-leaves_watched_example : HoldsClients 3 (main startup (some 4) true rounds).1
unfolding main open_socket configure run_epoll serve after_wait handle_events handle_event
    accept_all made_nonblocking set_nonblocking next_step clean_up
main-leaves_watched_example = main-leaves_watched startup 3 4 rounds refl rounds-AllHonest refl
