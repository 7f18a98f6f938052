-- ===== src/StreamClient/Tests.antt =====
-- A session of the stream client with the epoll server.
use cs_lab.Base.{◌≡◌, refl, true, false, none, some, List, [], ◌∷◌}
use cs_lab.Net.{Received, data_bytes, nothing_yet, take, opens, closes}
use cs_lab.EpollServer
use cs_lab.Net.Counts.{closed, shut}
use cs_lab.EpollServer.{Server}
use cs_lab.EpollServer.Echo.{sent, stream, chunk_then}
use cs_lab.StreamClient.{main, connect_to_server}
use cs_lab.StreamClient.Session.{
  messages, serve_events, streams, overs, is_over, over_then, session-echoes,
}

-- The server finds the messages in two events, in pieces that are not the messages.
abbrev events : List (List Received)
events =
    (data_bytes (72 ∷ 69 ∷ 76 ∷ []) ∷ nothing_yet ∷ [])
    ∷ (data_bytes (76 ∷ 79 ∷ 87 ∷ 79 ∷ 82 ∷ 76 ∷ 68 ∷ 65 ∷ 66 ∷ 67 ∷ 68 ∷ 69 ∷ [])
        ∷ data_bytes []
        ∷ [])
    ∷ []

abbrev answers : List Received
answers = data_bytes messages ∷ data_bytes [] ∷ []

abbrev accepted : Server
accepted = record { watched = 5 ∷ 3 ∷ []; calls = opens 5 ∷ opens 4 ∷ opens 3 ∷ [] }

run_refused : main (some 3) true false answers [] ≡ (none, closes 3 ∷ opens 3 ∷ [])
unfolding main connect_to_server
run_refused = refl

-- The end is there only because the client shuts down its side.
session-echoes_example :
    ((main (some 3) true true answers []).0 ≡ some (messages, true))
    × (closed 5 (serve_events 5 events accepted).calls ≡ 1)
unfolding main connect_to_server sent stream chunk_then take serve_events streams overs is_over
    over_then closed shut EpollServer.read_all EpollServer.echo EpollServer.drop_client
    EpollServer.unwatch
session-echoes_example = session-echoes 3 5 events accepted answers refl refl refl refl refl refl
