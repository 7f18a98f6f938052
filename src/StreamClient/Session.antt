-- ===== src/StreamClient/Session.antt =====
-- The stream client and the epoll server: what the client prints is what it has sent.
use cs_lab.Base.{
  ℕ, ◌≡◌, refl, ap, sym, ◌∙◌, true, some, List, [], ◌∷◌, ◌++◌, ==-refl, ◌+◌, false, arith, ltb,
  Bool,
}
use mathlib.Core.List.{append_assoc, append-nil}
use cs_lab.Net.Counts.{one, closed, shut}
use cs_lab.Net.{Call, sends, Received, data_bytes, nothing_yet, recv_failed, take}
use cs_lab.EpollServer
use cs_lab.EpollServer.{Server}
use cs_lab.EpollServer.Echo.{sent, stream, chunk_then, sent-read_all}
use cs_lab.StreamClient.{
  first_message, second_message, third_message, connect_to_server, print_then, read_all, main,
}

-- The events on one client, one after the other, each with what `recv` returns in it.
unfoldable pub serve_events : ℕ → List (List Received) → Server → Server
serve_events fd [] st = st
serve_events fd (recvs ∷ events) st = serve_events fd events (EpollServer.read_all fd recvs st)

unfoldable pub streams : List (List Received) → List ℕ
streams [] = []
streams (recvs ∷ events) = stream recvs ++ streams events

sent-serve_events :
    (fd : ℕ) (events : List (List Received)) (st : Server)
    → sent fd (serve_events fd events st).calls ≡ sent fd st.calls ++ streams events
unfolding serve_events streams
sent-serve_events fd [] st = sym (append-nil (sent fd st.calls))
sent-serve_events fd (recvs ∷ events) st =
    sent-serve_events fd events (EpollServer.read_all fd recvs st)
    ∙ ap (λ l. l ++ streams events) (sent-read_all fd recvs st)
    ∙ append_assoc (sent fd st.calls) (stream recvs) (streams events)

-- Whether the reads find the end of the connection, before EAGAIN.
unfoldable pub over_then : List ℕ → Bool → Bool
over_then [] later = true
over_then (b ∷ more) later = later

unfoldable pub is_over : List Received → Bool
is_over [] = false
is_over (data_bytes bytes ∷ later) = over_then (take 1023 bytes) (is_over later)
is_over (nothing_yet ∷ later) = false
is_over (recv_failed ∷ later) = true

-- In how many events the server finds the end.
unfoldable pub overs : List (List Received) → ℕ
overs [] = 0
overs (recvs ∷ events) = one (is_over recvs) + overs events

closed-echo :
    (fd : ℕ) (bytes : List ℕ) (rest : Bool) (later : Server → Server) (st : Server)
    → ((u : Server) → closed fd (later u).calls ≡ closed fd u.calls + one rest)
    → closed fd (EpollServer.echo fd bytes later st).calls
      ≡ closed fd st.calls + one (over_then bytes rest)
unfolding EpollServer.echo EpollServer.drop_client closed over_then
closed-echo fd [] rest later st ih = rw (==-refl fd) (omega arith)
closed-echo fd (b ∷ more) rest later st ih =
    ih (record st { calls = sends fd (b ∷ more) ∷ st.calls })

-- The server closes a client exactly where it finds the end.
closed-read_all :
    (fd : ℕ) (recvs : List Received) (st : Server)
    → closed fd (EpollServer.read_all fd recvs st).calls ≡ closed fd st.calls + one (is_over recvs)
unfolding EpollServer.read_all EpollServer.drop_client closed is_over
closed-read_all fd [] st = omega arith
closed-read_all fd (data_bytes bytes ∷ later) st =
    closed-echo fd (take 1023 bytes) (is_over later) (EpollServer.read_all fd later) st
      (closed-read_all fd later)
closed-read_all fd (nothing_yet ∷ later) st = omega arith
closed-read_all fd (recv_failed ∷ later) st = rw (==-refl fd) (omega arith)

closed-serve_events :
    (fd : ℕ) (events : List (List Received)) (st : Server)
    → closed fd (serve_events fd events st).calls ≡ closed fd st.calls + overs events
unfolding serve_events overs
closed-serve_events fd [] st = omega arith
closed-serve_events fd (recvs ∷ events) st = omega (
  arith,
  closed-serve_events fd events (EpollServer.read_all fd recvs st),
  closed-read_all fd recvs st,
)

-- A client that finds the end prints the stream and leaves its loop.
read_all-over :
    (recvs : List Received) → is_over recvs ≡ true → read_all recvs ≡ (stream recvs, true)
unfolding read_all stream print_then chunk_then take is_over over_then
read_all-over [] e = absurd (grind arith)
read_all-over (data_bytes [] ∷ later) e = refl
read_all-over (data_bytes (b ∷ more) ∷ later) e =
    ap (print_then (b ∷ take 1022 more)) (read_all-over later e)
read_all-over (nothing_yet ∷ later) e = absurd (grind arith)
read_all-over (recv_failed ∷ later) e = refl

abbrev pub messages : List ℕ
messages = first_message ++ second_message ++ third_message

-- The calls of the client, whatever it reads.
abbrev pub client_calls : ℕ → List Received → List Call
client_calls client_fd recvs = (main (some client_fd) true true recvs []).1

sent_lem :
    (client_fd : ℕ) (recvs : List Received)
    → sent client_fd (client_calls client_fd recvs) ≡ messages
unfolding main connect_to_server sent
sent_lem client_fd recvs = rw (==-refl client_fd) refl

shut_lem :
    (client_fd : ℕ) (recvs : List Received) → shut client_fd (client_calls client_fd recvs) ≡ 1
unfolding main connect_to_server shut
shut_lem client_fd recvs = rw (==-refl client_fd) refl

-- The stream client connected to the epoll server prints "HELLOWORLDABCDE", what it has sent, and
-- comes to the end of its loop, and the server closes its descriptor once, however the two streams
-- are cut up into reads: if nothing was sent to that descriptor before and it was not closed, each
-- side receives what the other has sent, the server finds the end as often as the client has shut
-- its side down, and the client finds it exactly if the server has closed.
pub session-echoes :
    (client_fd fd : ℕ) (events : List (List Received)) (st : Server) (recvs : List Received)
    → sent fd st.calls ≡ []
    → closed fd st.calls ≡ 0
    → streams events ≡ sent client_fd (client_calls client_fd recvs)
    → overs events ≡ shut client_fd (client_calls client_fd recvs)
    → stream recvs ≡ sent fd (serve_events fd events st).calls
    → is_over recvs ≡ ltb 0 (closed fd (serve_events fd events st).calls)
    → ((main (some client_fd) true true recvs []).0 ≡ some (messages, true))
      × (closed fd (serve_events fd events st).calls ≡ 1)
unfolding main connect_to_server
session-echoes client_fd fd events st recvs silent fresh up up_end down down_end =
    let closed_once : closed fd (serve_events fd events st).calls ≡ 1 =
      omega (arith, closed-serve_events fd events st, shut_lem client_fd recvs) in
    let over : is_over recvs ≡ true = down_end ∙ ap (ltb 0) closed_once in
    let printed : stream recvs ≡ messages =
      down
      ∙ sent-serve_events fd events st
      ∙ ap (λ l. l ++ streams events) silent
      ∙ up
      ∙ sent_lem client_fd recvs in
    (ap some (read_all-over recvs over ∙ ap (λ l. (l, true)) printed), closed_once)
