-- ===== src/HalfClose/Invariant.antt =====
-- What the two sides of the half-closed connection keep.
use cs_lab.Base.{ℕ, ◌≡◌, refl, Bool, true, false, ◌&&◌, not, List, [], ◌∷◌, ◌++◌}
use cs_lab.HalfClose.{
  hello, world, response, ClientAt, to_hello, to_world, to_shutdown, to_close, client_done,
  ServerAt, reading, to_respond, server_done, Connection, State, start,
}

-- What the client has sent.
abbrev pub sent_by : ClientAt → List ℕ
sent_by to_hello = []
sent_by to_world = hello
sent_by _ = hello ++ world

abbrev pub has_shut : ClientAt → Bool
has_shut to_hello = false
has_shut to_world = false
has_shut to_shutdown = false
has_shut _ = true

abbrev pub has_read : ClientAt → Bool
has_read to_close = true
has_read client_done = true
has_read _ = false

abbrev pub has_heard : ServerAt → Bool
has_heard reading = false
has_heard _ = true

-- What the server has sent.
abbrev pub answered_by : ServerAt → List ℕ
answered_by reading = []
answered_by to_respond = []
answered_by _ = response

abbrev pub has_hung_up : ServerAt → Bool
has_hung_up server_done = true
has_hung_up _ = false

abbrev pub nonempty : List ℕ → Bool
nonempty [] = false
nonempty (_ ∷ _) = true

pub record IsSafe (c : ClientAt) (s : ServerAt) (n : Connection) : Type 0 where
  pub sent : n.server_got ++ n.to_server.pending ≡ sent_by c
  pub shut : n.to_server.finished ≡ has_shut c
  pub drained : has_heard s ≡ true → n.server_failed ≡ false → n.to_server.pending ≡ []
  pub heard : n.server_failed ≡ false → has_heard s && not (has_shut c) ≡ false
  pub answered : n.client_got ++ n.to_client.pending ≡ answered_by s
  pub hung_up : n.to_client.finished ≡ has_hung_up s
  pub early : has_read c ≡ false → n.client_failed ≡ false
  pub read : nonempty n.client_got ≡ has_read c && not n.client_failed

abbrev pub Safe : State → Type 0
Safe s = IsSafe s.client_at s.server_at s.connection

pub start-Safe : Safe start
start-Safe = record {
  sent = refl;
  shut = refl;
  drained = λ e ok. refl;
  heard = λ ok. refl;
  answered = refl;
  hung_up = refl;
  early = λ e. refl;
  read = refl;
}
