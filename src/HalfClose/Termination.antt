-- ===== src/HalfClose/Termination.antt =====
-- The two sides come to their ends whatever the order and the sizes of the reads.
use cs_lab.Base.{ℕ, ◌≤◌, ◌<◌, ◌≡◌, ◌≢◌, none, some, [], ◌++◌, inl, inr, ◌⊎◌, true}
use cs_lab.Interleaving.{or_else-cases, or_else-neither, Ending, run-IsFinished}
use cs_lab.HalfClose.{
  hello, world, response, client_done, server_done, State, client_step, server_step, Side, client,
  server, step, any_step, start, run, Attempt,
}
use cs_lab.HalfClose.Invariant.{Safe, start-Safe}
use cs_lab.HalfClose.Client.{client_step-Keeps}
use cs_lab.HalfClose.Server.{server_step-Keeps}
use cs_lab.HalfClose.Measure.{measure, client_step-Lowers, server_step-Lowers}
use cs_lab.HalfClose.Stuck.{Finished, both_stuck}

step-moves :
    (who : Side) (attempt : Attempt) (s t : State)
    → step who attempt s ≡ some t
    → Safe s
    → Safe t × (measure t < measure s)
unfolding step
step-moves client attempt s t e h = (
  client_step-Keeps attempt s.client_at s.server_at s.connection h t e,
  client_step-Lowers attempt s.client_at s.server_at s.connection t e,
)
step-moves server attempt s t e h = (
  server_step-Keeps attempt s.client_at s.server_at s.connection h t e,
  server_step-Lowers attempt s.client_at s.server_at s.connection t e,
)

any_step-moves :
    (c : Side × Attempt) (s t : State)
    → any_step c s ≡ some t
    → Safe s
    → Safe t × (measure t < measure s)
unfolding any_step
any_step-moves (client, k) s t e h = elim (or_else-cases (step client k s) (step server k s) t e) [
  | inl f ↦ step-moves client k s t f h
  | inr f ↦ step-moves server k s t f h
]
any_step-moves (server, k) s t e h = elim (or_else-cases (step server k s) (step client k s) t e) [
  | inl f ↦ step-moves server k s t f h
  | inr f ↦ step-moves client k s t f h
]

any_step-neither :
    (c : Side × Attempt) (s : State)
    → any_step c s ≡ none
    → (client_step c.1 s.client_at s.server_at s.connection ≡ none)
      × (server_step c.1 s.client_at s.server_at s.connection ≡ none)
unfolding any_step step
any_step-neither (client, k) s e = or_else-neither (step client k s) (step server k s) e
any_step-neither (server, k) s e =
    let both = or_else-neither (step server k s) (step client k s) e in (both.1, both.0)

-- The two sides with the invariant, as a system that ends.
abbrev system : Ending
system = record {
  State = State;
  Choice = Side × Attempt;
  next = any_step;
  measure = measure;
  IsSafe = Safe;
  IsFinished = Finished;
  moves = any_step-moves;
  stops = λ c s e h.
      let neither = any_step-neither c s e in
      both_stuck c.1 s.client_at s.server_at s.connection h neither.0 neither.1;
}

-- Whatever the order of the steps of client and server, however many bytes each read finds and
-- whichever reads fail, while no other call fails: both are at their ends after 33 steps; what the
-- server has read and what is left on its stream are "HelloWorld", and nothing is left unless it
-- has reported a failed read; what the client has read and what is left on its stream are the
-- response, and it has read at least one byte unless its read has failed.
pub half_close-finishes :
    (choices : ℕ → Side × Attempt) (n : ℕ)
    → 33 ≤ n
    → let end = run choices n start in
      (end.client_at ≡ client_done)
      × (end.server_at ≡ server_done)
      × (end.connection.server_got ++ end.connection.to_server.pending ≡ hello ++ world)
      × ((end.connection.server_failed ≡ true) ⊎ (end.connection.server_got ≡ hello ++ world))
      × (end.connection.client_got ++ end.connection.to_client.pending ≡ response)
      × ((end.connection.client_failed ≡ true) ⊎ (end.connection.client_got ≢ []))
half_close-finishes choices n le = run-IsFinished system choices n start start-Safe le
