-- ===== src/HalfClose/Tests.antt =====
-- A run of the half-closed connection, and what its client may miss.
use cs_lab.Interleaving
use cs_lab.Base.{ℕ, ◌≡◌, ◌≢◌, refl, arith, [], ◌++◌, ◌⊎◌, true}
use cs_lab.Net.{take}
use cs_lab.Net.Stream.{recv, drop}
use cs_lab.HalfClose.{
  hello, world, response, server, Side, start, run, any_step, step, client_step, server_step,
  client_read, server_read, client_done, server_done, Attempt, finds, fails, client_attempt,
  server_attempt,
}
use cs_lab.HalfClose.Termination.{half_close-finishes}

-- The server moves where it can, and a read finds at most three bytes.
abbrev sparse : ℕ → Side × Attempt
sparse n = (server, finds 2)

-- The one `read` of the client may stop within the response.
run-sparse : (run sparse 33 start).connection.client_got ≡ take 3 response
unfolding Interleaving.run Interleaving.run_on any_step Interleaving.or_else step client_step
    client_attempt server_attempt server_step client_read server_read recv drop take
run-sparse = refl

-- The first read of the server fails: it answers all the same.
abbrev broken : ℕ → Side × Attempt
broken n = (server, fails)

run-broken :
    let end = (run broken 33 start).connection in (end.server_got ≡ []) × (end.server_failed ≡ true)
unfolding run-sparse
run-broken = (refl, refl)

half_close-finishes_example :
    let end = run sparse 33 start in
    (end.client_at ≡ client_done)
    × (end.server_at ≡ server_done)
    × (end.connection.server_got ++ end.connection.to_server.pending ≡ hello ++ world)
    × ((end.connection.server_failed ≡ true) ⊎ (end.connection.server_got ≡ hello ++ world))
    × (end.connection.client_got ++ end.connection.to_client.pending ≡ response)
    × ((end.connection.client_failed ≡ true) ⊎ (end.connection.client_got ≢ []))
half_close-finishes_example = half_close-finishes sparse 33 (omega arith)
