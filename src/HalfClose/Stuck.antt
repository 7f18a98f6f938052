-- ===== src/HalfClose/Stuck.antt =====
-- Where neither side can move, both are done and have what was sent.
use cs_lab.Base.{
  ℕ, ◌≡◌, ◌≢◌, refl, ap, sym, ◌∙◌, Bool, true, false, Option, none, some, List, [], ◌∷◌, ◌++◌,
  arith, ◌⊎◌, inl, inr, Bool-cases, ◌&&◌, not,
}
use mathlib.Core.List.{append-nil}
use cs_lab.Net.Stream.{recv}
use cs_lab.HalfClose.{
  hello, world, response, read_size, ClientAt, to_hello, to_world, to_shutdown, to_read, to_close,
  client_done, ServerAt, reading, to_respond, to_hang_up, server_done, Connection, State, state,
  client_read, client_step, server_read, server_step, Attempt, finds, fails, client_attempt,
  server_attempt,
}
use cs_lab.HalfClose.Invariant.{
  sent_by, has_shut, has_read, has_heard, answered_by, has_hung_up, nonempty, IsSafe,
}

-- A side is blocked on an empty stream that has not ended.
recv_blocked :
    (size arrived : ℕ) (pending : List ℕ) (finished : Bool)
    → recv size arrived pending finished ≡ none
    → (pending ≡ []) × (finished ≡ false)
unfolding recv
recv_blocked size arrived [] false e = (refl, refl)
recv_blocked size arrived [] true e = absurd (grind arith)
recv_blocked size arrived (b ∷ more) finished e = absurd (grind arith)

client_read-none :
    (s : ServerAt) (n : Connection) (got : Option (List ℕ × List ℕ))
    → client_read s n got ≡ none
    → got ≡ none
unfolding client_read
client_read-none s n none e = refl
client_read-none s n (some (bytes, rest)) e = absurd (grind arith)

server_read-none :
    (c : ClientAt) (n : Connection) (got : Option (List ℕ × List ℕ))
    → server_read c n got ≡ none
    → got ≡ none
unfolding server_read
server_read-none c n none e = refl
server_read-none c n (some ([], rest)) e = absurd (grind arith)
server_read-none c n (some (b ∷ more, rest)) e = absurd (grind arith)

client_attempt-none :
    (attempt : Attempt) (s : ServerAt) (n : Connection)
    → client_attempt attempt s n ≡ none
    → (n.to_client.pending ≡ []) × (n.to_client.finished ≡ false)
unfolding client_attempt
client_attempt-none (finds arrived) s n e =
    recv_blocked read_size arrived n.to_client.pending n.to_client.finished
      (client_read-none s n _ e)
client_attempt-none fails s n e = absurd (grind arith)

server_attempt-none :
    (attempt : Attempt) (c : ClientAt) (n : Connection)
    → server_attempt attempt c n ≡ none
    → (n.to_server.pending ≡ []) × (n.to_server.finished ≡ false)
unfolding server_attempt
server_attempt-none (finds arrived) c n e =
    recv_blocked read_size arrived n.to_server.pending n.to_server.finished
      (server_read-none c n _ e)
server_attempt-none fails c n e = absurd (grind arith)

-- A client that cannot move is done, or waits for the response with its side shut.
client_stuck :
    (attempt : Attempt) (c : ClientAt) (s : ServerAt) (n : Connection)
    → client_step attempt c s n ≡ none
    → (c ≡ client_done)
      ⊎ ((c ≡ to_read) × (n.to_client.pending ≡ []) × (n.to_client.finished ≡ false))
unfolding client_step
client_stuck attempt to_hello s n e = absurd (grind arith)
client_stuck attempt to_world s n e = absurd (grind arith)
client_stuck attempt to_shutdown s n e = absurd (grind arith)
client_stuck attempt to_read s n e =
    let blocked = client_attempt-none attempt s n e in inr (refl, blocked.0, blocked.1)
client_stuck attempt to_close s n e = absurd (grind arith)
client_stuck attempt client_done s n e = inl refl

server_stuck :
    (attempt : Attempt) (c : ClientAt) (s : ServerAt) (n : Connection)
    → server_step attempt c s n ≡ none
    → (s ≡ server_done) ⊎ ((s ≡ reading) × (n.to_server.finished ≡ false))
unfolding server_step
server_stuck attempt c reading n e = inr (refl, (server_attempt-none attempt c n e).1)
server_stuck attempt c to_respond n e = absurd (grind arith)
server_stuck attempt c to_hang_up n e = absurd (grind arith)
server_stuck attempt c server_done n e = inl refl

-- Both sides are done. What the server has read and left is all that was sent, and it has left
-- nothing unless a read of it failed; what the client has read and left is the response, and it has
-- read some of it unless its read failed.
abbrev pub Finished : State → Type 0
Finished s =
    (s.client_at ≡ client_done)
    × (s.server_at ≡ server_done)
    × (s.connection.server_got ++ s.connection.to_server.pending ≡ hello ++ world)
    × ((s.connection.server_failed ≡ true) ⊎ (s.connection.server_got ≡ hello ++ world))
    × (s.connection.client_got ++ s.connection.to_client.pending ≡ response)
    × ((s.connection.client_failed ≡ true) ⊎ (s.connection.client_got ≢ []))

both_done :
    (c : ClientAt) (s : ServerAt) (n : Connection)
    → IsSafe c s n
    → c ≡ client_done
    → s ≡ server_done
    → Finished (state c s n)
both_done c s n h e f = (
  e,
  f,
  h.sent ∙ ap sent_by e,
  elim (Bool-cases n.server_failed) [
    | inl failed ↦ inl failed
    | inr fine ↦ inr (
        sym (append-nil n.server_got)
        ∙ ap (λ l. n.server_got ++ l) (sym (h.drained (ap has_heard f) fine))
        ∙ h.sent
        ∙ ap sent_by e)
  ],
  h.answered ∙ ap answered_by f,
  elim (Bool-cases n.client_failed) [
    | inl failed ↦ inl failed
    | inr fine ↦ inr (λ z.
        let some_read = h.read ∙ ap (λ b. b && not n.client_failed) (ap has_read e) ∙ ap not fine in
        let none_read = ap nonempty z in grind arith)
  ],
)

pub both_stuck :
    (attempt : Attempt) (c : ClientAt) (s : ServerAt) (n : Connection)
    → IsSafe c s n
    → client_step attempt c s n ≡ none
    → server_step attempt c s n ≡ none
    → Finished (state c s n)
both_stuck attempt c s n h e f = elim (client_stuck attempt c s n e) [
  | inl c_done ↦ elim (server_stuck attempt c s n f) [
    | inl s_done ↦ both_done c s n h c_done s_done
    | inr blocked ↦ absurd (let shut = sym blocked.1 ∙ h.shut ∙ ap has_shut c_done in grind arith)
  ]
  | inr waits ↦ elim (server_stuck attempt c s n f) [
    | inl s_done ↦
        absurd (let ended = sym waits.2 ∙ h.hung_up ∙ ap has_hung_up s_done in grind arith)
    | inr blocked ↦ absurd (let shut = sym blocked.1 ∙ h.shut ∙ ap has_shut waits.0 in grind arith)
  ]
]
