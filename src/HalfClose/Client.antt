-- ===== src/HalfClose/Client.antt =====
-- The client's steps keep the invariant.
use cs_lab.Base.{
  ℕ, ◌≡◌, refl, ap, sym, ◌∙◌, Bool, true, false, ◌&&◌, List, [], ◌∷◌, ◌++◌, arith, not,
}
use Prim.Native.Nat.{min}
use mathlib.Core.List.{append_assoc, append-nil}
use cs_lab.Interleaving.{Keeps, Keeps-some, Keeps-none}
use cs_lab.Net.Stream.{recv, take-drop}
use cs_lab.HalfClose.{
  hello, world, read_size, ClientAt, to_hello, to_world, to_shutdown, to_read, to_close,
  client_done, ServerAt, reading, to_respond, to_hang_up, server_done, Connection, client_read,
  client_step, Attempt, finds, fails, client_attempt,
}
use cs_lab.HalfClose.Invariant.{has_heard, answered_by, has_hung_up, nonempty, IsSafe, Safe}

-- Where the client has not shut down its side, the server has not heard the end.
not_heard : (b : Bool) → b && true ≡ false → b ≡ false
not_heard true h = h
not_heard false h = h

appended :
    (got pending more : List ℕ) (sent : List ℕ)
    → got ++ pending ≡ sent
    → got ++ (pending ++ more) ≡ sent ++ more
appended got pending more sent e = sym (append_assoc got pending more) ∙ ap (λ l. l ++ more) e

empty_of : (l : List ℕ) → nonempty l ≡ false → l ≡ []
empty_of [] e = refl
empty_of (b ∷ l) e = absurd (grind arith)

-- A read of the client finds the response: the server ends the stream behind it only.
no_early_end :
    (s : ServerAt) (got : List ℕ)
    → true ≡ has_hung_up s
    → got ++ [] ≡ answered_by s
    → nonempty got ≡ false
    → ⊥
no_early_end reading got h e r = grind arith
no_early_end to_respond got h e r = grind arith
no_early_end to_hang_up got h e r = grind arith
no_early_end server_done got h e r =
    let gone = sym (append-nil got) ∙ e in let none_read = empty_of got r in grind arith

read-Keeps :
    (pending : List ℕ) (finished : Bool) (arrived : ℕ) (s : ServerAt) (n : Connection)
    → n.to_client.pending ≡ pending
    → n.to_client.finished ≡ finished
    → IsSafe to_read s n
    → Keeps Safe (client_read s n (recv read_size arrived pending finished))
unfolding recv client_read
read-Keeps [] false arrived s n p f h = Keeps-none Safe
read-Keeps [] true arrived s n p f h = absurd (
    no_early_end s n.client_got (sym f ∙ h.hung_up)
      (ap (λ l. n.client_got ++ l) (sym p) ∙ h.answered) h.read)
read-Keeps (b ∷ more) finished arrived s n p f h = Keeps-some Safe _ (record {
  sent = h.sent;
  shut = h.shut;
  drained = h.drained;
  heard = h.heard;
  answered =
      ap (λ l. b ∷ l) (take-drop (min arrived 1022) more)
      ∙ sym p
      ∙ ap (λ l. l ++ n.to_client.pending) (sym (empty_of n.client_got h.read))
      ∙ h.answered;
  hung_up = h.hung_up;
  early = λ e. absurd (grind arith);
  read = ap not (sym (h.early refl));
})

attempt-Keeps :
    (attempt : Attempt) (s : ServerAt) (n : Connection)
    → IsSafe to_read s n
    → Keeps Safe (client_attempt attempt s n)
unfolding client_attempt
attempt-Keeps (finds arrived) s n h =
    read-Keeps n.to_client.pending n.to_client.finished arrived s n refl refl h
attempt-Keeps fails s n h = Keeps-some Safe _ (record {
  sent = h.sent;
  shut = h.shut;
  drained = h.drained;
  heard = h.heard;
  answered = h.answered;
  hung_up = h.hung_up;
  early = λ e. absurd (grind arith);
  read = h.read;
})

pub client_step-Keeps :
    (attempt : Attempt) (c : ClientAt) (s : ServerAt) (n : Connection)
    → IsSafe c s n
    → Keeps Safe (client_step attempt c s n)
unfolding client_step
client_step-Keeps attempt to_hello s n h = Keeps-some Safe _ (record {
  sent = appended n.server_got n.to_server.pending hello [] h.sent;
  shut = h.shut;
  drained = λ e ok. absurd (let early = not_heard (has_heard s) (h.heard ok) in grind arith);
  heard = h.heard;
  answered = h.answered;
  hung_up = h.hung_up;
  early = h.early;
  read = h.read;
})
client_step-Keeps attempt to_world s n h = Keeps-some Safe _ (record {
  sent = appended n.server_got n.to_server.pending world hello h.sent;
  shut = h.shut;
  drained = λ e ok. absurd (let early = not_heard (has_heard s) (h.heard ok) in grind arith);
  heard = h.heard;
  answered = h.answered;
  hung_up = h.hung_up;
  early = h.early;
  read = h.read;
})
client_step-Keeps attempt to_shutdown s n h = Keeps-some Safe _ (record {
  sent = h.sent;
  shut = refl;
  drained = h.drained;
  heard = λ ok. ground arith;
  answered = h.answered;
  hung_up = h.hung_up;
  early = h.early;
  read = h.read;
})
client_step-Keeps attempt to_read s n h = attempt-Keeps attempt s n h
client_step-Keeps attempt to_close s n h = Keeps-some Safe _ (record {
  sent = h.sent;
  shut = h.shut;
  drained = h.drained;
  heard = h.heard;
  answered = h.answered;
  hung_up = h.hung_up;
  early = λ e. absurd (grind arith);
  read = h.read;
})
client_step-Keeps attempt client_done s n h = Keeps-none Safe
