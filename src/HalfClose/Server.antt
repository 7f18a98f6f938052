-- ===== src/HalfClose/Server.antt =====
-- The server's steps keep the invariant.
use cs_lab.Base.{ℕ, ◌≡◌, refl, ap, sym, ◌∙◌, Bool, true, false, not, List, [], ◌∷◌, ◌++◌, arith}
use Prim.Native.Nat.{min}
use mathlib.Core.List.{append_assoc}
use cs_lab.Interleaving.{Keeps, Keeps-some, Keeps-none}
use cs_lab.Net.{take}
use cs_lab.Net.Stream.{recv, drop, take-drop}
use cs_lab.HalfClose.{
  response, read_size, ClientAt, ServerAt, reading, to_respond, to_hang_up, server_done, Connection,
  server_read, server_step, Attempt, finds, fails, server_attempt,
}
use cs_lab.HalfClose.Invariant.{IsSafe, Safe}

read-Keeps :
    (pending : List ℕ) (finished : Bool) (arrived : ℕ) (c : ClientAt) (n : Connection)
    → n.to_server.pending ≡ pending
    → n.to_server.finished ≡ finished
    → IsSafe c reading n
    → Keeps Safe (server_read c n (recv read_size arrived pending finished))
unfolding recv server_read
read-Keeps [] false arrived c n p f h = Keeps-none Safe
read-Keeps [] true arrived c n p f h = Keeps-some Safe _ (record {
  sent = h.sent;
  shut = h.shut;
  drained = λ e ok. p;
  heard = λ ok. ap not (sym h.shut ∙ f);
  answered = h.answered;
  hung_up = h.hung_up;
  early = h.early;
  read = h.read;
})
read-Keeps (b ∷ more) finished arrived c n p f h =
    let k = min arrived 1022 in
    Keeps-some Safe _ (record {
      sent =
          append_assoc n.server_got (b ∷ take k more) (drop k more)
          ∙ ap (λ l. n.server_got ++ b ∷ l) (take-drop k more)
          ∙ ap (λ l. n.server_got ++ l) (sym p)
          ∙ h.sent;
      shut = h.shut;
      drained = λ e ok. absurd (grind arith);
      heard = h.heard;
      answered = h.answered;
      hung_up = h.hung_up;
      early = h.early;
      read = h.read;
    })

attempt-Keeps :
    (attempt : Attempt) (c : ClientAt) (n : Connection)
    → IsSafe c reading n
    → Keeps Safe (server_attempt attempt c n)
unfolding server_attempt
attempt-Keeps (finds arrived) c n h =
    read-Keeps n.to_server.pending n.to_server.finished arrived c n refl refl h
attempt-Keeps fails c n h = Keeps-some Safe _ (record {
  sent = h.sent;
  shut = h.shut;
  drained = λ e ok. absurd (grind arith);
  heard = λ ok. absurd (grind arith);
  answered = h.answered;
  hung_up = h.hung_up;
  early = h.early;
  read = h.read;
})

pub server_step-Keeps :
    (attempt : Attempt) (c : ClientAt) (s : ServerAt) (n : Connection)
    → IsSafe c s n
    → Keeps Safe (server_step attempt c s n)
unfolding server_step
server_step-Keeps attempt c reading n h = attempt-Keeps attempt c n h
server_step-Keeps attempt c to_respond n h = Keeps-some Safe _ (record {
  sent = h.sent;
  shut = h.shut;
  drained = λ e ok. h.drained refl ok;
  heard = h.heard;
  answered =
      sym (append_assoc n.client_got n.to_client.pending response)
      ∙ ap (λ l. l ++ response) h.answered;
  hung_up = h.hung_up;
  early = h.early;
  read = h.read;
})
server_step-Keeps attempt c to_hang_up n h = Keeps-some Safe _ (record {
  sent = h.sent;
  shut = h.shut;
  drained = λ e ok. h.drained refl ok;
  heard = h.heard;
  answered = h.answered;
  hung_up = refl;
  early = h.early;
  read = h.read;
})
server_step-Keeps attempt c server_done n h = Keeps-none Safe
