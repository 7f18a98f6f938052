-- ===== src/PollServer/Orderly.antt =====
-- Rounds in which no slot is reported both with data and with a fault where `recv` finds the end.
use cs_lab.Base.{
  ℕ, ◌+◌, ◌≡◌, refl, Bool, true, false, ◌&&◌, not, Option, none, some, List, [], ◌∷◌, arith, ap,
  sym, ◌∙◌,
}
use mathlib.Core.Option.{some-injective}
use cs_lab.Net.{opens, Slot, Revents, Received, poll_slots, reported}
use cs_lab.Net.Counts.{held, is_held}
use cs_lab.PollServer.{Server, Round, register, register_at, admit, add_client}
use cs_lab.PollServer.Balance.{is_conflict, is_orderly}

-- No slot is reported both with data and with a fault where `recv` then finds the end.
abbrev pub IsOrderly : Round → Type 0
IsOrderly r = (i : ℕ) → is_conflict (r.revents i) (r.recvs i) ≡ false

pub data AllOrderly : List Round → Type 0 where
  no_more : AllOrderly []
  and_more :
      {r : Round} {rounds : List Round} → IsOrderly r → AllOrderly rounds → AllOrderly (r ∷ rounds)

reported_conflict :
    (fd : Option ℕ) (asked : Bool) (e : Revents) (r : Received)
    → is_conflict e r ≡ false
    → is_conflict (reported fd asked e) r ≡ false
unfolding reported
reported_conflict none asked e r h = refl
reported_conflict (some fd) true e r h = h
reported_conflict (some fd) false e r h = refl

pub is_orderly-poll_slots :
    (r : Round) (i : ℕ) (slots : List Slot)
    → IsOrderly r
    → is_orderly r.recvs i (poll_slots r.revents i slots) ≡ true
unfolding poll_slots is_orderly
is_orderly-poll_slots r i [] h = refl
is_orderly-poll_slots r i (s ∷ rest) h =
    let here = reported_conflict s.fd s.events (r.revents i) (r.recvs i) (h i) in
    let later = is_orderly-poll_slots r (i + 1) rest h in rw (here, later) refl

pub held-poll_slots :
    (d : ℕ) (events : ℕ → Revents) (i : ℕ) (slots : List Slot)
    → held d (poll_slots events i slots) ≡ held d slots
unfolding poll_slots held
held-poll_slots d events i [] = refl
held-poll_slots d events i (s ∷ rest) =
    ap (λ n. is_held d s.fd + n) (held-poll_slots d events (i + 1) rest)

module _ (recvs : ℕ → Received) (client : ℕ) where
  register_at-orderly :
      (i : ℕ) (fd : Option ℕ) (s : Slot) (later : Option (List Slot)) (rest : List Slot)
      → ((t : List Slot)
          → later ≡ some t
          → is_orderly recvs (i + 1) t ≡ is_orderly recvs (i + 1) rest)
      → (t : List Slot) → register_at client fd s later rest ≡ some t
      → is_orderly recvs i t ≡ is_orderly recvs i (s ∷ rest)
  unfolding register_at is_orderly
  register_at-orderly i none s later rest ih t h =
      ap (is_orderly recvs i) (sym (some-injective _ _ h))
  register_at-orderly i (some fd) s none rest ih t h = grind arith
  register_at-orderly i (some fd) s (some u) rest ih t h =
      ap (is_orderly recvs i) (sym (some-injective _ _ h))
      ∙ ap (λ b. not (is_conflict s.revents (recvs i)) && b) (ih u refl)

  is_orderly-register :
      (i : ℕ) (slots t : List Slot)
      → register client slots ≡ some t
      → is_orderly recvs i t ≡ is_orderly recvs i slots
  unfolding register
  is_orderly-register i [] t h = grind arith
  is_orderly-register i (s ∷ rest) t h =
      register_at-orderly i s.fd s (register client rest) rest
        (λ u e. is_orderly-register (i + 1) rest u e) t h

  is_orderly-admit :
      (i : ℕ) (st : Server) (r : Option (List Slot))
      → register client st.slots ≡ r
      → is_orderly recvs i (admit client (record st { calls = opens client ∷ st.calls }) r).slots
        ≡ is_orderly recvs i st.slots
  unfolding admit
  is_orderly-admit i st none e = refl
  is_orderly-admit i st (some t) e = is_orderly-register i st.slots t e

  pub is_orderly-add_client :
      (i : ℕ) (st : Server)
      → is_orderly recvs i (add_client client st).slots ≡ is_orderly recvs i st.slots
  unfolding add_client
  is_orderly-add_client i st = is_orderly-admit i st (register client st.slots) refl
