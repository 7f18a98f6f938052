-- ===== src/PollServer/Closings.antt =====
-- How often a pass over the slots closes each descriptor.
use cs_lab.Base.{
  if◌then◌else◌, ℕ, ◌+◌, ◌≡◌, refl, true, Option, none, some, List, [], ◌∷◌, inl, inr, arith,
  Bool-cases, ap, ◌∙◌,
}
use cs_lab.Net.{
  Call, closes, Slot, Revents, Received, data_bytes, nothing_yet, recv_failed, is_faulty, released,
  take,
}
use cs_lab.Net.Counts.{opened, closed, held, is_held}
use cs_lab.PollServer.{handle_slots, handle_slot, handle_client, read_client, answer, check_errors}
use cs_lab.PollServer.Balance.{is_end, is_conflict, handle_client-Step}

read_client-end :
    (fd : ℕ) (s : Slot) (r : Received) (calls : List Call)
    → is_end r ≡ true
    → read_client fd s r calls ≡ (released s, closes fd ∷ calls)
unfolding read_client answer take
read_client-end fd s (data_bytes []) calls e = refl
read_client-end fd s (data_bytes (b ∷ more)) calls e = grind arith
read_client-end fd s nothing_yet calls e = grind arith
read_client-end fd s recv_failed calls e = refl

conflict_parts :
    (e : Revents) (r : Received)
    → is_conflict e r ≡ true
    → (e.pollin ≡ true) × (is_faulty e ≡ true) × (is_end r ≡ true)
conflict_parts e r c = (grind arith, grind arith, grind arith)

handle_client-closes_twice :
    (fd : ℕ) (s : Slot) (r : Received) (calls : List Call)
    → is_conflict s.revents r ≡ true
    → handle_client fd s r calls ≡ (released s, closes fd ∷ closes fd ∷ calls)
unfolding handle_client check_errors
handle_client-closes_twice fd s r calls c =
    let (readable, faulty, over) = conflict_parts s.revents r c in
    let gone : Slot × List Call = (released s, closes fd ∷ calls) in
    ap (λ b. check_errors fd (if b then read_client fd s r calls else (s, calls))) readable
    ∙ ap (check_errors fd) (read_client-end fd s r calls over)
    ∙ ap (λ b. if b then (released s, closes fd ∷ closes fd ∷ calls) else gone) faulty

-- How many slots hold `d` and are reported so that both branches close it.
unfoldable pub conflicts : ℕ → (ℕ → Received) → ℕ → List Slot → ℕ
conflicts d recvs i [] = 0
conflicts d recvs i (s ∷ rest) =
    (if is_conflict s.revents (recvs i) then is_held d s.fd else 0) + conflicts d recvs (i + 1) rest

handle_slot-closings :
    (o : Option ℕ) (s : Slot) (r : Received) (calls : List Call) (d : ℕ)
    → s.fd ≡ o
    → let (t, calls') = handle_slot o s r calls in
      (opened d calls' ≡ opened d calls)
      × (closed d calls' + is_held d t.fd
          ≡ closed d calls
            + (is_held d s.fd + (if is_conflict s.revents r then is_held d s.fd else 0)))
unfolding handle_slot opened closed is_held
handle_slot-closings none s r calls d e = let same = ap (is_held d) e in (refl, grind arith)
handle_slot-closings (some fd) s r calls d e =
    let same = ap (is_held d) e in
    elim (Bool-cases (is_conflict s.revents r)) [
      | inl c ↦ rw (c, handle_client-closes_twice fd s r calls c) (refl, omega (arith, same))
      | inr fine ↦
          let h = handle_client-Step fd s r calls e fine d in
          rw fine (h.0, omega (arith, h.1, same))
    ]

-- A pass of the poll server over any slots opens nothing, and closes each descriptor as often as it
-- frees a slot of it, and once more for each slot of it that is reported readable and with an error
-- or hang-up where `recv` then finds the end of the connection or fails.
pub handle_slots-closings :
    (recvs : ℕ → Received) (i : ℕ) (slots : List Slot) (calls : List Call) (d : ℕ)
    → let (slots', calls') = handle_slots recvs i slots calls in
      (opened d calls' ≡ opened d calls)
      × (closed d calls' + held d slots'
          ≡ closed d calls + (held d slots + conflicts d recvs i slots))
unfolding handle_slots held conflicts
handle_slots-closings recvs i [] calls d = (refl, omega arith)
handle_slots-closings recvs i (s ∷ rest) calls d =
    let (t, calls') = handle_slot s.fd s (recvs i) calls in
    let first = handle_slot-closings s.fd s (recvs i) calls d refl in
    let later = handle_slots-closings recvs (i + 1) rest calls' d in
    (later.0 ∙ first.0, omega (arith, first.1, later.1))
