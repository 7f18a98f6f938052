-- ===== src/PollServer/Balance.antt =====
-- Each round closes what it gives up exactly once, unless `recv` and `revents` report the end of the
-- same connection.
use cs_lab.Base.{
  if◌then◌else◌, ℕ, ◌+◌, ◌≡◌, refl, Bool, true, false, ◌&&◌, not, Option, none, some, List, [], ◌∷◌,
  ◌==◌, inl, inr, arith, Bool-cases, ap, sym, ◌∙◌,
}
use cs_lab.Net.{
  Call, Slot, Revents, Received, data_bytes, nothing_yet, recv_failed, is_faulty, take,
}
use cs_lab.Net.Counts.{IsBalanced, one, opened, closed, held, is_held}
use cs_lab.PollServer.{handle_slots, handle_slot, handle_client, read_client, answer, check_errors}

-- `recv` reports the end of the connection.
abbrev pub is_end : Received → Bool
is_end (data_bytes []) = true
is_end (data_bytes (_ ∷ _)) = false
is_end nothing_yet = false
is_end recv_failed = true

-- Both branches of the code close the descriptor.
abbrev pub is_conflict : Revents → Received → Bool
is_conflict e r = e.pollin && is_faulty e && is_end r

unfoldable pub is_orderly : (ℕ → Received) → ℕ → List Slot → Bool
is_orderly recvs i [] = true
is_orderly recvs i (s ∷ rest) =
    not (is_conflict s.revents (recvs i)) && is_orderly recvs (i + 1) rest

-- What a step on one slot with the descriptor `fd` does to the counts.
abbrev Step : ℕ → List Call → Slot × List Call → Type 0
Step fd calls (s, calls') =
    (d : ℕ)
    → (opened d calls' ≡ opened d calls)
      × (closed d calls' + is_held d s.fd ≡ closed d calls + one (fd == d))

answer-Step :
    (fd : ℕ) (s : Slot) (bytes : List ℕ) (calls : List Call)
    → s.fd ≡ some fd
    → Step fd calls (answer fd s bytes calls)
unfolding answer opened closed is_held
answer-Step fd s [] calls e d = (refl, omega arith)
answer-Step fd s (b ∷ more) calls e d = (refl, grind arith)

read_client-Step :
    (fd : ℕ) (s : Slot) (r : Received) (calls : List Call)
    → s.fd ≡ some fd
    → Step fd calls (read_client fd s r calls)
unfolding read_client opened closed is_held
read_client-Step fd s (data_bytes bytes) calls e d = answer-Step fd s (take 1023 bytes) calls e d
read_client-Step fd s nothing_yet calls e d = (refl, grind arith)
read_client-Step fd s recv_failed calls e d = (refl, omega arith)

read_client-stays :
    (fd : ℕ) (s : Slot) (r : Received) (calls : List Call)
    → is_end r ≡ false
    → (read_client fd s r calls).0 ≡ s
unfolding read_client answer take
read_client-stays fd s (data_bytes []) calls e = grind arith
read_client-stays fd s (data_bytes (b ∷ more)) calls e = refl
read_client-stays fd s nothing_yet calls e = refl
read_client-stays fd s recv_failed calls e = grind arith

-- The slot is closed by the second test only, so its descriptor must still be there.
check_errors-Step :
    (fd : ℕ) (s : Slot) (calls : List Call) (out : Slot × List Call)
    → s.fd ≡ some fd
    → Step fd calls out
    → (is_faulty out.0.revents ≡ true → out.0 ≡ s)
    → Step fd calls (check_errors fd out)
unfolding check_errors opened closed is_held
check_errors-Step fd s calls (t, calls') e step stays d = elim (Bool-cases (is_faulty t.revents)) [
  | inl faulty ↦
      (let h = step d in
        let same = ap (λ u. is_held d u.fd) (stays faulty) ∙ ap (is_held d) e in
        rw faulty (h.0, omega (arith, h.1, same)))
  | inr fine ↦ rw fine (step d)
]

idle-Step : (fd : ℕ) (s : Slot) (calls : List Call) → s.fd ≡ some fd → Step fd calls (s, calls)
unfolding is_held
idle-Step fd s calls e d = (refl, grind arith)

read_client-revents :
    (fd : ℕ) (s : Slot) (r : Received) (calls : List Call)
    → (read_client fd s r calls).0.revents ≡ s.revents
unfolding read_client answer
read_client-revents fd s (data_bytes bytes) calls = go (take 1023 bytes)
  where
    go : (l : List ℕ) → (answer fd s l calls).0.revents ≡ s.revents
    go [] = refl
    go (b ∷ more) = refl
read_client-revents fd s nothing_yet calls = refl
read_client-revents fd s recv_failed calls = refl

conflict_end :
    (e : Revents) (r : Received)
    → e.pollin ≡ true
    → is_conflict e r ≡ false
    → is_faulty e ≡ true
    → is_end r ≡ false
conflict_end e r p c f = grind arith

tested-Step :
    (b : Bool) (fd : ℕ) (s : Slot) (r : Received) (calls : List Call)
    → s.revents.pollin ≡ b
    → s.fd ≡ some fd
    → is_conflict s.revents r ≡ false
    → Step fd calls (check_errors fd (if b then read_client fd s r calls else (s, calls)))
tested-Step true fd s r calls p e ok =
    check_errors-Step fd s calls (read_client fd s r calls) e (read_client-Step fd s r calls e)
      (λ f.
        read_client-stays fd s r calls (
          conflict_end s.revents r p ok
            (ap is_faulty (sym (read_client-revents fd s r calls)) ∙ f)))
tested-Step false fd s r calls p e ok =
    check_errors-Step fd s calls (s, calls) e (idle-Step fd s calls e) (λ f. refl)

pub handle_client-Step :
    (fd : ℕ) (s : Slot) (r : Received) (calls : List Call)
    → s.fd ≡ some fd
    → is_conflict s.revents r ≡ false
    → Step fd calls (handle_client fd s r calls)
unfolding handle_client
handle_client-Step fd s r calls = tested-Step s.revents.pollin fd s r calls refl

abbrev Kept : Slot → List Call → Slot × List Call → Type 0
Kept s calls (t, calls') =
    (d : ℕ)
    → (opened d calls' ≡ opened d calls)
      × (closed d calls' + is_held d t.fd ≡ closed d calls + is_held d s.fd)

handle_slot-Kept :
    (o : Option ℕ) (s : Slot) (r : Received) (calls : List Call)
    → s.fd ≡ o
    → is_conflict s.revents r ≡ false
    → Kept s calls (handle_slot o s r calls)
unfolding handle_slot is_held
handle_slot-Kept none s r calls e ok d = (refl, refl)
handle_slot-Kept (some fd) s r calls e ok d =
    let h = handle_client-Step fd s r calls e ok d in
    let same = ap (is_held d) e in (h.0, omega (arith, h.1, same))

pub handle_slots-IsBalanced :
    (extra : ℕ → ℕ) (recvs : ℕ → Received) (i : ℕ) (slots : List Slot) (calls : List Call)
    → is_orderly recvs i slots ≡ true
    → IsBalanced extra calls slots
    → let (slots', calls') = handle_slots recvs i slots calls in IsBalanced extra calls' slots'
unfolding handle_slots is_orderly held
handle_slots-IsBalanced extra recvs i [] calls ok b = b
handle_slots-IsBalanced extra recvs i (s ∷ rest) calls ok b =
    let (t, calls') = handle_slot s.fd s (recvs i) calls in
    let first = handle_slot-Kept s.fd s (recvs i) calls refl (grind arith) in
    let later =
      handle_slots-IsBalanced (λ d. is_held d t.fd + extra d) recvs (i + 1) rest calls'
        (grind arith) (λ d. let f = first d in omega (arith, f.0, f.1, b d)) in
    λ d. omega (arith, later d)
