-- ===== src/PollServer/Registration.antt =====
-- Where a new client goes, and which slots the rounds leave alone.
use cs_lab.Base.{
  ◌++◌, ◌&&◌, ◌⊎◌, inl, inr, ℕ, ◌+◌, ◌≡◌, refl, ap, ◌∙◌, sym, Bool, true, false, Option, none, some,
  List, [], ◌∷◌, ◌==◌, is_some, arith,
}
use mathlib.Core.Option.{some-injective, map}
use cs_lab.Net.{
  Call, opens, closes, Slot, Accepting, connected, nobody, accept_failed, Progress, exits,
}
use cs_lab.Net.Counts.{IsBalanced, one, opened, closed, held, is_held}
use cs_lab.PollServer.{
  Server, register, register_at, admit, add_client, accept_all, made_nonblocking, set_nonblocking,
}

register_at-held :
    (d client : ℕ) (fd : Option ℕ) (s : Slot) (later : Option (List Slot)) (rest : List Slot)
    → s.fd ≡ fd
    → ((t : List Slot) → later ≡ some t → held d t ≡ one (client == d) + held d rest)
    → (t : List Slot) → register_at client fd s later rest ≡ some t
    → held d t ≡ one (client == d) + (is_held d fd + held d rest)
unfolding register_at held is_held
register_at-held d client none s later rest e ih t h = grind arith
register_at-held d client (some fd) s none rest e ih t h = grind arith
register_at-held d client (some fd) s (some u) rest e ih t h =
    ap (held d) (sym (some-injective _ _ h))
    ∙ (let i = ih u refl in let f = ap (is_held d) e in omega (arith, i, f))

pub held-register :
    (d client : ℕ) (slots t : List Slot)
    → register client slots ≡ some t
    → held d t ≡ one (client == d) + held d slots
unfolding register held
held-register d client [] t h = grind arith
held-register d client (s ∷ rest) t h =
    register_at-held d client s.fd s (register client rest) rest refl
      (λ u e. held-register d client rest u e) t h

admit-IsBalanced :
    (extra : ℕ → ℕ) (client : ℕ) (st : Server) (r : Option (List Slot))
    → register client st.slots ≡ r
    → IsBalanced extra st.calls st.slots
    → let g = admit client (record st { calls = opens client ∷ st.calls }) r in
      IsBalanced extra g.calls g.slots
unfolding admit opened closed
admit-IsBalanced extra client st none e b d = omega (arith, b d)
admit-IsBalanced extra client st (some t) e b d =
    omega (arith, b d, held-register d client st.slots t e)

pub add_client-IsBalanced :
    (extra : ℕ → ℕ) (client : ℕ) (st : Server)
    → IsBalanced extra st.calls st.slots
    → IsBalanced extra (add_client client st).calls (add_client client st).slots
unfolding add_client
add_client-IsBalanced extra client st b =
    admit-IsBalanced extra client st (register client st.slots) refl b

-- What every new client keeps holds behind the accept loop, unless the process has ended.
module _ (P : Server → Type 0)
    (keeps : (client : ℕ) (st : Server) → P st → P (add_client client st)) where
  made_nonblocking-keeps :
      (b : Bool) (later : Progress × Server) (st : Server)
      → (later.0 ≡ exits) ⊎ P later.1
      → let (p, g) = made_nonblocking b later st in (p ≡ exits) ⊎ P g
  unfolding made_nonblocking
  made_nonblocking-keeps true later st h = h
  made_nonblocking-keeps false later st h = inl refl

  pub accept_all-keeps :
      (accepts : List Accepting) (st : Server)
      → P st
      → let (p, g) = accept_all accepts st in (p ≡ exits) ⊎ P g
  unfolding accept_all
  accept_all-keeps [] st b = inr b
  accept_all-keeps (nobody ∷ later) st b = inr b
  accept_all-keeps (accept_failed ∷ later) st b = inr b
  accept_all-keeps (connected client f ∷ later) st b =
      made_nonblocking-keeps (set_nonblocking f) (accept_all later (add_client client st))
        (record st { calls = opens client ∷ st.calls })
        (accept_all-keeps later (add_client client st) (keeps client st b))

unfoldable pub all_held : List Slot → Bool
all_held [] = true
all_held (s ∷ rest) = is_some s.fd && all_held rest

register_at-held_slot :
    (client : ℕ) (fd : Option ℕ) (s : Slot) (later : Option (List Slot)) (rest : List Slot)
    → is_some fd ≡ true
    → register_at client fd s later rest ≡ map (λ t. s ∷ t) later
unfolding register_at
register_at-held_slot client none s later rest h = grind arith
register_at-held_slot client (some fd) s none rest h = refl
register_at-held_slot client (some fd) s (some t) rest h = refl

register-first_free :
    (client : ℕ) (before : List Slot) (s : Slot) (after : List Slot)
    → all_held before ≡ true
    → s.fd ≡ none
    → register client (before ++ s ∷ after)
      ≡ some (before ++ record s { fd = some client; events = true } ∷ after)
unfolding register register_at all_held
register-first_free client [] s after h e =
    ap (λ fd. register_at client fd s (register client after) after) e ∙ free
  where
    free :
        register_at client none s (register client after) after
        ≡ some (record s { fd = some client; events = true } ∷ after)
    free = refl
register-first_free client (t ∷ before) s after h e =
    register_at-held_slot client t.fd t (register client (before ++ s ∷ after))
      (before ++ s ∷ after) (grind arith)
    ∙ ap (map (λ u. t ∷ u)) (register-first_free client before s after (grind arith) e)

register-full :
    (client : ℕ) (slots : List Slot) → all_held slots ≡ true → register client slots ≡ none
unfolding register all_held
register-full client [] h = refl
register-full client (t ∷ rest) h =
    register_at-held_slot client t.fd t (register client rest) rest (grind arith)
    ∙ ap (map (λ u. t ∷ u)) (register-full client rest (grind arith))

-- A new client of the poll server takes the first slot that is free: the slots before and behind
-- it, and its `revents`, stay, and it is watched for POLLIN.
pub add_client-first_free :
    (client : ℕ) (before : List Slot) (s : Slot) (after : List Slot) (calls : List Call)
    → all_held before ≡ true
    → s.fd ≡ none
    → add_client client (record { slots = before ++ s ∷ after; calls = calls }) ≡ record {
      slots = before ++ record s { fd = some client; events = true } ∷ after;
      calls = opens client ∷ calls;
    }
unfolding add_client admit
add_client-first_free client before s after calls h e =
    rw (register-first_free client before s after h e) refl

-- Where no slot of the poll server is free, a new client is closed at once and the slots stay.
pub add_client-full :
    (client : ℕ) (slots : List Slot) (calls : List Call)
    → all_held slots ≡ true
    → add_client client (record { slots = slots; calls = calls })
      ≡ record { slots = slots; calls = closes client ∷ opens client ∷ calls }
unfolding add_client admit
add_client-full client slots calls h = rw (register-full client slots h) refl
