-- ===== src/Net/Counts.antt =====
-- How often a descriptor was opened and closed, and how many slots hold it.
use cs_lab.Base.{◌≡◌, ℕ, ◌+◌, Bool, Option, none, some, List, [], ◌∷◌, ◌==◌, if◌then◌else◌}
use cs_lab.Net.{Call, opens, closes, sends, shuts, Slot}

abbrev pub one : Bool → ℕ
one b = if b then 1 else 0

unfoldable pub opened : ℕ → List Call → ℕ
opened d [] = 0
opened d (opens e ∷ calls) = one (e == d) + opened d calls
opened d (closes e ∷ calls) = opened d calls
opened d (sends e bytes ∷ calls) = opened d calls
opened d (shuts e ∷ calls) = opened d calls

unfoldable pub closed : ℕ → List Call → ℕ
closed d [] = 0
closed d (opens e ∷ calls) = closed d calls
closed d (closes e ∷ calls) = one (e == d) + closed d calls
closed d (sends e bytes ∷ calls) = closed d calls
closed d (shuts e ∷ calls) = closed d calls

-- How often the sending side was shut down.
unfoldable pub shut : ℕ → List Call → ℕ
shut d [] = 0
shut d (opens e ∷ calls) = shut d calls
shut d (closes e ∷ calls) = shut d calls
shut d (sends e bytes ∷ calls) = shut d calls
shut d (shuts e ∷ calls) = one (e == d) + shut d calls

unfoldable pub is_held : ℕ → Option ℕ → ℕ
is_held d none = 0
is_held d (some e) = one (e == d)

unfoldable pub held : ℕ → List Slot → ℕ
held d [] = 0
held d (s ∷ slots) = is_held d s.fd + held d slots

-- Every descriptor was closed as often as it was opened, but for those in the slots and `extra`.
abbrev pub IsBalanced : (ℕ → ℕ) → List Call → List Slot → Type 0
IsBalanced extra calls slots = (d : ℕ) → opened d calls ≡ closed d calls + (held d slots + extra d)
