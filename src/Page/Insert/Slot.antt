-- ===== src/Page/Insert/Slot.antt =====
-- The search of `page_insert` for a deleted slot.
use cs_lab.Base.{
  ℕ, zero, suc, ◌+◌, ◌≤◌, ◌<◌, ◌≡◌, ◌≢◌, ap, sym, ◌∙◌, arith, ◌==◌, Option, none, some, Bool-cases,
  inl, inr, ==→ne,
}
use native.Mathlib.Decide.{ℕ_discrete}
use cs_lab.Memory.{Mem}
use cs_lab.Page.{slot_count, record_length, find_reusable, needed_space}

abbrev pub reusable : Mem → Option ℕ
reusable p = find_reusable p (slot_count p) 0

-- What a search that starts at slot `i` and goes through `n` slots finds.
pub find_reusable-some :
    (p : Mem) (n i j : ℕ)
    → find_reusable p n i ≡ some j
    → (i ≤ j) × (j < i + n) × (record_length p j ≡ 0)
unfolding find_reusable
find_reusable-some p zero i j h = absurd (grind arith)
find_reusable-some p (suc n) i j h = grind (arith, find_reusable-some p n (i + 1) j)

pub find_reusable_first :
    (p : Mem) (n i j : ℕ)
    → find_reusable p n i ≡ some j
    → (k : ℕ) → i ≤ k
    → k < j
    → record_length p k ≢ 0
unfolding find_reusable
find_reusable_first p zero i j h k lo hi = absurd (grind arith)
find_reusable_first p (suc n) i j h k lo hi = elim (Bool-cases (record_length p i == 0)) [
  | inl dead ↦ absurd (ground arith)
  | inr live ↦ elim (ℕ_discrete k i) [
    | yes e ↦ λ z. ==→ne (record_length p i) 0 live (ap (record_length p) (sym e) ∙ z)
    | no ne ↦ find_reusable_first p n (i + 1) j (ground arith) k (omega arith) hi
  ]
]

pub find_reusable-none :
    (p : Mem) (n i j : ℕ) → find_reusable p n i ≡ none → i ≤ j → j < i + n → record_length p j ≢ 0
unfolding find_reusable
find_reusable-none p zero i j h lo hi = absurd (omega arith)
find_reusable-none p (suc n) i j h lo hi = elim (Bool-cases (record_length p i == 0)) [
  | inl dead ↦ absurd (ground arith)
  | inr live ↦ elim (ℕ_discrete j i) [
    | yes e ↦ λ z. ==→ne (record_length p i) 0 live (ap (record_length p) (sym e) ∙ z)
    | no ne ↦ find_reusable-none p n (i + 1) j (ground arith) (omega arith) (omega arith)
  ]
]

pub needed_space-le : (len : ℕ) (r : Option ℕ) → needed_space len r ≤ len + 4
needed_space-le len none = omega arith
needed_space-le len (some i) = omega arith
