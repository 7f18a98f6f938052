-- ===== src/Page/Layout.antt =====
-- Where the parts of a page lie, what a page holds, and the invariant of the page operations.
use cs_lab.Base.{
  ℕ, zero, suc, ◌+◌, ◌*◌, ◌≤◌, ◌<◌, ◌≡◌, refl, ◌≢◌, Option, none, some, List, arith, ltb,
  Bool-cases, ltb→lt, inl, inr, ◌==◌, if◌then◌else◌,
}
use native.Mathlib.Decide.{ℕ_discrete, dec_le}
use cs_lab.Memory.{Mem, bytes}
use cs_lab.Memory.Frame.{bytes_cong}
use cs_lab.Page.{
  slot_count, free_start, free_end, slot_offset, record_offset, record_length, header_size,
  slot_size, page_size,
}

-- A directory that fits has at most 1022 slots.
abbrev pub slot_limit : ℕ
slot_limit = 1022

pub slot_offset_lem : (i : ℕ) → i < slot_limit → slot_offset i + slot_size * (i + 1) ≡ page_size
unfolding slot_offset
slot_offset_lem i h = omega arith

-- The lengths of the records in the first `n` slots. A deleted slot has length 0.
unfoldable pub total_length : Mem → ℕ → ℕ
total_length p zero = 0
total_length p (suc n) = total_length p n + record_length p n

-- What a page stores under a slot id.
unfoldable pub lookup : Mem → ℕ → Option (List ℕ)
lookup p i =
    if ltb i (slot_count p)
    then (if record_length p i == 0
        then none
        else some (bytes p (record_offset p i) (record_length p i)))
    else none

pub record IsValid (p : Mem) : Type 0 where
  pub room : header_size + total_length p (slot_count p) ≤ free_start p
  pub gap : free_start p ≤ free_end p
  pub directory : free_end p + slot_size * slot_count p ≡ page_size
  pub extents :
      (i : ℕ)
      → i < slot_count p
      → record_length p i ≢ 0
      → (header_size ≤ record_offset p i) × (record_offset p i + record_length p i ≤ free_start p)

-- No record lies before the place to which compaction moves it.
abbrev pub IsCompactable : Mem → Type 0
IsCompactable p =
    (i : ℕ)
    → i < slot_count p
    → record_length p i ≢ 0
    → header_size + total_length p i ≤ record_offset p i

-- No slot is deleted, and the page is compactable. Insertions keep it so.
abbrev pub IsTidy : Mem → Type 0
IsTidy p = IsCompactable p × ((i : ℕ) → i < slot_count p → record_length p i ≢ 0)

pub total_length-suc :
    (p : Mem) (n : ℕ) → total_length p (suc n) ≡ total_length p n + record_length p n
unfolding total_length
total_length-suc p n = refl

pub total_length_cong :
    (p q : Mem) (n : ℕ)
    → ((i : ℕ) → i < n → record_length q i ≡ record_length p i)
    → total_length q n ≡ total_length p n
unfolding total_length
total_length_cong p q zero h = refl
total_length_cong p q (suc n) h =
    omega (arith, h n (omega arith), total_length_cong p q n (λ i lt. h i (omega arith)))

-- What a slot stores depends on its entry in the directory and on the bytes of its record.
pub lookup_cong :
    (p q : Mem) (j i : ℕ)
    → ltb j (slot_count q) ≡ ltb i (slot_count p)
    → (i < slot_count p
        → (record_length q j ≡ record_length p i)
          × ((k : ℕ)
              → k < record_length p i
              → q (record_offset q j + k) ≡ p (record_offset p i + k)))
    → lookup q j ≡ lookup p i
unfolding lookup
lookup_cong p q j i inside same = elim (Bool-cases (ltb i (slot_count p))) [
  | inr out ↦ rw (inside, out)
  | inl in_p ↦
      let s = same (ltb→lt i (slot_count p) in_p) in
      rw (
        inside,
        in_p,
        s.0,
        bytes_cong q p (record_offset q j) (record_offset p i) (record_length p i) (s.1),
      )
]

pub lookup_outside : (p : Mem) (i : ℕ) → slot_count p ≤ i → lookup p i ≡ none
unfolding lookup
lookup_outside p i h = ground arith

pub lookup_deleted : (p : Mem) (i : ℕ) → record_length p i ≡ 0 → lookup p i ≡ none
unfolding lookup
lookup_deleted p i h = rw h (ground arith)

pub lookup_live :
    (p : Mem) (i n : ℕ)
    → i < slot_count p
    → record_length p i ≡ n
    → n ≢ 0
    → lookup p i ≡ some (bytes p (record_offset p i) n)
unfolding lookup
lookup_live p i n inside len live = ground arith

pub total_length_le :
    (p q : Mem) (n : ℕ)
    → ((i : ℕ) → i < n → record_length q i ≤ record_length p i)
    → total_length q n ≤ total_length p n
unfolding total_length
total_length_le p q zero h = omega arith
total_length_le p q (suc n) h =
    omega (arith, h n (omega arith), total_length_le p q n (λ i lt. h i (omega arith)))

-- One length changed, the others not.
pub total_length_update :
    (p q : Mem) (n i : ℕ)
    → i < n
    → ((j : ℕ) → j < n → j ≢ i → record_length q j ≡ record_length p j)
    → total_length q n + record_length p i ≡ total_length p n + record_length q i
unfolding total_length
total_length_update p q zero i lt h = elim lt [ ]
total_length_update p q (suc n) i lt h = elim (ℕ_discrete n i) [
  | yes e ↦
      let below = total_length_cong p q n (λ j l. h j (omega arith) (omega arith)) in
      grind (arith, below)
  | no ne ↦
      let rest = total_length_update p q n i (omega arith) (λ j l. h j (omega arith)) in
      grind (arith, rest, h n (omega arith) ne)
]

pub total_length_mono : (p : Mem) (m n : ℕ) → m ≤ n → total_length p m ≤ total_length p n
unfolding total_length
total_length_mono p m zero h = let e : m ≡ 0 = omega arith in rw e (omega arith)
total_length_mono p m (suc n) h = elim (dec_le m n) [
  | yes l ↦ omega (arith, total_length_mono p m n l)
  | no g ↦ let e : m ≡ suc n = omega arith in rw e (omega arith)
]

-- A record ends before the next one's place after compaction.
pub total_length_next :
    (p : Mem) (i n : ℕ) → i < n → total_length p i + record_length p i ≤ total_length p n
unfolding total_length
total_length_next p i n h = omega (arith, total_length_mono p (suc i) n h)
