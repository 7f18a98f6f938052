-- ===== src/Page/Compact.antt =====
-- The loop of `page_compact`: its rule, and what one move does to a valid page.
pub mod Damage
pub mod Headers
pub mod Records
use cs_lab.Base.{
  ℕ, zero, suc, ◌+◌, ◌*◌, ◌-◌, ◌%◌, ◌^◌, ◌≤◌, ◌<◌, ◌≡◌, ◌≢◌, refl, ap, ◌∙◌, Option, none, some,
  arith, ◌==◌, if◌then◌else◌, ltb, Bool-cases, inl, inr, ltb→lt, ltb→ge, subst, ==→eq, ==→ne,
}
use cs_lab.Memory.{Mem, memcpy, memmove}
use cs_lab.Memory.Frame.{frames}
use cs_lab.Page.{
  slot_count, free_start, free_end, slot_offset, record_offset, record_length, move_record,
  compact_loop,
}
use cs_lab.Page.Layout.{
  slot_limit, slot_offset_lem, total_length, total_length-suc, total_length_next, IsValid,
  IsCompactable,
}

-- A property of the loop's variables that each round keeps holds when the loop has gone through
-- all `c` slots. The fuel suffices, and neither `uint16_t` counter wraps.
module _ (c : ℕ) (small : c < 65536) (P : Mem → ℕ → ℕ → Type 0)
    (count : (p : Mem) (i n : ℕ) → P p i n → slot_count p ≡ c)
    (bound : (p : Mem) (i n : ℕ) → P p i n → n < 65536)
    (skip : (p : Mem) (i n : ℕ) → P p i n → i < c → record_length p i ≡ 0 → P p (suc i) n)
    (move : (p : Mem) (i n : ℕ)
      → P p i n
      → i < c
      → record_length p i ≢ 0
      → P (move_record p i n) (suc i) (n + record_length (move_record p i n) i)) where
  pub compact_loop_rule :
      (fuel : ℕ) (p : Mem) (i n : ℕ)
      → i ≤ c
      → c < i + fuel
      → P p i n
      → P (compact_loop fuel p i n).0 c (compact_loop fuel p i n).1
  unfolding compact_loop
  compact_loop_rule zero p i n le enough h = absurd (omega arith)
  compact_loop_rule (suc fuel) p i n le enough h =
      let same = count p i n h in
      elim (Bool-cases (ltb i (slot_count p))) [
        | inr out ↦
            rw out (
              let e : i ≡ c = omega (arith, ltb→ge i (slot_count p) out) in
              subst (λ k. P p k n) e h)
        | inl inside ↦
            let l : i < c = omega (arith, ltb→lt i (slot_count p) inside) in
            let next : (i + 1) % 2 ^ 16 ≡ suc i = omega arith in
            elim (Bool-cases (record_length p i == 0)) [
              | inl dead ↦
                  rw (inside, dead, next)
                    (compact_loop_rule fuel p (suc i) n (omega arith) (omega arith)
                      (skip p i n h l (==→eq (record_length p i) 0 dead)))
              | inr live ↦
                  let q = move_record p i n in
                  let h' = move p i n h l (==→ne (record_length p i) 0 live) in
                  let sum : (n + record_length q i) % 2 ^ 16 ≡ n + record_length q i =
                    omega (arith, bound q (suc i) (n + record_length q i) h') in
                  rw (inside, live, next, sum)
                    (compact_loop_rule fuel q (suc i) (n + record_length q i) (omega arith)
                      (omega arith) h')
            ]
      ]

-- What moving the record of the slot `i` to `n` changes.
pub record Moved (p q : Mem) (i n : ℕ) : Type 0 where
  pub count : slot_count q ≡ slot_count p
  pub start : free_start q ≡ free_start p
  pub limit : free_end q ≡ free_end p
  pub lengths : (j : ℕ) → j < slot_count p → record_length q j ≡ record_length p j
  pub own_offset : record_offset q i ≡ n
  pub offsets : (j : ℕ) → j < slot_count p → j ≢ i → record_offset q j ≡ record_offset p j
  pub content : (k : ℕ) → k < record_length p i → q (n + k) ≡ p (record_offset p i + k)
  pub below : (b : ℕ) → 6 ≤ b → b < n → q b ≡ p b
  pub above : (b : ℕ) → n + record_length p i ≤ b → b < free_end p → q b ≡ p b
  pub behind : (b : ℕ) → 4096 ≤ b → q b ≡ p b

pub move_record-Moved :
    (p : Mem) (i n : ℕ)
    → free_end p + 4 * slot_count p ≡ 4096
    → i < slot_count p
    → 6 ≤ n
    → n + record_length p i ≤ free_end p
    → Moved p (move_record p i n) i n
unfolding move_record memmove
move_record-Moved p i n directory inside lo hi =
    let at_i = slot_offset_lem i (omega arith) in
    record {
      count = grind (frames, at_i);
      start = grind (frames, at_i);
      limit = grind (frames, at_i);
      lengths = λ j l. grind (frames, at_i, slot_offset_lem j);
      own_offset = grind (frames, at_i);
      offsets = λ j l e. grind (frames, at_i, slot_offset_lem j);
      content = λ k l. grind (frames, at_i);
      below = λ b l h. grind (frames, at_i);
      above = λ b l h. grind (frames, at_i);
      behind = λ b l. grind (frames, at_i);
    }
