-- ===== src/Page/Compact/Damage.antt =====
-- How `page_compact` overwrites a record that lies before its new place.
use cs_lab.Base.{ℕ, suc, ◌+◌, ◌-◌, ◌≤◌, ◌<◌, ◌≡◌, ◌≢◌, refl, ap, ◌∙◌, arith, sym}
use native.Mathlib.Decide.{ℕ_discrete}
use cs_lab.Memory.{Mem}
use cs_lab.Memory.Frame.{frames}
use cs_lab.Page.{slot_count, record_offset, record_length, move_record, compact_loop, compact_page}
use cs_lab.Page.Layout.{total_length, total_length_next, total_length_mono, IsValid}
use cs_lab.Page.Compact.{compact_loop_rule}
use cs_lab.Page.Compact.Headers.{
  Progress, started, skipped, moved, moved_lem, bound, compact_page-Compacted,
}

module _ (o : Mem) (v : IsValid o) (j k : ℕ) (later : 0 < j) (inside : j < slot_count o)
    (within : k < record_length o j) (hit : record_offset o j + k < 6 + record_length o 0) where
  -- The record of slot 0 is at its place, and so is the byte `k` of slot `j` once that has moved.
  record Overwritten (p : Mem) (i n : ℕ) : Type 0 where
    progress : Progress o p i n
    first :
        (b : ℕ) → 0 < i → 6 ≤ b → b < 6 + record_length o 0 → p b ≡ o (record_offset o 0 + (b - 6))
    taken :
        j < i → p (6 + total_length o j + k) ≡ o (record_offset o 0 + (record_offset o j + k - 6))

  total_one : total_length o 1 ≡ record_length o 0
  unfolding total_length
  total_one = omega arith

  total_zero : total_length o 0 ≡ 0
  unfolding total_length
  total_zero = refl

  Overwritten-skip :
      (p : Mem) (i n : ℕ)
      → Overwritten p i n
      → i < slot_count o
      → record_length p i ≡ 0
      → Overwritten p (suc i) n
  Overwritten-skip p i n c l dead =
      let same = c.progress.lengths i l in
      record {
        progress = skipped o v p i n c.progress l dead;
        first = λ b h lo hi. elim (ℕ_discrete i 0) [
          | yes e ↦ absurd (
              let z : record_length o 0 ≡ 0 = ap (record_length o) (sym e) ∙ sym same ∙ dead in
              omega arith)
          | no ne ↦ c.first b (omega arith) lo hi
        ];
        taken = λ h. c.taken (elim (ℕ_discrete j i) [
          | yes e ↦
              let none_here : record_length o j ≡ 0 = ap (record_length o) e ∙ sym same ∙ dead in
              absurd (omega arith)
          | no ne ↦ omega arith
        ]);
      }

  Overwritten-move :
      (p : Mem) (i n : ℕ)
      → Overwritten p i n
      → i < slot_count o
      → record_length p i ≢ 0
      → Overwritten (move_record p i n) (suc i) (n + record_length (move_record p i n) i)
  Overwritten-move p i n c l live =
      let g = c.progress in
      let m = moved_lem o v p i n g l in
      let same = g.lengths i l in
      record {
        progress = moved o v p i n g l live;
        first = λ b h lo hi. elim (ℕ_discrete i 0) [
          | yes e ↦
              let here : record_length o i ≡ record_length o 0 = ap (record_length o) e in
              let none_before : total_length o i ≡ 0 = ap (total_length o) e ∙ total_zero in
              let fits = v.extents 0 (omega arith) (omega arith) in
              let from : n + (b - 6) ≡ b = omega (arith, g.next) in
              ap (move_record p i n) (sym from)
              ∙ m.content (b - 6) (omega arith)
              ∙ ap (λ a. p (a + (b - 6))) (g.waiting i (omega arith) l ∙ ap (record_offset o) e)
              ∙ g.ahead (record_offset o 0 + (b - 6)) (omega (arith, g.next)) (omega (arith, v.gap))
          | no ne ↦
              let past = total_length_mono o 1 i (omega arith) in
              m.below b lo (omega (arith, g.next, total_one)) ∙ c.first b (omega arith) lo hi
        ];
        taken = λ h. elim (ℕ_discrete j i) [
          | yes e ↦
              let here : record_length o j ≡ record_length o i = ap (record_length o) e in
              let fits = v.extents j inside (omega arith) in
              ap (λ a. move_record p i n (a + k)) (ap (λ t. 6 + total_length o t) e ∙ sym g.next)
              ∙ m.content k (omega arith)
              ∙ ap (λ a. p (a + k)) (g.waiting i (omega arith) l ∙ ap (record_offset o) (sym e))
              ∙ c.first (record_offset o j + k) (omega arith) (omega arith) hit
          | no ne ↦
              let before = total_length_next o j i (omega arith) in
              m.below (6 + total_length o j + k) (omega arith) (omega (arith, g.next))
              ∙ c.taken (omega arith)
        ];
      }

  Overwritten-all :
      let (q, n) = compact_loop (suc (slot_count o)) o 0 6 in Overwritten q (slot_count o) n
  Overwritten-all =
      compact_loop_rule (slot_count o) (omega (arith, v.directory)) Overwritten
        (λ p i n c. c.progress.count) (λ p i n c. bound o v p i n c.progress) Overwritten-skip
        Overwritten-move (suc (slot_count o)) o 0 6 (omega arith) (omega arith)
        (record {
          progress = started o v;
          first = λ b h. absurd (omega arith);
          taken = λ h. absurd (omega arith);
        })

  -- On a valid page where a byte of the record of a later slot lies in the first `record_length 0`
  -- bytes of the record area, `page_compact` leaves in place of that byte one of the record of slot
  -- 0.
  pub compact_page-overwrites :
      compact_page o (record_offset (compact_page o) j + k)
      ≡ o (record_offset o 0 + (record_offset o j + k - 6))
  unfolding compact_page
  compact_page-overwrites =
      let c = compact_page-Compacted o v in
      let next = total_length_next o j (slot_count o) inside in
      rw (c.offsets j inside (omega arith)) (grind (frames, v.room, Overwritten-all.taken inside))
