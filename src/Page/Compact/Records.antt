-- ===== src/Page/Compact/Records.antt =====
-- What `page_compact` does to the bytes of the records.
use cs_lab.Base.{ℕ, suc, ◌+◌, ◌<◌, ◌≡◌, ◌≢◌, refl, ap, ◌∙◌, arith, sym}
use native.Mathlib.Decide.{ℕ_discrete}
use cs_lab.Memory.{Mem}
use cs_lab.Memory.Frame.{frames}
use cs_lab.Page.{slot_count, record_offset, record_length, move_record, compact_loop, compact_page}
use cs_lab.Page.Layout.{
  total_length, total_length_next, IsValid, IsCompactable, lookup, lookup_cong,
}
use cs_lab.Page.Compact.{compact_loop_rule}
use cs_lab.Page.Compact.Headers.{
  Progress, started, skipped, moved, moved_lem, bound, compact_page-Compacted,
  total_length-compact_page,
}

-- The bytes of the first `i` records are at their places after compaction.
record Carried (o p : Mem) (i n : ℕ) : Type 0 where
  progress : Progress o p i n
  bytes_kept :
      (j k : ℕ)
      → j < i
      → k < record_length o j
      → p (6 + total_length o j + k) ≡ o (record_offset o j + k)

module _ (o : Mem) (v : IsValid o) (safe : IsCompactable o) where
  Carried-skip :
      (p : Mem) (i n : ℕ)
      → Carried o p i n
      → i < slot_count o
      → record_length p i ≡ 0
      → Carried o p (suc i) n
  Carried-skip p i n c l dead = record {
    progress = skipped o v p i n c.progress l dead;
    bytes_kept = λ j k h lt.
        c.bytes_kept j k
          (elim (ℕ_discrete j i) [
            | yes e ↦
                let none_here : record_length o j ≡ 0 =
                  ap (record_length o) e ∙ sym (c.progress.lengths i l) ∙ dead in
                absurd (omega arith)
            | no ne ↦ omega arith
          ])
          lt;
  }

  Carried-move :
      (p : Mem) (i n : ℕ)
      → Carried o p i n
      → i < slot_count o
      → record_length p i ≢ 0
      → Carried o (move_record p i n) (suc i) (n + record_length (move_record p i n) i)
  Carried-move p i n c l live =
      let g = c.progress in
      let m = moved_lem o v p i n g l in
      let same = g.lengths i l in
      record {
        progress = moved o v p i n g l live;
        bytes_kept = λ j k h lt. elim (ℕ_discrete j i) [
          | yes e ↦ rw e (
              let lt' : k < record_length o i = rw (← e) lt in
              let fits = v.extents i l (omega arith) in
              let place = safe i l (omega arith) in
              ap (λ a. move_record p i n (a + k)) (sym g.next)
              ∙ m.content k (omega arith)
              ∙ ap (λ a. p (a + k)) (g.waiting i (omega arith) l)
              ∙ g.ahead (record_offset o i + k) (omega (arith, g.next)) (omega (arith, v.gap)))
          | no ne ↦
              let before = total_length_next o j i (omega arith) in
              m.below (6 + total_length o j + k) (omega arith) (omega (arith, g.next))
              ∙ c.bytes_kept j k (omega arith) lt
        ];
      }

  Carried-all : let (q, n) = compact_loop (suc (slot_count o)) o 0 6 in Carried o q (slot_count o) n
  Carried-all =
      compact_loop_rule (slot_count o) (omega (arith, v.directory)) (Carried o)
        (λ p i n c. c.progress.count) (λ p i n c. bound o v p i n c.progress) Carried-skip
        Carried-move (suc (slot_count o)) o 0 6 (omega arith) (omega arith)
        (record { progress = started o v; bytes_kept = λ j k h. elim h [ ] })

  -- On a valid page where no record lies before the place to which compaction moves it, every slot
  -- id holds the same record after `page_compact`.
  pub lookup-compact_page : (j : ℕ) → lookup (compact_page o) j ≡ lookup o j
  unfolding compact_page
  lookup-compact_page j =
      let c = compact_page-Compacted o v in
      lookup_cong o (compact_page o) j j (rw c.count refl) (λ l. (
        c.lengths j l,
        λ k lt.
            let fits = v.extents j l (omega arith) in
            let next = total_length_next o j (slot_count o) l in
            let a = 6 + total_length o j + k in
            rw (c.offsets j l (omega arith))
              (grind (frames, v.room, Carried-all.bytes_kept j k l lt)),
      ))

-- After compaction a page can be compacted again.
pub compact_page-IsCompactable : (o : Mem) → IsValid o → IsCompactable (compact_page o)
compact_page-IsCompactable o v j l live =
    let c = compact_page-Compacted o v in
    let l' : j < slot_count o = omega (arith, c.count) in
    let at = c.offsets j l' (λ e. live (c.lengths j l' ∙ e)) in
    omega (arith, total_length-compact_page o v j (omega arith))
