-- ===== src/Page/Compact/Headers.antt =====
-- What `page_compact` makes of the header and the directory of a valid page.
use cs_lab.Base.{ℕ, suc, ◌+◌, ◌≤◌, ◌<◌, ◌≡◌, ◌≢◌, refl, ap, ◌∙◌, arith, sym}
use native.Mathlib.Decide.{ℕ_discrete}
use cs_lab.Memory.{Mem}
use cs_lab.Memory.Frame.{frames}
use cs_lab.Page.{
  slot_count, free_start, free_end, record_offset, record_length, move_record, compact_loop,
  compact_page,
}
use cs_lab.Page.Layout.{
  slot_offset_lem, total_length, total_length-suc, total_length_next, total_length_mono,
  total_length_cong, IsValid,
}
use cs_lab.Page.Compact.{Moved, move_record-Moved, compact_loop_rule}

-- The page `p` and the next free place `n`, after the first `i` slots of `o` are compacted.
pub record Progress (o p : Mem) (i n : ℕ) : Type 0 where
  pub index : i ≤ slot_count o
  pub next : n ≡ 6 + total_length o i
  pub count : slot_count p ≡ slot_count o
  pub start : free_start p ≡ free_start o
  pub limit : free_end p ≡ free_end o
  pub lengths : (j : ℕ) → j < slot_count o → record_length p j ≡ record_length o j
  pub placed : (j : ℕ) → j < i → record_length o j ≢ 0 → record_offset p j ≡ 6 + total_length o j
  pub waiting : (j : ℕ) → i ≤ j → j < slot_count o → record_offset p j ≡ record_offset o j
  pub ahead : (b : ℕ) → n ≤ b → b < free_end o → p b ≡ o b
  pub behind : (b : ℕ) → 4096 ≤ b → p b ≡ o b

module _ (o : Mem) (v : IsValid o) where
  pub started : Progress o o 0 6
  unfolding total_length
  started = record {
    index = omega arith;
    next = refl;
    count = refl;
    start = refl;
    limit = refl;
    lengths = λ j l. refl;
    placed = λ j l h. elim l [ ];
    waiting = λ j l h. refl;
    ahead = λ b l h. refl;
    behind = λ b l. refl;
  }

  pub skipped :
      (p : Mem) (i n : ℕ)
      → Progress o p i n
      → i < slot_count o
      → record_length p i ≡ 0
      → Progress o p (suc i) n
  skipped p i n g l dead =
      let none_here : record_length o i ≡ 0 = sym (g.lengths i l) ∙ dead in
      record {
        index = l;
        next = omega (arith, g.next, total_length-suc o i);
        count = g.count;
        start = g.start;
        limit = g.limit;
        lengths = g.lengths;
        placed = λ j h live. elim (ℕ_discrete j i) [
          | yes e ↦ absurd (live (ap (record_length o) e ∙ none_here))
          | no ne ↦ g.placed j (omega arith) live
        ];
        waiting = λ j h. g.waiting j (omega arith);
        ahead = g.ahead;
        behind = g.behind;
      }

  -- The record that is moved next ends, at its new place, within the record area.
  pub next_fits :
      (p : Mem) (i n : ℕ)
      → Progress o p i n
      → i < slot_count o
      → n + record_length p i ≤ free_start o
  next_fits p i n g l =
      omega (arith, g.next, g.lengths i l, total_length_next o i (slot_count o) l, v.room)

  pub moved_lem :
      (p : Mem) (i n : ℕ) → Progress o p i n → i < slot_count o → Moved p (move_record p i n) i n
  moved_lem p i n g l =
      let fits = next_fits p i n g l in
      move_record-Moved p i n (omega (arith, v.directory)) (omega arith) (omega arith)
        (omega (arith, v.gap))

  pub moved :
      (p : Mem) (i n : ℕ)
      → Progress o p i n
      → i < slot_count o
      → record_length p i ≢ 0
      → Progress o (move_record p i n) (suc i) (n + record_length (move_record p i n) i)
  moved p i n g l live =
      let m = moved_lem p i n g l in
      let inside : i < slot_count p = omega arith in
      record {
        index = l;
        next = omega (arith, g.next, g.lengths i l, m.lengths i inside, total_length-suc o i);
        count = m.count ∙ g.count;
        start = m.start ∙ g.start;
        limit = m.limit ∙ g.limit;
        lengths = λ j h. m.lengths j (omega arith) ∙ g.lengths j h;
        placed = λ j h alive. elim (ℕ_discrete j i) [
          | yes e ↦ rw e (m.own_offset ∙ g.next)
          | no ne ↦ m.offsets j (omega arith) ne ∙ g.placed j (omega arith) alive
        ];
        waiting = λ j h k. m.offsets j (omega arith) (omega arith) ∙ g.waiting j (omega arith) k;
        ahead = λ b h k.
            m.above b (omega (arith, m.lengths i inside)) (omega arith) ∙ g.ahead b (omega arith) k;
        behind = λ b h. m.behind b h ∙ g.behind b h;
      }

  pub bound : (p : Mem) (i n : ℕ) → Progress o p i n → n < 65536
  bound p i n g =
      omega
        (arith, g.next, total_length_mono o i (slot_count o) g.index, v.room, v.gap, v.directory)

  -- The loop as `page_compact` calls it goes through every slot.
  pub finished :
      let (q, n) = compact_loop (suc (slot_count o)) o 0 6 in Progress o q (slot_count o) n
  finished =
      compact_loop_rule (slot_count o) (omega (arith, v.directory)) (Progress o)
        (λ p i n g. g.count) bound skipped moved (suc (slot_count o)) o 0 6 (omega arith)
        (omega arith) started

-- A page after `page_compact`: the records lie one behind the other, in the order of their slots.
pub record Compacted (o q : Mem) : Type 0 where
  pub count : slot_count q ≡ slot_count o
  pub start : free_start q ≡ 6 + total_length o (slot_count o)
  pub limit : free_end q ≡ free_end o
  pub lengths : (j : ℕ) → j < slot_count o → record_length q j ≡ record_length o j
  pub offsets :
      (j : ℕ) → j < slot_count o → record_length o j ≢ 0 → record_offset q j ≡ 6 + total_length o j
  pub behind : (b : ℕ) → 4096 ≤ b → q b ≡ o b

pub compact_page-Compacted : (o : Mem) → IsValid o → Compacted o (compact_page o)
unfolding compact_page
compact_page-Compacted o v =
    let g = finished o v in
    let q = (compact_loop (suc (slot_count o)) o 0 6).0 in
    let n = (compact_loop (suc (slot_count o)) o 0 6).1 in
    let small = bound o v q (slot_count o) n g in
    record {
      count = grind (frames, g.count);
      start = grind (frames, g.next);
      limit = grind (frames, g.limit);
      lengths = λ j l. grind (frames, g.lengths j, slot_offset_lem j, v.directory);
      offsets = λ j l live. grind (frames, g.placed j, slot_offset_lem j, v.directory);
      behind = λ b l. grind (frames, g.behind b);
    }

module _ (o : Mem) (v : IsValid o) where
  pub total_length-compact_page :
      (n : ℕ) → n ≤ slot_count o → total_length (compact_page o) n ≡ total_length o n
  total_length-compact_page n le =
      total_length_cong o (compact_page o) n
        (λ j l. (compact_page-Compacted o v).lengths j (omega arith))

  -- A valid page is valid after `page_compact`, also where its records are not in the order of
  -- their slots.
  pub compact_page-IsValid : IsValid (compact_page o)
  compact_page-IsValid =
      let c = compact_page-Compacted o v in
      let all = total_length-compact_page (slot_count o) (omega arith) in
      record {
        room = rw c.count (omega arith);
        gap = omega (arith, v.room, v.gap);
        directory = omega (arith, v.directory);
        extents = λ j l live.
            let l' : j < slot_count o = omega arith in
            let same = c.lengths j l' in
            let at = c.offsets j l' (λ e. live (same ∙ e)) in
            let next = total_length_next o j (slot_count o) l' in (omega arith, omega arith);
      }
