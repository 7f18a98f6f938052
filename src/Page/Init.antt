-- ===== src/Page/Init.antt =====
-- `page_init`: a valid page that stores nothing.
use cs_lab.Base.{◌+◌, ℕ, ◌≤◌, ◌≡◌, ◌∙◌, none, arith, is_some, true, le→leb}
use cs_lab.Memory.{Mem}
use cs_lab.Memory.Frame.{frames, memset_out}
use cs_lab.Page.{slot_count, free_start, free_end, init_page, insert_record, needed_space}
use cs_lab.Page.Insert.Slot.{reusable, needed_space-le}
use cs_lab.Page.Insert.Outcome.{insert_record-fits}
use cs_lab.Page.Layout.{total_length, IsValid, IsCompactable, lookup, lookup_outside, IsTidy}

module _ (p : Mem) where
  slot_count-init_page : slot_count (init_page p) ≡ 0
  unfolding init_page
  slot_count-init_page = grind frames

  pub init_page-IsValid : IsValid (init_page p)
  unfolding init_page total_length
  init_page-IsValid =
      let c = slot_count-init_page in
      let start : free_start (init_page p) ≡ 6 = grind frames in
      let limit : free_end (init_page p) ≡ 4096 = grind frames in
      record {
        room = rw c (omega arith);
        gap = omega arith;
        directory = omega arith;
        extents = λ i l. absurd (omega arith);
      }

  pub init_page-IsCompactable : IsCompactable (init_page p)
  init_page-IsCompactable i l = absurd (omega (arith, slot_count-init_page))

  pub init_page-IsTidy : IsTidy (init_page p)
  init_page-IsTidy = (init_page-IsCompactable, λ i l. absurd (omega (arith, slot_count-init_page)))

  pub lookup-init_page : (i : ℕ) → lookup (init_page p) i ≡ none
  lookup-init_page i = lookup_outside (init_page p) i (omega (arith, slot_count-init_page))

  -- An empty page takes every record of 1 to 4086 bytes.
  pub init_page-accepts :
      (source : Mem) (len : ℕ)
      → len ≤ 4086
      → is_some (insert_record (init_page p) source len).0 ≡ true
  unfolding init_page
  init_page-accepts source len fits =
      let v = init_page-IsValid in
      let start : free_start (init_page p) ≡ 6 = grind frames in
      let limit : free_end (init_page p) ≡ 4096 = grind frames in
      insert_record-fits (init_page p) source len v
      ∙ le→leb
          (6
            + total_length (init_page p) (slot_count (init_page p))
            + needed_space len (reusable (init_page p)))
          (free_end (init_page p))
          (omega (arith, v.room, needed_space-le len (reusable (init_page p))))

  pub init_page-behind : (b : ℕ) → 4096 ≤ b → init_page p b ≡ p b
  unfolding init_page
  init_page-behind b h = grind (frames, memset_out)
