-- ===== src/Page/Insert.antt =====
-- `page_insert`: the slot it takes, when it succeeds, and what the page holds afterwards.
pub mod Outcome
pub mod Slot
pub mod Tidy
use cs_lab.Base.{
  ℕ, zero, suc, ◌+◌, ◌-◌, ◌*◌, ◌%◌, ◌^◌, ◌≤◌, ◌<◌, ◌≡◌, ◌≢◌, refl, ap, ◌∙◌, arith, sym, ltb, leb,
  ◌==◌, if◌then◌else◌, Option, none, some, is_some, Bool-cases, Option-cases, inl, inr, ltb→lt,
  ltb→ge, lt→ltb, ge→ltb, tests, Bool, true, false,
}
use cs_lab.Memory.{Mem, bytes}
use cs_lab.Page.{
  slot_count, free_start, free_end, record_offset, record_length, compact_page, insert_record,
  place_record, find_reusable, needed_space, current_free, succeed,
}
use cs_lab.Page.Layout.{
  total_length, IsValid, IsCompactable, lookup, lookup_outside, lookup_deleted,
}
use cs_lab.Page.Place.{
  Placed, place_reused, place_new, place_record_new, Placed-IsValid, lookup-Placed,
}
use cs_lab.Page.Compact.Headers.{
  Compacted, compact_page-Compacted, total_length-compact_page, compact_page-IsValid,
}
use cs_lab.Page.Compact.Records.{lookup-compact_page, compact_page-IsCompactable}
use cs_lab.Page.Insert.Slot.{reusable, find_reusable-some, find_reusable-none}

-- The page that `page_insert` writes to.
pub prepare : Mem → ℕ → Mem
prepare p need = if ltb (current_free p) need then compact_page p else p

pub insert_record_lem :
    (p source : Mem) (len : ℕ)
    → insert_record p source len ≡ (
        let need = needed_space len (reusable p) in
        let q = prepare p need in
        if ltb (current_free q) need
        then (none, q)
        else succeed (place_record q source len (reusable p)))
unfolding insert_record prepare
insert_record_lem p source len =
    elim (Bool-cases (ltb (current_free p) (needed_space len (find_reusable p (slot_count p) 0)))) [
      | inl full ↦ rw full
      | inr room ↦ rw (room, room)
    ]

-- What `prepare` keeps of a valid page.
pub record Prepared (p q : Mem) (need : ℕ) : Type 0 where
  pub valid : IsValid q
  pub count : slot_count q ≡ slot_count p
  pub limit : free_end q ≡ free_end p
  pub total : total_length q (slot_count q) ≡ total_length p (slot_count p)
  pub lengths : (j : ℕ) → j < slot_count p → record_length q j ≡ record_length p j
  pub behind : (b : ℕ) → 4096 ≤ b → q b ≡ p b
  pub tight : current_free q < need → free_start q ≡ 6 + total_length p (slot_count p)
  pub in_order : IsCompactable p → IsCompactable q
  pub same : (current_free p < need → IsCompactable p) → (j : ℕ) → lookup q j ≡ lookup p j

pub prepare-Prepared : (p : Mem) (need : ℕ) → IsValid p → Prepared p (prepare p need) need
unfolding prepare
prepare-Prepared p need v = elim (Bool-cases (ltb (current_free p) need)) [
  | inl full ↦
      let c = compact_page-Compacted p v in
      rw full (record {
        valid = compact_page-IsValid p v;
        count = c.count;
        limit = c.limit;
        total = rw c.count (total_length-compact_page p v (slot_count p) (omega arith));
        lengths = c.lengths;
        behind = c.behind;
        tight = λ h. c.start;
        in_order = λ safe. compact_page-IsCompactable p v;
        same = λ safe. lookup-compact_page p v (safe (ltb→lt (current_free p) need full));
      })
  | inr room ↦ rw room (record {
    valid = v;
    count = refl;
    limit = refl;
    total = refl;
    lengths = λ j l. refl;
    behind = λ b l. refl;
    tight = λ h. absurd (omega (arith, ltb→ge (current_free p) need room));
    in_order = λ safe. safe;
    same = λ safe j. refl;
  })
]

-- What `place_record` does on a prepared page with room, at a deleted slot or at a new one.
pub Placed-at :
    (p q source : Mem) (len : ℕ) (r : Option ℕ)
    → Prepared p q (needed_space len r)
    → ((i : ℕ) → r ≡ some i → (i < slot_count p) × (record_length p i ≡ 0))
    → needed_space len r ≤ current_free q
    → Placed q (place_record q source len r).1 source len (place_record q source len r).0
      × (lookup p (place_record q source len r).0 ≡ none)
      × (r ≡ none → (place_record q source len r).0 ≡ slot_count q)
unfolding place_record
Placed-at p q source len (some i) d dead room =
    let w = d.valid in
    let at = dead i refl in
    (
      place_reused q source len w (omega (arith, w.gap, w.directory)) i (omega (arith, d.count))
          (d.lengths i (at.0) ∙ at.1),
      lookup_deleted p i (at.1),
      λ e. cc,
    )
Placed-at p q source len none d dead room =
    let w = d.valid in
    (
      place_new q source len w (omega (arith, w.gap, w.directory))
          (omega (arith, w.gap, w.directory)),
      lookup_outside p (place_record q source len none).0 (
          omega
            (arith, place_record_new q source len w (omega (arith, w.gap, w.directory)), d.count)),
      λ e. place_record_new q source len w (omega (arith, w.gap, w.directory)),
    )

pub placed :
    (p source : Mem) (len : ℕ)
    → IsValid p
    → needed_space len (reusable p) ≤ current_free (prepare p (needed_space len (reusable p)))
    → let q = prepare p (needed_space len (reusable p)) in
      let (i, b) = place_record q source len (reusable p) in
      Placed q b source len i × (lookup p i ≡ none) × (reusable p ≡ none → i ≡ slot_count q)
placed p source len v room =
    Placed-at p (prepare p (needed_space len (reusable p))) source len (reusable p)
      (prepare-Prepared p (needed_space len (reusable p)) v)
      (λ i e. let f = find_reusable-some p (slot_count p) 0 i e in (omega (arith, f.1), f.2)) room
