-- ===== src/Page/Insert/Outcome.antt =====
-- The results of `page_insert` and the page after it.
use cs_lab.Base.{
  ℕ, ◌+◌, ◌≤◌, ◌<◌, ◌≡◌, ◌≢◌, ap, ◌∙◌, arith, sym, ltb, leb, ◌==◌, if◌then◌else◌, Option, none,
  some, is_some, Bool-cases, inl, inr, ltb→lt, ltb→ge, List, subst, gt→leb, le→leb, false, not,
  ◌&&◌, refl,
}
use mathlib.Core.Option.{some-injective}
use cs_lab.Memory.{Mem, bytes}
use cs_lab.Page.{
  slot_count, free_end, insert_record, place_record, needed_space, current_free, insert_checked,
}
use cs_lab.Page.Layout.{total_length, IsValid, IsCompactable, lookup}
use cs_lab.Page.Place.{Placed-IsValid, Placed-IsCompactable, lookup-Placed}
use cs_lab.Page.Insert.{prepare, prepare-Prepared, placed, insert_record_lem}
use cs_lab.Page.Insert.Slot.{reusable}

-- What a page holds under the id `j` after an insertion with the result `r`.
abbrev pub stored : Mem → Mem → ℕ → Option ℕ → ℕ → Option (List ℕ)
stored p source len none j = lookup p j
stored p source len (some i) j = if j == i then some (bytes source 0 len) else lookup p j

module _ (p source : Mem) (len : ℕ) (v : IsValid p) where
  abbrev need : ℕ
  need = needed_space len (reusable p)

  abbrev written : Mem
  written = prepare p (needed_space len (reusable p))

  room_of : ltb (current_free written) need ≡ false → need ≤ current_free written
  room_of h = ltb→ge (current_free written) need h

  -- A record is accepted exactly when it fits behind the others; its length is not tested here.
  pub insert_record-fits :
      is_some (insert_record p source len).0
      ≡ leb (6 + total_length p (slot_count p) + needed_space len (reusable p)) (free_end p)
  insert_record-fits =
      let d = prepare-Prepared p need v in
      let w = d.valid in
      rw insert_record_lem (elim (Bool-cases (ltb (current_free written) need)) [
        | inl full ↦
            let less = ltb→lt (current_free written) need full in
            rw full (
              sym (
                gt→leb (6 + total_length p (slot_count p) + need) (free_end p)
                  (omega (arith, d.tight less, d.limit, w.gap, w.directory))))
        | inr room ↦ rw room (
            sym (
              le→leb (6 + total_length p (slot_count p) + need) (free_end p)
                (omega (arith, room_of room, d.total, d.limit, w.room, w.gap, w.directory))))
      ])

  -- On a valid page `page_insert` accepts a record exactly when it is not empty and it, and its
  -- slot where it needs a new one, fit behind all live records moved together.
  pub insert_checked-fits :
      is_some (insert_checked p source len).0
      ≡ not (len == 0)
        && leb (6 + total_length p (slot_count p) + needed_space len (reusable p)) (free_end p)
  unfolding insert_checked
  insert_checked-fits = elim (Bool-cases (len == 0)) [
    | inl empty ↦ rw empty refl
    | inr some_length ↦ rw some_length insert_record-fits
  ]

  -- Whatever the result of `page_insert` on a valid page, the page is valid afterwards.
  pub insert_record-IsValid : IsValid (insert_record p source len).1
  insert_record-IsValid =
      let d = prepare-Prepared p need v in
      rw insert_record_lem (elim (Bool-cases (ltb (current_free written) need)) [
        | inl full ↦ rw full d.valid
        | inr room ↦ rw room (Placed-IsValid d.valid ((placed p source len v (room_of room)).0))
      ])

  -- `page_insert` on a valid page writes no byte behind the page.
  pub insert_record-behind : (b : ℕ) → 4096 ≤ b → (insert_record p source len).1 b ≡ p b
  insert_record-behind b h =
      let d = prepare-Prepared p need v in
      rw insert_record_lem (elim (Bool-cases (ltb (current_free written) need)) [
        | inl full ↦ rw full (d.behind b h)
        | inr room ↦ rw room ((placed p source len v (room_of room)).0.behind b h ∙ d.behind b h)
      ])

  -- The id that `page_insert` returns for a valid page was not in use before.
  pub insert_record-unused : (i : ℕ) → (insert_record p source len).0 ≡ some i → lookup p i ≡ none
  insert_record-unused i =
      rw insert_record_lem (elim (Bool-cases (ltb (current_free written) need)) [
        | inl full ↦ rw full (λ h. cc)
        | inr room ↦ rw room (λ h.
            subst (λ k. lookup p k ≡ none) (some-injective _ _ h)
              ((placed p source len v (room_of room)).1))
      ])

  -- On a valid page where, if the page must be compacted, no record lies before the place to which
  -- compaction moves it, `page_insert` of a record that is not empty stores it under the id that it
  -- returns and leaves every other id as it was; a failed insertion leaves every id as it was.
  pub insert_record-stores :
      len ≢ 0
      → (current_free p < needed_space len (reusable p) → IsCompactable p)
      → (j : ℕ)
      → lookup (insert_record p source len).1 j
        ≡ stored p source len (insert_record p source len).0 j
  insert_record-stores live safe j =
      let d = prepare-Prepared p need v in
      rw insert_record_lem (elim (Bool-cases (ltb (current_free written) need)) [
        | inl full ↦ rw full (d.same safe j)
        | inr room ↦
            let put = (placed p source len v (room_of room)).0 in
            rw room (
              lookup-Placed d.valid put j live
              ∙ ap
                  (λ r.
                    if j == (place_record written source len (reusable p)).0
                    then some (bytes source 0 len)
                    else r)
                  (d.same safe j))
      ])

  -- Where a valid page has no deleted slot and no record lies before the place to which compaction
  -- moves it, the same holds after `page_insert`.
  pub insert_record-IsCompactable :
      reusable p ≡ none → IsCompactable p → IsCompactable (insert_record p source len).1
  insert_record-IsCompactable fresh safe =
      let d = prepare-Prepared p need v in
      rw insert_record_lem (elim (Bool-cases (ltb (current_free written) need)) [
        | inl full ↦ rw full (d.in_order safe)
        | inr room ↦ rw room (
            Placed-IsCompactable d.valid ((placed p source len v (room_of room)).0)
              ((placed p source len v (room_of room)).2 fresh) (d.in_order safe))
      ])

  -- The id that is returned is one of the directory.
  pub insert_record-in_directory :
      (i : ℕ)
      → (insert_record p source len).0 ≡ some i
      → i < slot_count (insert_record p source len).1
  insert_record-in_directory i =
      rw insert_record_lem (elim (Bool-cases (ltb (current_free written) need)) [
        | inl full ↦ rw full (λ h. cc)
        | inr room ↦ rw room (λ h.
            subst (λ k. k < slot_count (place_record written source len (reusable p)).1)
              (some-injective _ _ h) ((placed p source len v (room_of room)).0.in_directory))
      ])
