-- ===== src/Page/Delete.antt =====
-- `page_delete`: one slot is emptied.
use cs_lab.Base.{
  ℕ, ◌+◌, ◌≤◌, ◌<◌, ◌≡◌, ◌≢◌, refl, ap, ◌∙◌, arith, sym, leb, ◌==◌, if◌then◌else◌, Option, none,
  some, is_some, true, Bool-cases, inl, inr, leb→le, leb→gt, ==→eq, ==→ne, ne→==, ==-refl,
}
use native.Mathlib.Decide.{ℕ_discrete}
use cs_lab.Memory.{Mem, set16}
use cs_lab.Memory.Frame.{frames}
use cs_lab.Page.{
  slot_count, free_start, free_end, slot_offset, record_offset, record_length, delete_record,
}
use cs_lab.Page.Layout.{
  slot_offset_lem, total_length, total_length_le, IsValid, IsCompactable, lookup, lookup_outside,
  lookup_deleted, lookup_cong, lookup_live,
}

-- The page `q` is `p` without the record of the slot `i`.
record Deleted (p q : Mem) (i : ℕ) : Type 0 where
  count : slot_count q ≡ slot_count p
  start : free_start q ≡ free_start p
  limit : free_end q ≡ free_end p
  offsets : (j : ℕ) → j < slot_count p → record_offset q j ≡ record_offset p j
  emptied : record_length q i ≡ 0
  lengths : (j : ℕ) → j < slot_count p → j ≢ i → record_length q j ≡ record_length p j
  kept : (b : ℕ) → 6 ≤ b → b < free_end p → q b ≡ p b
  behind : (b : ℕ) → 4096 ≤ b → q b ≡ p b

module _ (p : Mem) (v : IsValid p) (i : ℕ) where
  emptied_page : Mem
  emptied_page = set16 p (slot_offset i + 2) 0

  emptied_page-Deleted : i < slot_count p → Deleted p emptied_page i
  unfolding emptied_page
  emptied_page-Deleted l =
      let at_i = slot_offset_lem i (omega (arith, v.room, v.gap, v.directory)) in
      record {
        count = grind (frames, at_i);
        start = grind (frames, at_i);
        limit = grind (frames, at_i);
        offsets = λ j h. grind (frames, at_i, slot_offset_lem j, v.room, v.gap, v.directory);
        emptied = grind (frames, at_i);
        lengths = λ j h n. grind (frames, at_i, slot_offset_lem j, v.room, v.gap, v.directory);
        kept = λ b lo hi. grind (frames, at_i, v.directory);
        behind = λ b h. grind (frames, at_i);
      }

  module _ (l : i < slot_count p) where
    shrinks : (n : ℕ) → n ≤ slot_count p → total_length emptied_page n ≤ total_length p n
    shrinks n le =
        let d = emptied_page-Deleted l in
        total_length_le p emptied_page n (λ j h. elim (ℕ_discrete j i) [
          | yes e ↦
              let gone : record_length emptied_page j ≡ 0 =
                ap (record_length emptied_page) e ∙ d.emptied in
              omega arith
          | no ne ↦ omega (arith, d.lengths j (omega arith) ne)
        ])

    emptied_page-IsValid : IsValid emptied_page
    emptied_page-IsValid =
        let d = emptied_page-Deleted l in
        let less = shrinks (slot_count p) (omega arith) in
        record {
          room = rw d.count (omega (arith, v.room));
          gap = omega (arith, v.gap);
          directory = omega (arith, v.directory);
          extents = λ j h live.
              let h' : j < slot_count p = omega arith in
              let ne : j ≢ i = λ e. live (ap (record_length emptied_page) e ∙ d.emptied) in
              let same = d.lengths j h' ne in
              let old = v.extents j h' (omega arith) in
              (omega (arith, d.offsets j h'), omega (arith, d.offsets j h'));
        }

    emptied_page-IsCompactable : IsCompactable p → IsCompactable emptied_page
    emptied_page-IsCompactable safe j h live =
        let d = emptied_page-Deleted l in
        let h' : j < slot_count p = omega arith in
        let ne : j ≢ i = λ e. live (ap (record_length emptied_page) e ∙ d.emptied) in
        let old = safe j h' (λ e. live (d.lengths j h' ne ∙ e)) in
        omega (arith, shrinks j (omega arith), d.offsets j h')

    lookup-emptied_page : (j : ℕ) → lookup emptied_page j ≡ (if j == i then none else lookup p j)
    lookup-emptied_page j =
        let d = emptied_page-Deleted l in
        elim (ℕ_discrete j i) [
          | yes e ↦ rw (e, ==-refl i) (lookup_deleted emptied_page i d.emptied)
          | no ne ↦ rw (ne→== j i ne) (
              lookup_cong p emptied_page j j (rw d.count refl) (λ h. (
                d.lengths j h ne,
                λ k lt.
                    let old = v.extents j h (omega arith) in
                    rw (d.offsets j h)
                      (d.kept (record_offset p j + k) (omega arith) (omega (arith, v.gap))),
              )))
        ]

  -- The three ways through `page_delete`.
  refused : lookup p i ≡ none → (j : ℕ) → lookup p j ≡ (if j == i then none else lookup p j)
  refused h j = elim (ℕ_discrete j i) [ yes e ↦ rw (e, ==-refl i) h | no ne ↦ rw (ne→== j i ne) ]

  delete_record_cases :
      (P : Option ℕ × Mem → Type 0)
      → (lookup p i ≡ none → P (none, p))
      → (i < slot_count p → is_some (lookup p i) ≡ true → P (some 0, emptied_page))
      → P (delete_record p i)
  unfolding delete_record emptied_page
  delete_record_cases P refuse done = elim (Bool-cases (leb (slot_count p) i)) [
    | inl out ↦ rw out (refuse (lookup_outside p i (leb→le (slot_count p) i out)))
    | inr inside ↦
        let l : i < slot_count p = leb→gt (slot_count p) i inside in
        elim (Bool-cases (record_length p i == 0)) [
          | inl dead ↦
              rw (inside, dead) (refuse (lookup_deleted p i (==→eq (record_length p i) 0 dead)))
          | inr live ↦
              rw (inside, live)
                (done l (
                  ap is_some (
                    lookup_live p i (record_length p i) l refl (==→ne (record_length p i) 0 live))))
        ]
  ]

  -- On a valid page `page_delete` succeeds exactly on the ids in use.
  pub delete_record-is_some : is_some (delete_record p i).0 ≡ is_some (lookup p i)
  delete_record-is_some =
      delete_record_cases (λ r. is_some r.0 ≡ is_some (lookup p i)) (λ h. rw h) (λ l h. sym h)

  pub delete_record-IsValid : IsValid (delete_record p i).1
  delete_record-IsValid =
      delete_record_cases (λ r. IsValid r.1) (λ h. v) (λ l h. emptied_page-IsValid l)

  -- Where no record of a valid page lies before the place to which compaction moves it, the same
  -- holds after `page_delete`.
  pub delete_record-IsCompactable : IsCompactable p → IsCompactable (delete_record p i).1
  delete_record-IsCompactable safe =
      delete_record_cases (λ r. IsCompactable r.1) (λ h. safe)
        (λ l h. emptied_page-IsCompactable l safe)

  -- After `page_delete` on a valid page the id is not in use, and every other id holds what it did.
  pub lookup-delete_record :
      (j : ℕ) → lookup (delete_record p i).1 j ≡ (if j == i then none else lookup p j)
  lookup-delete_record j =
      delete_record_cases (λ r. lookup r.1 j ≡ (if j == i then none else lookup p j))
        (λ h. refused h j) (λ l h. lookup-emptied_page l j)

  pub delete_record-behind : (b : ℕ) → 4096 ≤ b → (delete_record p i).1 b ≡ p b
  delete_record-behind b h =
      delete_record_cases (λ r. r.1 b ≡ p b) (λ e. refl)
        (λ l e. (emptied_page-Deleted l).behind b h)
