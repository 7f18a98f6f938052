-- ===== src/Page/Window.antt =====
-- Everything that a page stores lies in its 4096 bytes.
use cs_lab.Base.{ℕ, ◌+◌, ◌≤◌, ◌<◌, ◌≡◌, ◌∙◌, arith, refl, sym}
use cs_lab.Memory.{Mem, get16}
use cs_lab.Memory.Frame.{get16_cong}
use cs_lab.Page.{slot_count, slot_offset, record_offset, record_length}
use cs_lab.Page.Layout.{
  slot_offset_lem, total_length, total_length_cong, IsValid, IsCompactable, lookup, lookup_cong,
  IsTidy,
}

-- `q` is `p` on the bytes of the page.
abbrev pub SameFront : Mem → Mem → Type 0
SameFront p q = (a : ℕ) → a < 4096 → q a ≡ p a

module _ (p q : Mem) (same : SameFront p q) where
  pub word : (a : ℕ) → a + 1 < 4096 → get16 q a ≡ get16 p a
  word a h = get16_cong q p a (same a (omega arith)) (same (a + 1) h)

  module _ (v : IsValid p) where
    offsets : (j : ℕ) → j < slot_count p → record_offset q j ≡ record_offset p j
    offsets j l =
        word (slot_offset j)
          (omega (arith, slot_offset_lem j (omega (arith, v.room, v.gap, v.directory))))

    lengths : (j : ℕ) → j < slot_count p → record_length q j ≡ record_length p j
    lengths j l =
        word (slot_offset j + 2)
          (omega (arith, slot_offset_lem j (omega (arith, v.room, v.gap, v.directory))))

    count : slot_count q ≡ slot_count p
    count = word 0 (omega arith)

    totals : (n : ℕ) → n ≤ slot_count p → total_length q n ≡ total_length p n
    totals n le = total_length_cong p q n (λ j l. lengths j (omega arith))

    pub window-IsValid : IsValid q
    window-IsValid =
        let start = word 2 (omega arith) in
        let limit = word 4 (omega arith) in
        record {
          room = rw count (omega (arith, totals (slot_count p) (omega arith), v.room));
          gap = omega (arith, v.gap);
          directory = omega (arith, count, v.directory);
          extents = λ j l live.
              let l' : j < slot_count p = omega (arith, count) in
              let old = v.extents j l' (λ e. live (lengths j l' ∙ e)) in
              (omega (arith, offsets j l'), omega (arith, offsets j l', lengths j l'));
        }

    pub window-IsCompactable : IsCompactable p → IsCompactable q
    window-IsCompactable safe j l live =
        let l' : j < slot_count p = omega (arith, count) in
        let old = safe j l' (λ e. live (lengths j l' ∙ e)) in
        omega (arith, offsets j l', totals j (omega arith))

    pub window-IsTidy : IsTidy p → IsTidy q
    window-IsTidy tidy = (
      window-IsCompactable tidy.0,
      λ j l e.
          let l' : j < slot_count p = omega (arith, count) in tidy.1 j l' (sym (lengths j l') ∙ e),
    )

    pub lookup-window : (j : ℕ) → lookup q j ≡ lookup p j
    lookup-window j = lookup_cong p q j j (rw count refl) (λ l. (
      lengths j l,
      λ k lt.
          let old = v.extents j l (omega arith) in
          rw (offsets j l) (same (record_offset p j + k) (omega (arith, v.gap, v.directory))),
    ))
