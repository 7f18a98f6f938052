-- ===== src/Page/Place.antt =====
-- `place_record`: a record is copied behind the others and entered in the directory.
use cs_lab.Base.{
  ℕ, suc, ◌+◌, ◌*◌, ◌≤◌, ◌<◌, ◌≡◌, ◌≢◌, refl, ap, ◌∙◌, none, some, arith, ◌==◌, if◌then◌else◌, ltb,
  ltb→lt, lt→ltb, sym, ==-refl, ne→==,
}
use native.Mathlib.Decide.{ℕ_discrete}
use cs_lab.Memory.{Mem, memcpy, bytes}
use cs_lab.Memory.Frame.{frames, bytes_cong}
use cs_lab.Page.{
  slot_count, free_start, free_end, record_offset, record_length, fill_slot, grow_directory,
  place_record,
}
use cs_lab.Page.Layout.{
  slot_offset_lem, total_length, total_length_update, total_length_cong, total_length-suc, IsValid,
  IsCompactable, lookup, lookup_live, lookup_cong,
}
use cs_lab.Page.Fill.{fill_slot-Filled, grow_directory-Grown}

-- The page `q` is `p` with a record of `len` bytes of `source` entered at the slot `i`.
pub record Placed (p q source : Mem) (len i : ℕ) : Type 0 where
  pub in_directory : i < slot_count q
  pub total : total_length q (slot_count q) ≡ total_length p (slot_count p) + len
  pub start : free_start q ≡ free_start p + len
  pub gap : free_start q ≤ free_end q
  pub directory : free_end q + 4 * slot_count q ≡ 4096
  pub own_offset : record_offset q i ≡ free_start p
  pub own_length : record_length q i ≡ len
  pub same_slots : (j : ℕ) → j ≢ i → ltb j (slot_count q) ≡ ltb j (slot_count p)
  pub other_offset : (j : ℕ) → j < slot_count p → j ≢ i → record_offset q j ≡ record_offset p j
  pub other_length : (j : ℕ) → j < slot_count p → j ≢ i → record_length q j ≡ record_length p j
  pub content : (k : ℕ) → k < len → q (free_start p + k) ≡ source k
  pub kept : (b : ℕ) → 6 ≤ b → b < free_start p → q b ≡ p b
  pub behind : (b : ℕ) → 4096 ≤ b → q b ≡ p b

-- The page after the memcpy of `page_insert`.
record Copied (p c source : Mem) (len : ℕ) : Type 0 where
  count : slot_count c ≡ slot_count p
  start : free_start c ≡ free_start p
  limit : free_end c ≡ free_end p
  offsets : (j : ℕ) → j < slot_count p → record_offset c j ≡ record_offset p j
  lengths : (j : ℕ) → j < slot_count p → record_length c j ≡ record_length p j
  content : (k : ℕ) → k < len → c (free_start p + k) ≡ source k
  kept : (b : ℕ) → b < free_start p → c b ≡ p b
  behind : (b : ℕ) → 4096 ≤ b → c b ≡ p b

module _ (p source : Mem) (len : ℕ) (v : IsValid p) (fits : free_start p + len ≤ free_end p) where
  copied : Copied p (memcpy p (free_start p) source len) source len
  copied = record {
    count = grind frames;
    start = grind frames;
    limit = grind frames;
    offsets = λ j l. grind (frames, slot_offset_lem j);
    lengths = λ j l. grind (frames, slot_offset_lem j);
    content = λ k l. grind frames;
    kept = λ b l. grind frames;
    behind = λ b l. grind frames;
  }

  pub place_reused :
      (i : ℕ)
      → i < slot_count p
      → record_length p i ≡ 0
      → Placed p (place_record p source len (some i)).1 source len i
  unfolding place_record
  place_reused i inside dead =
      let c = copied in
      let m = memcpy p (free_start p) source len in
      let at_i = slot_offset_lem i (omega arith) in
      let f = fill_slot-Filled m i len (omega arith) (omega arith) in
      let q = fill_slot m i len in
      let update =
        total_length_update p q (slot_count p) i inside
          (λ j l n. f.other_length j (omega arith) n ∙ c.lengths j l) in
      let same = f.count ∙ c.count in
      record {
        in_directory = omega arith;
        total = rw same (omega arith);
        start = omega arith;
        gap = omega arith;
        directory = omega arith;
        own_offset = f.own_offset ∙ c.start;
        own_length = f.own_length;
        same_slots = λ j n. rw same refl;
        other_offset = λ j l n. f.other_offset j (omega arith) n ∙ c.offsets j l;
        other_length = λ j l n. f.other_length j (omega arith) n ∙ c.lengths j l;
        content =
            λ k l. f.other_bytes (free_start p + k) (omega arith) (omega arith) ∙ c.content k l;
        kept = λ b l h. f.other_bytes b l (omega arith) ∙ c.kept b h;
        behind = λ b l. f.behind b l ∙ c.behind b l;
      }

  pub place_record_new : (place_record p source len none).0 ≡ slot_count p
  unfolding place_record
  place_record_new = copied.count

  pub place_new :
      free_start p + len + 4 ≤ free_end p
      → Placed p (place_record p source len none).1 source len (place_record p source len none).0
  unfolding place_record
  place_new room =
      let c = copied in
      let m = memcpy p (free_start p) source len in
      let g = grow_directory-Grown m (omega arith) (omega arith) (omega arith) in
      let i = slot_count p in
      let at_i = slot_offset_lem i (omega arith) in
      rw c.count (
        let d = grow_directory m in
        let f = fill_slot-Filled d i len (omega arith) (omega arith) in
        let q = fill_slot d i len in
        let lens = λ (j : ℕ) (l : j < i).
          f.other_length j (omega arith) (omega arith)
          ∙ g.lengths j (omega arith)
          ∙ c.lengths j l in
        let sum = total_length_cong p q i lens in
        let more : slot_count q ≡ suc i = omega arith in
        record {
          in_directory = omega arith;
          total =
              ap (total_length q) more ∙ total_length-suc q i ∙ omega (arith, sum, f.own_length);
          start = omega arith;
          gap = omega arith;
          directory = omega arith;
          own_offset = f.own_offset ∙ g.start ∙ c.start;
          own_length = f.own_length;
          same_slots = λ j n. rw more (grind arith);
          other_offset =
              λ j l n. f.other_offset j (omega arith) n ∙ g.offsets j (omega arith) ∙ c.offsets j l;
          other_length = λ j l n. lens j l;
          content = λ k l.
              f.other_bytes (free_start p + k) (omega arith) (omega arith)
              ∙ g.other_bytes (free_start p + k) (omega arith)
              ∙ c.content k l;
          kept = λ b l h. f.other_bytes b l (omega arith) ∙ g.other_bytes b l ∙ c.kept b h;
          behind = λ b l. f.behind b l ∙ g.other_bytes b (omega arith) ∙ c.behind b l;
        })

module _ {p q source : Mem} {len i : ℕ} (v : IsValid p) (d : Placed p q source len i) where
  -- A slot of the new page is the new one or was in the directory before.
  old_slot : (j : ℕ) → j < slot_count q → j ≢ i → j < slot_count p
  old_slot j l n = ltb→lt j (slot_count p) (sym (d.same_slots j n) ∙ lt→ltb j (slot_count q) l)

  pub Placed-IsValid : IsValid q
  Placed-IsValid = record {
    room = omega (arith, v.room, d.total, d.start);
    gap = d.gap;
    directory = d.directory;
    extents = λ j l live. elim (ℕ_discrete j i) [
      | yes e ↦ rw e (
        omega (arith, v.room, d.own_offset, d.own_length, d.start),
        omega (arith, d.own_offset, d.own_length, d.start),
      )
      | no n ↦
          let l' = old_slot j l n in
          let same = d.other_length j l' n in
          let old = v.extents j l' (λ e. live (same ∙ e)) in
          (omega (arith, d.other_offset j l' n), omega (arith, d.other_offset j l' n, d.start))
    ];
  }

  kept_byte :
      (j : ℕ)
      → j < slot_count p
      → j ≢ i
      → (k : ℕ) → k < record_length p j
      → q (record_offset q j + k) ≡ p (record_offset p j + k)
  kept_byte j l ne k lt =
      let old = v.extents j l (omega arith) in
      rw (d.other_offset j l ne) (d.kept (record_offset p j + k) (omega arith) (omega arith))

  -- Exactly the slot `i` changes, and it holds the record.
  pub lookup-Placed :
      (j : ℕ) → len ≢ 0 → lookup q j ≡ (if j == i then some (bytes source 0 len) else lookup p j)
  unfolding lookup
  lookup-Placed j n = elim (ℕ_discrete j i) [
    | yes e ↦
        rw (e, ==-refl i)
          (lookup_live q i len d.in_directory d.own_length n
            ∙ ap some (
                rw d.own_offset (
                  bytes_cong q source (free_start p) 0 len (λ k l. ground (arith, d.content k l)))))
    | no ne ↦ rw (ne→== j i ne) (
        lookup_cong p q j j (d.same_slots j ne)
          (λ l. (d.other_length j l ne, λ k lt. kept_byte j l ne k lt)))
  ]

  -- A record that is entered in a new slot leaves the records in the order of their slots.
  pub Placed-IsCompactable : i ≡ slot_count p → IsCompactable p → IsCompactable q
  Placed-IsCompactable new safe j l live =
      let below = λ (n : ℕ) (le : n ≤ i).
        total_length_cong p q n (λ k h. d.other_length k (omega arith) (omega arith)) in
      elim (ℕ_discrete j i) [
        | yes e ↦
            rw e
              (omega (arith, below i (omega arith), d.own_offset, v.room, ap (total_length p) new))
        | no ne ↦
            let l' = old_slot j l ne in
            let old = safe j l' (λ e. live (d.other_length j l' ne ∙ e)) in
            omega (arith, below j (omega arith), d.other_offset j l' ne)
      ]
