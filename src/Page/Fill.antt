-- ===== src/Page/Fill.antt =====
-- `fill_slot` and `grow_directory`: the header and slot writes that end `page_insert`.
use cs_lab.Base.{ℕ, ◌+◌, ◌≤◌, ◌<◌, ◌≡◌, ◌≢◌}
use cs_lab.Memory.{Mem}
use cs_lab.Memory.Frame.{frames}
use cs_lab.Page.{
  slot_count, free_start, free_end, slot_offset, record_offset, record_length, fill_slot,
  grow_directory,
}
use cs_lab.Page.Layout.{slot_limit, slot_offset_lem}

-- What is written to the slot `i` and the header, and what stays.
pub record Filled (p q : Mem) (i len : ℕ) : Type 0 where
  pub count : slot_count q ≡ slot_count p
  pub start : free_start q ≡ free_start p + len
  pub limit : free_end q ≡ free_end p
  pub own_offset : record_offset q i ≡ free_start p
  pub own_length : record_length q i ≡ len
  pub other_offset : (j : ℕ) → j < slot_limit → j ≢ i → record_offset q j ≡ record_offset p j
  pub other_length : (j : ℕ) → j < slot_limit → j ≢ i → record_length q j ≡ record_length p j
  pub other_bytes : (b : ℕ) → 6 ≤ b → b < slot_offset i → q b ≡ p b
  pub behind : (b : ℕ) → 4096 ≤ b → q b ≡ p b

pub fill_slot-Filled :
    (p : Mem) (i len : ℕ)
    → i < slot_limit
    → free_start p + len < 65536
    → Filled p (fill_slot p i len) i len
unfolding fill_slot
fill_slot-Filled p i len small fits =
    let at_i = slot_offset_lem i small in
    record {
      count = grind (frames, at_i);
      start = grind (frames, at_i);
      limit = grind (frames, at_i);
      own_offset = grind (frames, at_i);
      own_length = grind (frames, at_i);
      other_offset = λ j s n. grind (frames, at_i, slot_offset_lem j);
      other_length = λ j s n. grind (frames, at_i, slot_offset_lem j);
      other_bytes = λ b l h. grind (frames, at_i);
      behind = λ b l. grind (frames, at_i);
    }

-- The header after a new slot is claimed.
pub record Grown (p q : Mem) : Type 0 where
  pub count : slot_count q ≡ slot_count p + 1
  pub start : free_start q ≡ free_start p
  pub limit : free_end q + 4 ≡ free_end p
  pub offsets : (j : ℕ) → j < slot_limit → record_offset q j ≡ record_offset p j
  pub lengths : (j : ℕ) → j < slot_limit → record_length q j ≡ record_length p j
  pub other_bytes : (b : ℕ) → 6 ≤ b → q b ≡ p b

pub grow_directory-Grown :
    (p : Mem)
    → slot_count p < slot_limit
    → 4 ≤ free_end p
    → free_end p ≤ 4096
    → Grown p (grow_directory p)
unfolding grow_directory
grow_directory-Grown p small lo hi = record {
  count = grind frames;
  start = grind frames;
  limit = grind frames;
  offsets = λ j s. grind (frames, slot_offset_lem j);
  lengths = λ j s. grind (frames, slot_offset_lem j);
  other_bytes = λ b h. grind frames;
}
