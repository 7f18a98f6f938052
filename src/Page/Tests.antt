-- ===== src/Page/Tests.antt =====
-- Runs of the page functions on small pages.
use cs_lab.Base.{is_some, leb, ◌+◌, ◌-◌, ◌<◌, none, some, arith, ◌≡◌, refl, [], ◌∷◌, ◌&&◌, true}
use cs_lab.Page.Layout.{IsValid, IsCompactable, lookup, total_length}
use cs_lab.Page.Init.{init_page-IsCompactable}
use cs_lab.Page.Insert.Slot.{reusable}
use cs_lab.Page.Insert.Outcome.{
  stored, insert_record-IsValid, insert_record-IsCompactable, insert_record-stores,
  insert_checked-fits, insert_record-behind,
}
use cs_lab.Page.Delete.{lookup-delete_record}
use cs_lab.Page.Get.{Fetched, get_record-Fetched}
use cs_lab.Page.Compact.Headers.{compact_page-IsValid}
use cs_lab.Page.Compact.Records.{lookup-compact_page}
use cs_lab.Page.Compact.Damage.{compact_page-overwrites}
use cs_lab.Memory.{Mem, get16, set16, memcpy, memmove, memset, bytes}
use cs_lab.Page.{
  slot_count, free_end, record_length, record_offset, needed_space, slot_offset, init_page,
  insert_record, delete_record, get_record, compact_page, find_reusable, fill_slot, grow_directory,
  place_record, compact_loop, move_record, insert_checked,
}
use cs_lab.Page.Samples.{
  of_list, empty_page, one_record, two_records, reused, empty-IsValid, one-IsValid, two-IsValid,
  reused-IsValid,
}

run_two : bytes two_records 0 12 ≡ 2 ∷ 0 ∷ 11 ∷ 0 ∷ 248 ∷ 15 ∷ 1 ∷ 2 ∷ 3 ∷ 4 ∷ 5 ∷ 0 ∷ []
unfolding bytes insert_record init_page memset set16 get16 memcpy place_record fill_slot
    grow_directory find_reusable slot_offset
run_two = refl

run_reused :
    bytes reused 0 18
    ≡ 2 ∷ 0 ∷ 16 ∷ 0 ∷ 248 ∷ 15 ∷ 1 ∷ 2 ∷ 3 ∷ 4 ∷ 5 ∷ 6 ∷ 7 ∷ 8 ∷ 9 ∷ 10 ∷ 0 ∷ 0 ∷ []
unfolding run_two delete_record
run_reused = refl

-- The record of slot 1 was 4, 5.
run_compact : bytes (get_record (compact_page reused) 1 (λ _. 0) 10).1 0 2 ≡ 9 ∷ 10 ∷ []
unfolding run_two delete_record compact_page compact_loop move_record memmove get_record
run_compact = refl

abbrev third : Mem
third = of_list (11 ∷ 12 ∷ [])

-- No slot of these pages is deleted, so a new record goes behind the others.
fresh_slots :
    (reusable empty_page ≡ none) × (reusable one_record ≡ none) × (reusable two_records ≡ none)
unfolding run_two delete_record
fresh_slots = (refl, refl, refl)

two-IsCompactable : IsCompactable two_records
two-IsCompactable =
    insert_record-IsCompactable one_record (of_list (4 ∷ 5 ∷ [])) 2 one-IsValid (fresh_slots.1) (
      insert_record-IsCompactable empty_page (of_list (1 ∷ 2 ∷ 3 ∷ [])) 3 empty-IsValid
        (fresh_slots.0) (init_page-IsCompactable (λ _. 7)))

insert_record-stores_example :
    lookup (insert_record two_records third 2).1 1
    ≡ stored two_records third 2 (insert_record two_records third 2).0 1
insert_record-stores_example =
    insert_record-stores two_records third 2 two-IsValid (omega arith) (λ _. two-IsCompactable) 1

insert_checked-fits_example :
    is_some (insert_checked two_records third 2).0
    ≡ true
      && leb
          (6
            + total_length two_records (slot_count two_records)
            + needed_space 2 (reusable two_records))
          (free_end two_records)
insert_checked-fits_example = insert_checked-fits two_records third 2 two-IsValid

insert_record-IsValid_example : IsValid (insert_record reused third 2).1
insert_record-IsValid_example = insert_record-IsValid reused third 2 reused-IsValid

insert_record-behind_example : (insert_record two_records third 2).1 5000 ≡ two_records 5000
insert_record-behind_example =
    insert_record-behind two_records third 2 two-IsValid 5000 (omega arith)

third_id : (insert_record two_records third 2).0 ≡ some 2
unfolding run_two
third_id = refl

lookup-compact_page_example : lookup (compact_page two_records) 1 ≡ lookup two_records 1
lookup-compact_page_example = lookup-compact_page two_records two-IsValid two-IsCompactable 1

compact_page-IsValid_example : IsValid (compact_page reused)
compact_page-IsValid_example = compact_page-IsValid reused reused-IsValid

overlap :
    (1 < slot_count reused)
    × (0 < record_length reused 1)
    × (record_offset reused 1 + 0 < 6 + record_length reused 0)
unfolding run_two delete_record
overlap = (omega arith, omega arith, omega arith)

compact_page-overwrites_example :
    compact_page reused (record_offset (compact_page reused) 1 + 0)
    ≡ reused (record_offset reused 0 + (record_offset reused 1 + 0 - 6))
compact_page-overwrites_example =
    compact_page-overwrites reused reused-IsValid 1 0 (omega arith) (overlap.0) (overlap.1)
      (overlap.2)

get_record-Fetched_example :
    Fetched two_records 1 (λ _. 0) 10 (get_record two_records 1 (λ _. 0) 10)
get_record-Fetched_example = get_record-Fetched two_records 1 (λ _. 0) 10

lookup-delete_record_example : lookup (delete_record two_records 0).1 0 ≡ none
lookup-delete_record_example = lookup-delete_record two_records two-IsValid 0 0
