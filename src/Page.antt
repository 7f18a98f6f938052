-- ===== src/Page.antt =====
-- The slotted page of mini-db/04-heap-file/page.c (the same code as mini-db/03-slotted-page/page.c):
-- a header of three `uint16_t` at the front, records behind it, and the slot directory growing down
-- from the end. A NULL pointer is `none`, and so is the result -1.
pub mod Compact
pub mod Delete
pub mod Fill
pub mod Get
pub mod Insert
pub mod Init
pub mod Layout
pub mod Place
pub mod Window
pub mod Samples
mod Tests
use cs_lab.Base.{
  ℕ, zero, suc, ◌+◌, ◌-◌, ◌*◌, ◌%◌, ◌^◌, Bool, ◌||◌, Option, none, some, ltb, leb, ◌==◌,
  if◌then◌else◌, is_some,
}
use cs_lab.Memory.{Mem, get16, set16, memcpy, memmove, memset}

abbrev pub page_size : ℕ
page_size = 4096

-- `sizeof(PageHeader)`
abbrev pub header_size : ℕ
header_size = 6

-- `sizeof(Slot)`
abbrev pub slot_size : ℕ
slot_size = 4

abbrev pub slot_count : Mem → ℕ
slot_count p = get16 p 0

abbrev pub free_start : Mem → ℕ
free_start p = get16 p 2

abbrev pub free_end : Mem → ℕ
free_end p = get16 p 4

-- `(uint16_t)(PAGE_SIZE - (i + 1) * sizeof(Slot))`
unfoldable pub slot_offset : ℕ → ℕ
slot_offset i = (2 ^ 64 + page_size - (i + 1) * slot_size) % 2 ^ 16

abbrev pub record_offset : Mem → ℕ → ℕ
record_offset p i = get16 p (slot_offset i)

abbrev pub record_length : Mem → ℕ → ℕ
record_length p i = get16 p (slot_offset i + 2)

-- `header->free_end - header->free_start`, an `int` that is stored in a `uint32_t`
abbrev pub current_free : Mem → ℕ
current_free p = (2 ^ 32 + free_end p - free_start p) % 2 ^ 32

unfoldable pub init_page : Mem → Mem
init_page page =
    let zeroed = memset page 0 page_size in
    let counted = set16 zeroed 0 0 in
    let started = set16 counted 2 header_size in set16 started 4 page_size

unfoldable pub page_init : Option Mem → Option Mem
page_init none = none
page_init (some page) = some (init_page page)

-- One round of the loop of `page_compact`, with the source length not 0.
unfoldable pub move_record : Mem → ℕ → ℕ → Mem
move_record p i new_free_start =
    let moved = memmove p new_free_start (record_offset p i) (record_length p i) in
    set16 moved (slot_offset i) new_free_start

-- The loop of `page_compact` from slot `i` on: the page and `new_free_start` at its end.
unfoldable pub compact_loop : ℕ → Mem → ℕ → ℕ → Mem × ℕ
compact_loop zero p i new_free_start = (p, new_free_start)
compact_loop (suc fuel) p i new_free_start =
    let skipped = compact_loop fuel p ((i + 1) % 2 ^ 16) new_free_start in
    let q = move_record p i new_free_start in
    let compacted =
      compact_loop fuel q ((i + 1) % 2 ^ 16) ((new_free_start + record_length q i) % 2 ^ 16) in
    if ltb i (slot_count p)
    then if record_length p i == 0 then skipped else compacted
    else (p, new_free_start)

unfoldable pub compact_page : Mem → Mem
compact_page p =
    let (q, start) = compact_loop (suc (slot_count p)) p 0 header_size in set16 q 2 start

unfoldable pub page_compact : Option Mem → Option Mem
page_compact none = none
page_compact (some p) = some (compact_page p)

-- The search of `page_insert` for a deleted slot: `rounds` slots from `i` on are left.
unfoldable pub find_reusable : Mem → ℕ → ℕ → Option ℕ
find_reusable p zero i = none
find_reusable p (suc rounds) i =
    if record_length p i == 0 then some i else find_reusable p rounds (i + 1)

-- `slot->offset`, `slot->length` and `header->free_start`, at the slot `i`
unfoldable pub fill_slot : Mem → ℕ → ℕ → Mem
fill_slot p i len =
    let placed = set16 p (slot_offset i) (free_start p) in
    let sized = set16 placed (slot_offset i + 2) len in
    set16 sized 2 ((free_start sized + len) % 2 ^ 16)

-- `header->free_end -= sizeof(Slot); header->slot_count++;`
unfoldable pub grow_directory : Mem → Mem
grow_directory p =
    let lowered = set16 p 4 ((2 ^ 16 + free_end p - slot_size) % 2 ^ 16) in
    set16 lowered 0 ((slot_count lowered + 1) % 2 ^ 16)

-- `page_insert` from its memcpy on, where there is room.
unfoldable pub place_record : Mem → Mem → ℕ → Option ℕ → ℕ × Mem
place_record p source len (some i) =
    let copied = memcpy p (free_start p) source len in (i, fill_slot copied i len)
place_record p source len none =
    let copied = memcpy p (free_start p) source len in
    let i = slot_count copied in (i, fill_slot (grow_directory copied) i len)

abbrev pub succeed : ℕ × Mem → Option ℕ × Mem
succeed (i, p) = (some i, p)

-- `needed_space`
abbrev pub needed_space : ℕ → Option ℕ → ℕ
needed_space len reusable = len + (if is_some reusable then 0 else slot_size)

-- `page_insert` with valid pointers and a length that is not 0
unfoldable pub insert_record : Mem → Mem → ℕ → Option ℕ × Mem
insert_record p source len =
    let reusable = find_reusable p (slot_count p) 0 in
    if ltb (current_free p) (needed_space len reusable)
    then (let q = compact_page p in
        if ltb (current_free q) (needed_space len reusable)
        then (none, q)
        else succeed (place_record q source len reusable))
    else succeed (place_record p source len reusable)

-- `page_insert` with valid pointers
unfoldable pub insert_checked : Mem → Mem → ℕ → Option ℕ × Mem
insert_checked p source len = if len == 0 then (none, p) else insert_record p source len

abbrev pub with_page : {A : Type 0} → Option A × Mem → Option A × Option Mem
with_page (r, p) = (r, some p)

unfoldable pub page_insert : Option Mem → Option Mem → ℕ → Option ℕ × Option Mem
page_insert none source len = (none, none)
page_insert (some p) none len = (none, some p)
page_insert (some p) (some source) len = with_page (insert_checked p source len)

-- `page_get` with valid pointers: the result and the buffer after it
unfoldable pub get_record : Mem → ℕ → Mem → ℕ → Option ℕ × Mem
get_record p slot_id buffer buffer_size =
    if leb (slot_count p) slot_id
    then (none, buffer)
    else if record_length p slot_id == 0
    then (none, buffer)
    else if ltb buffer_size (record_length p slot_id)
    then (none, buffer)
    else (
      some (record_length p slot_id),
      memcpy buffer 0 (λ k. p (record_offset p slot_id + k)) (record_length p slot_id),
    )

unfoldable pub page_get : Option Mem → ℕ → Option Mem → ℕ → Option ℕ × Option Mem
page_get none slot_id buffer buffer_size = (none, buffer)
page_get (some p) slot_id none buffer_size = (none, none)
page_get (some p) slot_id (some buffer) buffer_size =
    with_page (get_record p slot_id buffer buffer_size)

-- `page_delete` with a valid pointer; `some 0` is its result 0
unfoldable pub delete_record : Mem → ℕ → Option ℕ × Mem
delete_record p slot_id =
    if leb (slot_count p) slot_id
    then (none, p)
    else if record_length p slot_id == 0
    then (none, p)
    else (some 0, set16 p (slot_offset slot_id + 2) 0)

unfoldable pub page_delete : Option Mem → ℕ → Option ℕ × Option Mem
page_delete none slot_id = (none, none)
page_delete (some p) slot_id = with_page (delete_record p slot_id)
