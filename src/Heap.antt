-- ===== src/Heap.antt =====
-- mini-db/04-heap-file/heap_file.c: records in the slotted pages of a file. The only open file is
-- the heap's; `fd` is `none` where it is negative, a NULL pointer and a result -1 are `none`.
pub mod View
pub mod Insert
pub mod Scan
pub mod Store
pub mod Get
pub mod Delete
pub mod Errors
pub mod Faults
pub mod Survival
pub mod Reading
pub mod Spec
pub mod Trace
pub mod Tidy
pub mod Session
mod Tests
use cs_lab.Base.{
  true, false, ℕ, zero, suc, ◌+◌, ◌-◌, ◌*◌, ◌/◌, ◌%◌, ◌^◌, Option, none, some, ltb, leb, ◌==◌,
  if◌then◌else◌, is_some, Bool,
}
use cs_lab.Memory.{Mem}
use cs_lab.Posix.{File, lseek_end}
use cs_lab.Page.{
  page_size, header_size, slot_size, init_page, insert_checked, get_record, delete_record,
}
use cs_lab.PageFile.{read_into, page_write, page_allocate}

-- `RID`
pub record Rid : Type 0 where
  pub page_id : ℕ
  pub slot_id : ℕ

abbrev pub rid : ℕ → ℕ → Rid
rid page slot = record { page_id = page; slot_id = slot }

pub record HeapFile : Type 0 where
  pub fd : Option ℕ

-- `heap_open` with what `open` returns
unfoldable pub heap_open : Option HeapFile → Bool → Option ℕ → Option ℕ × Option HeapFile
heap_open none named opened = (none, none)
heap_open (some heap) false opened = (none, some heap)
heap_open (some heap) true none = (none, some (record { fd = none }))
heap_open (some heap) true (some fd) = (some 0, some (record { fd = some fd }))

-- `heap_close`, and the descriptor that it closes
unfoldable pub heap_close : Option HeapFile → Option ℕ × Option HeapFile
heap_close none = (none, none)
heap_close (some heap) = (heap.fd, some (record { fd = none }))

-- `heap_page_count` with a valid descriptor
unfoldable pub count_pages : File → ℕ × File
count_pages f =
    let (file_size, g) = lseek_end f in
    elim file_size [ none ↦ (0, g) | some size ↦ (size / page_size % 2 ^ 32, g) ]

unfoldable pub page_count_of : Option ℕ → File → ℕ × File
page_count_of none f = (0, f)
page_count_of (some fd) f = count_pages f

unfoldable pub heap_page_count : Option HeapFile → File → ℕ × File
unfolding page_count_of
heap_page_count none f = (0, f)
heap_page_count (some heap) f = page_count_of heap.fd f

-- How the loop of `heap_insert` over the pages ends.
pub data Tried : Type 0 where
  inserted : Rid → Tried
  error : Tried
  exhausted : Tried

-- The end of a round of the scan: what `page_write` returned.
unfoldable pub stored_in : Rid → Mem → Option ℕ × File → Tried × Mem × File
stored_in new r (none, h) = (error, r, h)
stored_in new r (some _, h) = (inserted new, r, h)

module _ (fd : Option ℕ) (source : Mem) (len : ℕ) where
  -- A round of the scan of the page `page_id` from `page_insert` on; `next` is the rest of the scan.
  unfoldable pub insert_or_next :
      ℕ → (next : Mem → File → Tried × Mem × File) → File → Option ℕ × Mem → Tried × Mem × File
  insert_or_next page_id next g (none, r) = next r g
  insert_or_next page_id next g (some s, r) =
      stored_in (rid page_id (s % 2 ^ 16)) r (page_write fd page_id (some r) g)

  -- A round from the result of `page_read` on.
  unfoldable pub scan_read :
      ℕ → (next : Mem → File → Tried × Mem × File) → Option ℕ × Mem × File → Tried × Mem × File
  scan_read page_id next (none, q, g) = (error, q, g)
  scan_read page_id next (some _, q, g) =
      insert_or_next page_id next g (insert_checked q source len)

  -- The loop from the page `page_id` on, with `rounds` pages left. `page` is the local array: how
  -- the loop ends, what it leaves in the array, and the file.
  unfoldable pub try_pages : (rounds page_id : ℕ) (page : Mem) → File → Tried × Mem × File
  try_pages zero page_id page f = (exhausted, page, f)
  try_pages (suc rounds) page_id page f =
      scan_read page_id (try_pages rounds (page_id + 1)) (read_into fd page_id page f)

  -- `heap_insert` behind the scan: what `page_write` of the new page returned.
  unfoldable pub appended : Rid → Option ℕ × File → Option Rid × File
  appended new (none, k) = (none, k)
  appended new (some _, k) = (some new, k)

  unfoldable pub fill_new : ℕ → File → Option ℕ × Mem → Option Rid × File
  fill_new new_page_id h (none, page) = (none, h)
  fill_new new_page_id h (some s, page) =
      appended (rid new_page_id (s % 2 ^ 16)) (page_write fd new_page_id (some page) h)

  unfoldable pub append_page : (array : Mem) → Option ℕ × File → Option Rid × File
  append_page array (none, h) = (none, h)
  append_page array (some new_page_id, h) =
      fill_new new_page_id h (insert_checked (init_page array) source len)

  -- `fresh` is what the array of `page_allocate` holds at first.
  unfoldable pub after_scan : (fresh : Mem) → Tried × Mem × File → Option Rid × File
  after_scan fresh (inserted r, array, g) = (some r, g)
  after_scan fresh (error, array, g) = (none, g)
  after_scan fresh (exhausted, array, g) = append_page array (page_allocate fd fresh g)

-- `max_record_size`
abbrev pub max_record_size : ℕ
max_record_size = page_size - header_size - slot_size

-- `heap_insert` from the result of `heap_page_count` on
unfoldable pub insert_counted :
    Option ℕ → Mem → ℕ → (stack fresh : Mem) → ℕ × File → Option Rid × File
insert_counted fd source len stack fresh (page_count, g) =
    after_scan fd source len fresh (try_pages fd source len page_count 0 stack g)

-- `heap_insert` with valid pointers. The result `some r` is 0 with `r` in `*rid`; at -1 the target
-- of `rid` is left alone. `stack` is what the local array holds at first.
unfoldable pub insert_into : HeapFile → Mem → ℕ → (stack fresh : Mem) → File → Option Rid × File
insert_into heap source len stack fresh f =
    if ltb max_record_size len
    then (none, f)
    else insert_counted heap.fd source len stack fresh (heap_page_count (some heap) f)

-- `heap_insert`: the result, the target of `rid` and the file
unfoldable pub heap_insert :
    Option HeapFile
    → Option Mem
    → ℕ
    → Option Rid
    → (stack fresh : Mem) → File
    → Option ℕ × Option Rid × File
heap_insert none source len target stack fresh f = (none, target, f)
heap_insert (some heap) none len target stack fresh f = (none, target, f)
heap_insert (some heap) (some source) len none stack fresh f = (none, none, f)
heap_insert (some heap) (some source) len (some old) stack fresh f =
    let (r, g) = insert_into heap source len stack fresh f in
    elim r [ none ↦ (none, some old, g) | some new ↦ (some 0, some new, g) ]

-- `heap_get` from the result of `page_read` on: the result, the buffer and the file
unfoldable pub get_read : Rid → Mem → ℕ → Option ℕ × Mem × File → Option ℕ × Mem × File
get_read r buffer buffer_size (none, page, h) = (none, buffer, h)
get_read r buffer buffer_size (some _, page, h) =
    let (record_length, out) = get_record page r.slot_id buffer buffer_size in
    (record_length, out, h)

-- `heap_get` from the result of `heap_page_count` on
unfoldable pub get_counted :
    HeapFile → Rid → Mem → ℕ → (stack : Mem) → ℕ × File → Option ℕ × Mem × File
get_counted heap r buffer buffer_size stack (page_count, g) =
    if leb page_count r.page_id
    then (none, buffer, g)
    else get_read r buffer buffer_size (read_into heap.fd r.page_id stack g)

-- `heap_get` with valid pointers
unfoldable pub get_from : HeapFile → Rid → Mem → ℕ → (stack : Mem) → File → Option ℕ × Mem × File
get_from heap r buffer buffer_size stack f =
    if buffer_size == 0
    then (none, buffer, f)
    else get_counted heap r buffer buffer_size stack (heap_page_count (some heap) f)

unfoldable pub heap_get :
    Option HeapFile → Rid → Option Mem → ℕ → (stack : Mem) → File → Option ℕ × Option Mem × File
heap_get none r buffer buffer_size stack f = (none, buffer, f)
heap_get (some heap) r none buffer_size stack f = (none, none, f)
heap_get (some heap) r (some buffer) buffer_size stack f =
    let (n, out, g) = get_from heap r buffer buffer_size stack f in (n, some out, g)

-- `heap_delete` from the result of `page_delete` on
unfoldable pub write_deleted : ℕ → Rid → File → Option ℕ × Mem → Option ℕ × File
write_deleted fd r h (none, q) = (none, h)
write_deleted fd r h (some _, q) = page_write (some fd) r.page_id (some q) h

unfoldable pub delete_read : ℕ → Rid → Option ℕ × Mem × File → Option ℕ × File
delete_read fd r (none, page, h) = (none, h)
delete_read fd r (some _, page, h) = write_deleted fd r h (delete_record page r.slot_id)

unfoldable pub delete_counted : ℕ → Rid → (stack : Mem) → ℕ × File → Option ℕ × File
delete_counted fd r stack (page_count, g) =
    if leb page_count r.page_id
    then (none, g)
    else delete_read fd r (read_into (some fd) r.page_id stack g)

unfoldable pub delete_on : Option ℕ → Rid → (stack : Mem) → File → Option ℕ × File
delete_on none r stack f = (none, f)
delete_on (some fd) r stack f = delete_counted fd r stack (count_pages f)

unfoldable pub heap_delete : Option HeapFile → Rid → (stack : Mem) → File → Option ℕ × File
heap_delete none r stack f = (none, f)
heap_delete (some heap) r stack f = delete_on heap.fd r stack f
