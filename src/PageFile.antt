-- ===== src/PageFile.antt =====
-- The page I/O of mini-db/04-heap-file/page.c: whole pages at multiples of 4096 bytes. A file
-- descriptor is `none` where it is negative, and a result -1 is `none`.
pub mod Idle
pub mod Content
pub mod Faults
pub mod Reading
use cs_lab.Base.{
  ℕ, ◌+◌, ◌*◌, ◌/◌, ◌%◌, ◌^◌, Option, none, some, ltb, ◌==◌, if◌then◌else◌, is_some, Bool, false,
}
use cs_lab.Memory.{Mem}
use cs_lab.Posix.{File, lseek_set, lseek_end, read, write}
use cs_lab.Page.{page_size, init_page}

-- `off_t offset = (off_t)page_id * PAGE_SIZE`
abbrev pub page_offset : ℕ → ℕ
page_offset page_id = page_id * page_size

-- The test `n == PAGE_SIZE` on the result of a transfer.
abbrev pub whole_page : Option ℕ → Bool
whole_page none = false
whole_page (some n) = n == page_size

-- `page_read` on a valid descriptor and buffer
unfoldable pub read_page : ℕ → Mem → File → Option ℕ × Mem × File
read_page page_id page f =
    let (at, g) = lseek_set (page_offset page_id) f in
    let (n, page', h) = read page page_size g in
    if is_some at
    then if whole_page n then (some 0, page', h) else (none, page', h)
    else (none, page, g)

-- `page_read` with a valid buffer
unfoldable pub read_into : Option ℕ → ℕ → Mem → File → Option ℕ × Mem × File
read_into none page_id page f = (none, page, f)
read_into (some fd) page_id page f = read_page page_id page f

unfoldable pub page_read : Option ℕ → ℕ → Option Mem → File → Option ℕ × Option Mem × File
page_read fd page_id none f = (none, none, f)
page_read fd page_id (some page) f =
    let (r, page', g) = read_into fd page_id page f in (r, some page', g)

-- `page_write` on a valid descriptor and buffer
unfoldable pub write_page : ℕ → Mem → File → Option ℕ × File
write_page page_id page f =
    let (at, g) = lseek_set (page_offset page_id) f in
    let (n, h) = write page page_size g in
    if is_some at then if whole_page n then (some 0, h) else (none, h) else (none, g)

unfoldable pub page_write : Option ℕ → ℕ → Option Mem → File → Option ℕ × File
page_write none page_id page f = (none, f)
page_write (some fd) page_id none f = (none, f)
page_write (some fd) page_id (some page) f = write_page page_id page f

-- An `int` that comes from a `uint32_t`: `none` where the caller sees a negative number.
abbrev pub to_int : ℕ → Option ℕ
to_int n = if ltb n (2 ^ 31) then some n else none

-- `page_allocate`; `stack` is what the local array holds before `page_init`.
unfoldable pub page_allocate : Option ℕ → Mem → File → Option ℕ × File
page_allocate none stack f = (none, f)
page_allocate (some fd) stack f =
    let (file_size, g) = lseek_end f in
    let (n, h) = write (init_page stack) page_size g in
    elim file_size [
      | none ↦ (none, g)
      | some size ↦ if whole_page n then (to_int (size / page_size % 2 ^ 32), h) else (none, h)
    ]
