-- ===== src/DiskManager.antt =====
-- mini-db/02-disk-manager/disk_manager.c: pages read and written in place. A page id is not
-- negative here, a result -1 is `none`; the file is the one that `db_open` opened.
pub mod Pages
pub mod Equivalence
pub mod Demo
pub mod Restored
mod Tests
use cs_lab.Base.{ℕ, ◌+◌, ◌*◌, ◌/◌, ◌%◌, ◌^◌, Option, none, some, if◌then◌else◌}
use cs_lab.Memory.{Mem, memset}
use cs_lab.Posix.{File, pread, pwrite, lseek_end}
use cs_lab.PageFile.{whole_page, to_int}

-- `db_open` with what `open` returns
unfoldable pub db_open : Option ℕ → Option ℕ
db_open none = none
db_open (some fd) = some fd

-- `db_close`: the descriptor that it closes
unfoldable pub db_close : Option ℕ → Option ℕ
db_close none = none
db_close (some fd) = some fd

unfoldable pub page_write : ℕ → Mem → File → Option ℕ × File
page_write page_id buffer f =
    let (written, g) = pwrite buffer 4096 (page_id * 4096) f in
    if whole_page written then (some 0, g) else (none, g)

-- The buffer may hold part of the page where the result is -1.
unfoldable pub page_read : ℕ → Mem → File → Option ℕ × Mem × File
page_read page_id buffer f =
    let (bytes, buffer', g) = pread buffer 4096 (page_id * 4096) f in
    if whole_page bytes then (some 0, buffer', g) else (none, buffer', g)

-- `page_allocate` from the id of the new page on. A negative id is a negative offset, which `pwrite`
-- refuses.
unfoldable pub write_empty : Option ℕ → File → Option ℕ × File
write_empty none f = (none, f)
write_empty (some page_id) f =
    let (written, g) = pwrite (λ _. 0) 4096 (page_id * 4096) f in
    if whole_page written then (some page_id, g) else (none, g)

unfoldable pub allocate_at : Option ℕ × File → Option ℕ × File
allocate_at (none, f) = (none, f)
allocate_at (some file_size, f) = write_empty (to_int (file_size / 4096 % 2 ^ 32)) f

unfoldable pub page_allocate : File → Option ℕ × File
page_allocate f = allocate_at (lseek_end f)
