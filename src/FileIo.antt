-- ===== src/FileIo.antt =====
-- mini-db/01-file-io/file_io.c: pages of a file written with `fsync`, where every failed call ends
-- the process. A result `none` is `exit(1)`. The file is the one that `main` opens, twice.
pub mod Pages
mod Tests
use cs_lab.Base.{
  ℕ, zero, suc, ◌+◌, ◌*◌, Option, none, some, List, [], ◌∷◌, ◌==◌, if◌then◌else◌, get_or, length,
}
use cs_lab.Memory.{Mem, memset, memcpy}
use cs_lab.Posix.{File, lseek_set, read, write, fsync}
use cs_lab.PageFile.{whole_page}

-- `page_write` from the result of `write` on
unfoldable pub write_checked : Option ℕ × File → Option ℕ × File
write_checked (written, f) = if whole_page written then fsync f else (none, f)

unfoldable pub write_at : Mem → Option ℕ × File → Option ℕ × File
write_at page (none, f) = (none, f)
write_at page (some offset, f) = write_checked (write page 4096 f)

unfoldable pub page_write : ℕ → Mem → File → Option ℕ × File
page_write page_id page f = write_at page (lseek_set (page_id * 4096) f)

-- `page_read`: the number of bytes read, the buffer and the file. A short read is no error.
unfoldable pub read_at : Mem → Option ℕ × File → Option ℕ × Mem × File
read_at buffer (none, f) = (none, buffer, f)
read_at buffer (some offset, f) = read buffer 4096 f

unfoldable pub page_read : ℕ → Mem → File → Option ℕ × Mem × File
page_read page_id buffer f = read_at buffer (lseek_set (page_id * 4096) f)

-- The bytes of a C string, of `n` at most.
unfoldable pub c_string : ℕ → ℕ → Mem → List ℕ
c_string zero a p = []
c_string (suc n) a p = let rest = c_string n (a + 1) p in if p a == 0 then [] else p a ∷ rest

-- `strcpy` of the literal into the zeroed buffer
abbrev pub hello : List ℕ
hello = 72 ∷ 101 ∷ 108 ∷ 108 ∷ 111 ∷ 32 ∷ 68 ∷ 66 ∷ []

unfoldable pub string_page : List ℕ → Mem
string_page text = memcpy (memset (λ _. 0) 0 4096) 0 (λ k. get_or text k 0) (length text + 1)

-- What `main` prints, with the file opened afresh (at offset 0) in between.
unfoldable pub print_page : Option ℕ × Mem × File → Option (List ℕ)
print_page (none, buffer, f) = none
print_page (some n, buffer, f) = some (c_string 4096 0 buffer)

unfoldable pub reopen : Option ℕ × File → Option (List ℕ)
reopen (none, f) = none
reopen (some _, f) = print_page (page_read 2 (memset (λ _. 0) 0 4096) (record f { pos = 0 }))

unfoldable pub main : File → Option (List ℕ)
main f = reopen (page_write 2 (string_page hello) f)
