-- ===== src/DiskManager/Demo.antt =====
-- mini-db/02-disk-manager/main.c: a page is allocated, written and read back. The database is the
-- file that `open` has given.
use cs_lab.Base.{ℕ, Option, none, some, List, [], ◌∷◌}
use cs_lab.Memory.{Mem, memset}
use cs_lab.Posix.{File}
use cs_lab.FileIo.{string_page, c_string}
use cs_lab.DiskManager.{db_open, db_close, page_allocate, page_write, page_read}

-- "My first allocated page"
abbrev pub text : List ℕ
text =
    77 ∷ 121 ∷ 32 ∷ 102 ∷ 105 ∷ 114 ∷ 115 ∷ 116 ∷ 32 ∷ 97 ∷ 108 ∷ 108 ∷ 111 ∷ 99 ∷ 97 ∷ 116 ∷ 101
    ∷ 100 ∷ 32 ∷ 112 ∷ 97 ∷ 103 ∷ 101 ∷ []

-- What the program does: the page id and the text that it prints, and the descriptor that it closes.
pub record Report : Type 0 where
  pub page_id : Option ℕ
  pub read : Option (List ℕ)
  pub closed : Option ℕ

-- From the result of `page_read` on
unfoldable pub report_read : ℕ → Option ℕ → Option ℕ × Mem × File → Report × File
report_read fd page_id (none, page, f) =
    (record { page_id = page_id; read = none; closed = none }, f)
report_read fd page_id (some _, page, f) = (
  record { page_id = page_id; read = some (c_string 4096 0 page); closed = db_close (some fd) },
  f,
)

-- From the result of `page_write` on
unfoldable pub read_back : ℕ → ℕ → Option ℕ × File → Report × File
read_back fd page_id (none, f) = (record { page_id = some page_id; read = none; closed = none }, f)
read_back fd page_id (some _, f) =
    report_read fd (some page_id) (page_read page_id (memset (λ _. 0) 0 4096) f)

-- From the result of `page_allocate` on. A page id of -1 is a negative offset, which `pwrite`
-- refuses.
unfoldable pub write_text : ℕ → Option ℕ × File → Report × File
write_text fd (none, f) = (record { page_id = none; read = none; closed = none }, f)
write_text fd (some page_id, f) = read_back fd page_id (page_write page_id (string_page text) f)

-- `main`; without a report where the database cannot be opened.
unfoldable pub main : Option ℕ → File → Option Report × File
main opened f = elim (db_open opened) [
  | none ↦ (none, f)
  | some fd ↦ let (r, g) = write_text fd (page_allocate f) in (some r, g)
]
