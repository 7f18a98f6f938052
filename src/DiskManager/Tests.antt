-- ===== src/DiskManager/Tests.antt =====
-- The disk manager on a file of one page and a half.
use cs_lab.Base.{ℕ, ◌+◌, ◌*◌, ◌≡◌, ◌≢◌, ◌<◌, ◌≤◌, refl, arith, some, [], ◌∷◌}
use cs_lab.Posix.{File, short}
use cs_lab.Page.Window.{SameFront}
use cs_lab.PageFile.Idle.{idle, page_at}
use cs_lab.DiskManager.{page_write, page_read, page_allocate}
use cs_lab.DiskManager.Demo
use cs_lab.DiskManager.Demo.{text}
use cs_lab.DiskManager.Restored.{main-restores}
use cs_lab.DiskManager.Pages.{page_read-page_write, page_allocate-fresh}
use cs_lab.DiskManager.Equivalence.{SameWrite, SameRead, before_seek, page_io-agrees}
use cs_lab.PageFile
use cs_lab.PageFile.{read_into}

abbrev torn : File
torn = idle (λ a. a) 6144 0

page_read-page_write_example :
    let (w, g) = page_write 1 (λ _. 5) torn in
    (w ≡ some 0)
    × (let (r, out, h) = page_read 1 (λ _. 0) g in (r ≡ some 0) × SameFront (λ _. 5) out)
    × ((j : ℕ)
        → j ≢ 1
        → j * 4096 + 4096 ≤ 6144
        → let (r, out, h) = page_read j (λ _. 0) g in
          (r ≡ some 0) × SameFront (page_at (λ a. a) j) out)
page_read-page_write_example = page_read-page_write torn 1 (λ _. 5) (λ _. 0) refl

page_allocate-fresh_example :
    let (id, g) = page_allocate torn in
    (id ≡ some 1)
    × (let (r, out, h) = page_read 1 (λ _. 7) g in (r ≡ some 0) × SameFront (λ _. 0) out)
    × ((j : ℕ)
        → j < 1
        → let (r, out, h) = page_read j (λ _. 7) g in
          (r ≡ some 0) × SameFront (page_at (λ a. a) j) out)
    × ((page_allocate g).0 ≡ some 2)
page_allocate-fresh_example = page_allocate-fresh torn (λ _. 7) refl (omega arith)

-- The transfer ends after 9 bytes.
abbrev slow : File
slow = record torn { script = short 9 ∷ [] }

page_io-agrees_example :
    SameWrite
      (page_write 1 (λ _. 5) slow)
      (PageFile.page_write (some 3) 1 (some (λ _. 5)) (before_seek slow))
    × SameRead (page_read 1 (λ _. 7) slow) (read_into (some 3) 1 (λ _. 7) (before_seek slow))
page_io-agrees_example = page_io-agrees slow 3 1 (λ _. 5) (λ _. 7)

main-restores_example :
    let (r, g) = Demo.main (some 3) torn in
    (r ≡ some (record { page_id = some 1; read = some text; closed = some 3 }))
    × (g.size ≡ 8192)
    × ((a : ℕ) → a < 4096 → g.bytes a ≡ a)
main-restores_example = main-restores torn 3 refl (omega arith)
