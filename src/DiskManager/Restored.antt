-- ===== src/DiskManager/Restored.antt =====
-- What the program of mini-db/02-disk-manager/main.c prints and leaves.
use cs_lab.Base.{ℕ, ◌+◌, ◌*◌, ◌/◌, ◌^◌, ◌≤◌, ◌<◌, ◌≡◌, ◌∙◌, arith, refl, ap, some, [], inl, ◌-◌}
use Prim.Native.Nat.{max, min}
use cs_lab.Memory.{Mem, memset, memcpy}
use cs_lab.Posix.{File, pread}
use cs_lab.PageFile.Idle.{idle, idle_lem, page_at, written, written_in, memcpy-SameFront}
use cs_lab.FileIo.{c_string, string_page}
use cs_lab.FileIo.Pages.{c_string_cong}
use cs_lab.DiskManager.{page_read, db_open, db_close}
use cs_lab.DiskManager.Demo.{text, main, write_text, read_back, report_read}
use cs_lab.DiskManager.Pages.{page_write-written, page_allocate-written, written_inside}

text_page : c_string 4096 0 (string_page text) ≡ text
unfolding c_string string_page memset memcpy
text_page = refl

-- What `page_read` of a page of a quiet file does.
page_read-idle :
    (b : Mem) (s pos k : ℕ) (buffer : Mem)
    → k * 4096 + 4096 ≤ s
    → page_read k buffer (idle b s pos) ≡ (some 0, memcpy buffer 0 (page_at b k) 4096, idle b s pos)
unfolding page_read pread
page_read-idle b s pos k buffer inside =
    let all : min 4096 (s - k * 4096) ≡ 4096 = omega arith in rw all

-- With no failing call and fewer than 2^31 whole pages in the file, `main` of the disk manager
-- prints the number of whole pages as the new page id and "My first allocated page" as what it has
-- read, closes the file, and leaves it with that page at its end and the earlier pages as they
-- were.
pub main-restores :
    (f : File) (fd : ℕ)
    → f.script ≡ []
    → f.size / 4096 < 2 ^ 31
    → let (r, g) = main (some fd) f in
      (r ≡ some (record { page_id = some (f.size / 4096); read = some text; closed = some fd }))
      × (g.size ≡ max f.size (f.size / 4096 * 4096 + 4096))
      × ((a : ℕ) → a < f.size / 4096 * 4096 → g.bytes a ≡ f.bytes a)
unfolding main write_text read_back report_read db_open db_close
main-restores f fd quiet small =
    let k = f.size / 4096 in
    let page = string_page text in
    let b = written f.bytes f.size (k * 4096) (λ _. 0) in
    let s = max f.size (k * 4096 + 4096) in
    let b' = written b s (k * 4096) page in
    let s' = max s (k * 4096 + 4096) in
    let zeroed = memset (λ _. 0) 0 4096 in
    rw
      (
        idle_lem f quiet,
        page_allocate-written f.bytes f.size f.pos small,
        page_write-written b s f.size k page,
        page_read-idle b' s' f.size k zeroed (omega arith),
      )
      (
        ap (λ t. some (record { page_id = some k; read = some t; closed = some fd }))
            (c_string_cong 4096 0 page (memcpy zeroed 0 (page_at b' k) 4096) (λ a h.
                memcpy-SameFront b' k zeroed a (omega arith)
                ∙ written_in b s (k * 4096) page a (omega arith))
              ∙ text_page),
        omega arith,
        λ a l.
            written_inside b s (k * 4096) page a (omega arith) (inl l)
            ∙ written_inside f.bytes f.size (k * 4096) (λ _. 0) a (omega arith) (inl l),
      )
