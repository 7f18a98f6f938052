-- ===== src/FileIo/Pages.antt =====
-- What the page I/O of file_io.c keeps and what its `main` prints.
use cs_lab.Base.{zero, suc, ℕ, ◌+◌, ◌-◌, ◌*◌, ◌≤◌, ◌<◌, ◌≡◌, ◌∙◌, arith, refl, ap, some, []}
use Prim.Native.Nat.{min, max}
use cs_lab.Memory.{Mem, memcpy, memset}
use cs_lab.Memory.Frame.{memcpy_out}
use cs_lab.Posix.{File, lseek_set, read, write, fsync, pread}
use cs_lab.Page.Window.{SameFront}
use cs_lab.PageFile.Idle.{idle, idle_lem, page_at, written, written_in, memcpy-SameFront}
use cs_lab.FileIo.{
  page_write, write_at, write_checked, page_read, read_at, c_string, hello, string_page, print_page,
  reopen, main,
}

page_write-written :
    (b : Mem) (s pos k : ℕ) (page : Mem)
    → page_write k page (idle b s pos)
      ≡ (some 0, idle (written b s (k * 4096) page) (max s (k * 4096 + 4096)) (k * 4096 + 4096))
unfolding page_write lseek_set write_at write write_checked fsync written
page_write-written b s pos k page = refl

-- With no failing call `page_write` of file_io.c succeeds and `page_read` of the same page then
-- returns 4096 and the bytes that were written, also behind the old end of the file.
pub page_read-page_write_synced :
    (f : File) (k : ℕ) (page buffer : Mem)
    → f.script ≡ []
    → let (w, g) = page_write k page f in
      (w ≡ some 0)
      × (let (r, out, h) = page_read k buffer g in (r ≡ some 4096) × SameFront page out)
unfolding page_read lseek_set read_at read
page_read-page_write_synced f k page buffer quiet =
    rw (idle_lem f quiet, page_write-written f.bytes f.size f.pos k page)
      (let all : min 4096 (max f.size (k * 4096 + 4096) - k * 4096) ≡ 4096 = omega arith in
        (
          refl,
          rw all (
            refl,
            λ a h.
                memcpy-SameFront (written f.bytes f.size (k * 4096) page) k buffer a h
                ∙ written_in f.bytes f.size (k * 4096) page a h,
          ),
        ))

-- With no failing call `page_read` of file_io.c at or behind the end of the file is no error: it
-- returns 0 and leaves the buffer alone.
pub page_read-past_end :
    (f : File) (k : ℕ) (buffer : Mem)
    → f.script ≡ []
    → f.size ≤ k * 4096
    → let (r, out, g) = page_read k buffer f in (r ≡ some 0) × ((a : ℕ) → out a ≡ buffer a)
unfolding page_read lseek_set read_at read pread
page_read-past_end f k buffer quiet out = rw (idle_lem f quiet) (
    let empty : min 4096 (f.size - k * 4096) ≡ 0 = omega arith in
    rw empty (refl, λ a. memcpy_out buffer 0 (λ i. f.bytes (k * 4096 + i)) 0 a (omega arith)))

-- A C string depends on the bytes before its bound.
pub c_string_cong :
    (n a : ℕ) (p q : Mem) → ((b : ℕ) → b < a + n → q b ≡ p b) → c_string n a q ≡ c_string n a p
unfolding c_string
c_string_cong zero a p q same = refl
c_string_cong (suc n) a p q same =
    ground (arith, same a (omega arith), c_string_cong n (a + 1) p q (λ b h. same b (omega arith)))

page_read-idle :
    (b : Mem) (s pos k : ℕ) (buffer : Mem)
    → k * 4096 + 4096 ≤ s
    → page_read k buffer (idle b s pos)
      ≡ (some 4096, memcpy buffer 0 (page_at b k) 4096, idle b s (k * 4096 + 4096))
unfolding page_read lseek_set read_at read
page_read-idle b s pos k buffer inside =
    let all : min 4096 (s - k * 4096) ≡ 4096 = omega arith in rw all

hello_page : c_string 4096 0 (string_page hello) ≡ hello
unfolding c_string string_page memset memcpy
hello_page = refl

-- With no failing call `main` of file_io.c prints "Hello DB", whatever the file held.
pub main-prints : (f : File) → f.script ≡ [] → main f ≡ some hello
unfolding main reopen print_page
main-prints f quiet =
    let b = written f.bytes f.size 8192 (string_page hello) in
    let s = max f.size 12288 in
    let zeroed = memset (λ _. 0) 0 4096 in
    rw
      (
        idle_lem f quiet,
        page_write-written f.bytes f.size f.pos 2 (string_page hello),
        page_read-idle b s 0 2 zeroed (omega arith),
      )
      (ap some (
        c_string_cong 4096 0 (string_page hello) (memcpy zeroed 0 (page_at b 2) 4096) (λ a h.
          memcpy-SameFront b 2 zeroed a (omega arith)
          ∙ written_in f.bytes f.size 8192 (string_page hello) a (omega arith))
        ∙ hello_page))
