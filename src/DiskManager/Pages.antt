-- ===== src/DiskManager/Pages.antt =====
-- What the disk manager promises of its pages.
use cs_lab.Base.{
  ℕ, ◌+◌, ◌-◌, ◌*◌, ◌/◌, ◌%◌, ◌^◌, ◌≤◌, ◌<◌, ◌≡◌, ◌≢◌, ◌∙◌, ◌⊎◌, inl, arith, refl, ap, none, some,
  [], if◌then◌else◌, lt→ltb, ltb, leb, ◌&&◌,
}
use Prim.Native.Nat.{min, max}
use cs_lab.Memory.{Mem}
use cs_lab.Memory.Frame.{memcpy_out}
use cs_lab.Posix.{File, pread, pwrite, lseek_end}
use cs_lab.Page.Window.{SameFront}
use cs_lab.PageFile.{to_int}
use cs_lab.PageFile.Idle.{
  idle, idle_lem, page_at, written, written_in, memcpy-SameFront, pages_apart,
}
use cs_lab.DiskManager.{page_write, page_read, page_allocate, allocate_at, write_empty}

pub written_inside :
    (b : Mem) (s offset : ℕ) (page : Mem) (a : ℕ)
    → a < s
    → (a < offset) ⊎ (offset + 4096 ≤ a)
    → written b s offset page a ≡ b a
unfolding written
written_inside b s offset page a l h =
    memcpy_out (λ x. if leb s x && ltb x offset then 0 else b x) offset page 4096 a h ∙ ground arith

-- A page of the file can be read back.
pub page_read-page_at :
    (f : File) (k : ℕ) (buffer : Mem)
    → f.script ≡ []
    → k * 4096 + 4096 ≤ f.size
    → let (r, out, g) = page_read k buffer f in
      (r ≡ some 0) × SameFront (page_at f.bytes k) out × (g ≡ f)
unfolding page_read pread
page_read-page_at f k buffer quiet inside =
    let all : min 4096 (f.size - k * 4096) ≡ 4096 = omega arith in
    rw (idle_lem f quiet) (rw all (refl, memcpy-SameFront f.bytes k buffer, refl))

-- With no failing call `page_read` of the disk manager returns -1 for a page that does not lie
-- whole in the file.
pub page_read-beyond :
    (f : File) (k : ℕ) (buffer : Mem)
    → f.script ≡ []
    → f.size < k * 4096 + 4096
    → (page_read k buffer f).0 ≡ none
unfolding page_read pread
page_read-beyond f k buffer quiet out = rw (idle_lem f quiet) (ground arith)

pub page_write-written :
    (b : Mem) (s pos k : ℕ) (page : Mem)
    → page_write k page (idle b s pos)
      ≡ (some 0, idle (written b s (k * 4096) page) (max s (k * 4096 + 4096)) pos)
unfolding page_write pwrite written
page_write-written b s pos k page = refl

pub page_allocate-written :
    (b : Mem) (s pos : ℕ)
    → s / 4096 < 2 ^ 31
    → page_allocate (idle b s pos) ≡ (
      some (s / 4096),
      idle (written b s (s / 4096 * 4096) (λ _. 0)) (max s (s / 4096 * 4096 + 4096)) s,
    )
unfolding page_allocate lseek_end allocate_at write_empty pwrite written
page_allocate-written b s pos small =
    let id : to_int (s / 4096 % 2 ^ 32) ≡ some (s / 4096) =
      let same : s / 4096 % 2 ^ 32 ≡ s / 4096 = omega arith in
      rw (same, lt→ltb (s / 4096) (2 ^ 31) small) in
    rw id

-- With no failing call `page_write` of the disk manager succeeds, `page_read` of that page returns
-- what was written, and `page_read` of every other whole page returns what the file held.
pub page_read-page_write :
    (f : File) (k : ℕ) (page buffer : Mem)
    → f.script ≡ []
    → let (w, g) = page_write k page f in
      (w ≡ some 0)
      × (let (r, out, h) = page_read k buffer g in (r ≡ some 0) × SameFront page out)
      × ((j : ℕ)
          → j ≢ k
          → j * 4096 + 4096 ≤ f.size
          → let (r, out, h) = page_read j buffer g in
            (r ≡ some 0) × SameFront (page_at f.bytes j) out)
page_read-page_write f k page buffer quiet =
    rw (idle_lem f quiet, page_write-written f.bytes f.size f.pos k page)
      (let g = idle (written f.bytes f.size (k * 4096) page) (max f.size (k * 4096 + 4096)) f.pos in
        (
          refl,
          (let back = page_read-page_at g k buffer refl (omega arith) in
              (back.0, λ a h. back.1 a h ∙ written_in f.bytes f.size (k * 4096) page a h)),
          λ j ne inside.
              let back = page_read-page_at g j buffer refl (omega arith) in
              (
                back.0,
                λ a h.
                    back.1 a h
                    ∙ written_inside f.bytes f.size (k * 4096) page (j * 4096 + a) (omega arith)
                        (pages_apart j k a h ne),
              ),
        ))

-- With no failing call and fewer than 2^31 - 1 whole pages, `page_allocate` of the disk manager
-- returns the number of whole pages; that page then reads as zeros, the earlier pages read as
-- before, and the next call returns the next id.
pub page_allocate-fresh :
    (f : File) (buffer : Mem)
    → f.script ≡ []
    → f.size / 4096 < 2 ^ 31 - 1
    → let (id, g) = page_allocate f in
      (id ≡ some (f.size / 4096))
      × (let (r, out, h) = page_read (f.size / 4096) buffer g in
          (r ≡ some 0) × SameFront (λ _. 0) out)
      × ((j : ℕ)
          → j < f.size / 4096
          → let (r, out, h) = page_read j buffer g in
            (r ≡ some 0) × SameFront (page_at f.bytes j) out)
      × ((page_allocate g).0 ≡ some (f.size / 4096 + 1))
page_allocate-fresh f buffer quiet small =
    rw (idle_lem f quiet, page_allocate-written f.bytes f.size f.pos (omega arith))
      (let k = f.size / 4096 in
        let g =
          idle (written f.bytes f.size (k * 4096) (λ _. 0)) (max f.size (k * 4096 + 4096)) f.size in
        let next : max f.size (k * 4096 + 4096) / 4096 ≡ k + 1 = omega arith in
        (
          refl,
          (let back = page_read-page_at g k buffer refl (omega arith) in
              (back.0, λ a h. back.1 a h ∙ written_in f.bytes f.size (k * 4096) (λ _. 0) a h)),
          (λ j l.
              let back = page_read-page_at g j buffer refl (omega arith) in
              (
                back.0,
                λ a h.
                    back.1 a h
                    ∙ written_inside f.bytes f.size (k * 4096) (λ _. 0) (j * 4096 + a) (omega arith)
                        (inl (omega arith)),
              )),
          ap (λ o. o.0)
                (page_allocate-written (written f.bytes f.size (k * 4096) (λ _. 0))
                  (max f.size (k * 4096 + 4096)) f.size (omega arith))
              ∙ ap some next,
        ))
