-- ===== src/PageFile/Idle.antt =====
-- Page I/O on a file whose calls all succeed.
use cs_lab.Base.{
  ℕ, ◌+◌, ◌*◌, ◌/◌, ◌-◌, ◌%◌, ◌^◌, ◌≤◌, ◌<◌, ◌≡◌, ◌∙◌, ◌⊎◌, arith, ltb, leb, refl, some, [],
  if◌then◌else◌, ◌&&◌, ◌≢◌, inl, inr,
}
use Prim.Native.Nat.{min, max}
use native.Mathlib.Decide.{dec_lt}
use cs_lab.Memory.{Mem, memcpy}
use cs_lab.Memory.Frame.{memcpy_in, memcpy_out}
use cs_lab.Posix.{File, read, write, lseek_set, lseek_end}
use cs_lab.Page.{init_page}
use cs_lab.Page.Window.{SameFront}
use cs_lab.PageFile.{read_page, write_page, page_allocate, to_int}

abbrev pub idle : Mem → ℕ → ℕ → File
idle b s pos = record { bytes = b; size = s; pos = pos; script = [] }

pub idle_lem : (f : File) → f.script ≡ [] → f ≡ idle f.bytes f.size f.pos
idle_lem f e = λ i. record { bytes = f.bytes; size = f.size; pos = f.pos; script = e i }

-- The page `k` of a file.
abbrev pub page_at : Mem → ℕ → Mem
page_at b k a = b (k * 4096 + a)

-- Two pages of a file do not overlap.
pub pages_apart :
    (j k a : ℕ) → a < 4096 → j ≢ k → (j * 4096 + a < k * 4096) ⊎ (k * 4096 + 4096 ≤ j * 4096 + a)
pages_apart j k a h ne = elim (dec_lt j k) [ yes l ↦ inl (omega arith) | no g ↦ inr (omega arith) ]

-- The bytes after a page is written at `offset` of a file of `s` bytes.
unfoldable pub written : Mem → ℕ → ℕ → Mem → Mem
written b s offset page = memcpy (λ a. if leb s a && ltb a offset then 0 else b a) offset page 4096

pub written_in :
    (b : Mem) (s offset : ℕ) (page : Mem) (a : ℕ)
    → a < 4096
    → written b s offset page (offset + a) ≡ page a
unfolding written
written_in b s offset page a h =
    memcpy_in (λ a. if leb s a && ltb a offset then 0 else b a) offset page 4096 a h

pub written_out :
    (b : Mem) (s offset : ℕ) (page : Mem) (a : ℕ)
    → offset ≤ s
    → (a < offset) ⊎ (offset + 4096 ≤ a)
    → written b s offset page a ≡ b a
unfolding written
written_out b s offset page a le h =
    memcpy_out (λ a. if leb s a && ltb a offset then 0 else b a) offset page 4096 a h ∙ ground arith

module _ (b : Mem) (s pos : ℕ) where
  pub read_page-idle :
      (k : ℕ) (page : Mem)
      → k * 4096 + 4096 ≤ s
      → read_page k page (idle b s pos)
        ≡ (some 0, memcpy page 0 (page_at b k) 4096, idle b s (k * 4096 + 4096))
  unfolding read_page lseek_set read
  read_page-idle k page h = let all : min 4096 (s - k * 4096) ≡ 4096 = omega arith in rw all

  pub write_page-idle :
      (k : ℕ) (page : Mem)
      → write_page k page (idle b s pos)
        ≡ (some 0, idle (written b s (k * 4096) page) (max s (k * 4096 + 4096)) (k * 4096 + 4096))
  unfolding write_page lseek_set write written
  write_page-idle k page = refl

  pub page_allocate-idle :
      (fd : ℕ) (stack : Mem)
      → page_allocate (some fd) stack (idle b s pos) ≡ (
        to_int (s / 4096 % 2 ^ 32),
        idle (written b s s (init_page stack)) (max s (s + 4096)) (s + 4096),
      )
  unfolding page_allocate lseek_end write written
  page_allocate-idle fd stack = refl

pub memcpy-SameFront :
    (b : Mem) (k : ℕ) (page : Mem) → SameFront (page_at b k) (memcpy page 0 (page_at b k) 4096)
memcpy-SameFront b k page a h = ground (arith, memcpy_in page 0 (page_at b k) 4096 a h)
