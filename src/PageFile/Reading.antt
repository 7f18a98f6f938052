-- ===== src/PageFile/Reading.antt =====
-- What a page holds that `page_read` takes as read, when calls fail or end early.
use cs_lab.Base.{
  ℕ, ◌+◌, ◌-◌, ◌*◌, ◌≤◌, ◌≡◌, inl, inr, ap, refl, arith, Option, none, some, List, [], ◌∷◌, ◌==◌,
  if◌then◌else◌, Bool-cases, ◌≢◌, ==→eq,
}
use Prim.Native.Nat.{min}
use cs_lab.Memory.{Mem, memcpy}
use cs_lab.Memory.Frame.{memcpy_in}
use cs_lab.Posix.{File, Outcome, complete, short, failed, lseek_set, read, pread}
use cs_lab.Page.Window.{SameFront}
use cs_lab.PageFile.{read_page, whole_page}
use cs_lab.PageFile.Idle.{page_at}
use cs_lab.PageFile.Content.{SameContent}

-- `q` is the page `k` of `f`, which holds it whole.
abbrev pub IsPage : File → ℕ → Mem → Type 0
IsPage f k q = (k * 4096 + 4096 ≤ f.size) × SameFront (page_at f.bytes k) q

-- A read that transfers 4096 bytes has found them in the file.
transferred :
    (k n : ℕ) (page : Mem) (f g : File)
    → SameContent f g
    → g.pos ≡ k * 4096
    → n ≤ g.size - g.pos
    → some n ≡ some 4096
    → IsPage f k (memcpy page 0 (λ i. g.bytes (g.pos + i)) n)
transferred k n page f g alike at le e =
    let all : n ≡ 4096 = cc in
    (
      omega (arith, alike.1),
      λ a h. ground (
        arith,
        memcpy_in page 0 (λ i. g.bytes (g.pos + i)) n a (omega arith),
        ap (λ m. m (g.pos + a)) alike.0,
      ),
    )

read_at-whole :
    (k : ℕ) (page : Mem) (f g : File)
    → SameContent f g
    → g.pos ≡ k * 4096
    → let (n, q, h) = read page 4096 g in n ≡ some 4096 → IsPage f k q
unfolding read pread
read_at-whole k page f g alike at = go g.script
  where
    go :
        (l : List Outcome)
        → let (n, q, h) = read page 4096 (record g { script = l }) in n ≡ some 4096 → IsPage f k q
    go [] = transferred k (min 4096 (g.size - g.pos)) page f g alike at (omega arith)
    go (complete ∷ l) = transferred k (min 4096 (g.size - g.pos)) page f g alike at (omega arith)
    go (short j ∷ l) =
        transferred k (min j (min 4096 (g.size - g.pos))) page f g alike at (omega arith)
    go (failed ∷ l) = λ e. absurd (cc)

checked :
    (f : File) (k : ℕ) (t : Option ℕ × Mem × File)
    → (t.0 ≡ some 4096 → IsPage f k t.1)
    → let (n, q, h) = t in
      let (r, q', h') =
        (if◌then◌else◌ {A = Option ℕ × Mem × File} (whole_page n) (some 0, q, h) (none, q, h)) in
      r ≢ none → IsPage f k q'
checked f k (none, q, h) whole = λ e. absurd (e refl)
checked f k (some n, q, h) whole = elim (Bool-cases (n == 4096)) [
  | inl e ↦ rw e (λ _. whole (ap some (==→eq n 4096 e)))
  | inr e ↦ rw e (λ e'. absurd (e' refl))
]

-- `page_read` takes a page as read only when it is whole, and the file's.
pub read_page-whole :
    (k : ℕ) (page : Mem) (f : File) → let (r, q, g) = read_page k page f in r ≢ none → IsPage f k q
unfolding read_page lseek_set
read_page-whole k page f = go f.script
  where
    at : List Outcome → File
    at l = record f { pos = k * 4096; script = l }

    go :
        (l : List Outcome)
        → let (r, q, g) = read_page k page (record f { script = l }) in r ≢ none → IsPage f k q
    go [] = checked f k (read page 4096 (at [])) (read_at-whole k page f (at []) (refl, refl) refl)
    go (complete ∷ l) =
        checked f k (read page 4096 (at l)) (read_at-whole k page f (at l) (refl, refl) refl)
    go (short n ∷ l) =
        checked f k (read page 4096 (at l)) (read_at-whole k page f (at l) (refl, refl) refl)
    go (failed ∷ l) = λ e. absurd (e refl)
