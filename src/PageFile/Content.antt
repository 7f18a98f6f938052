-- ===== src/PageFile/Content.antt =====
-- What reads and seeks leave of a file: its bytes and its size, whatever calls fail.
use cs_lab.Base.{ℕ, ◌*◌, ◌≡◌, ◌∙◌, arith, refl, Option, none, some, [], ◌∷◌, List}
use cs_lab.Memory.{Mem}
use cs_lab.Posix.{File, Outcome, complete, short, failed, lseek_set, lseek_end, read}
use cs_lab.PageFile.{read_page, read_into}

-- `f` and `g` hold the same bytes.
abbrev pub SameContent : File → File → Type 0
SameContent f g = (g.bytes ≡ f.bytes) × (g.size ≡ f.size)

pub lseek_end-SameContent : (f : File) → SameContent f (lseek_end f).1
unfolding lseek_end
lseek_end-SameContent f = go f.script
  where
    go : (l : List Outcome) → SameContent f (lseek_end (record f { script = l })).1
    go [] = (refl, refl)
    go (complete ∷ l) = (refl, refl)
    go (short k ∷ l) = (refl, refl)
    go (failed ∷ l) = (refl, refl)

pub lseek_set-SameContent : (offset : ℕ) (f : File) → SameContent f (lseek_set offset f).1
unfolding lseek_set
lseek_set-SameContent offset f = go f.script
  where
    go : (l : List Outcome) → SameContent f (lseek_set offset (record f { script = l })).1
    go [] = (refl, refl)
    go (complete ∷ l) = (refl, refl)
    go (short k ∷ l) = (refl, refl)
    go (failed ∷ l) = (refl, refl)

pub read-SameContent : (buffer : Mem) (n : ℕ) (f : File) → SameContent f (read buffer n f).2
unfolding read
read-SameContent buffer n f = go f.script
  where
    go : (l : List Outcome) → SameContent f (read buffer n (record f { script = l })).2
    go [] = (refl, refl)
    go (complete ∷ l) = (refl, refl)
    go (short k ∷ l) = (refl, refl)
    go (failed ∷ l) = (refl, refl)

pub read_page-SameContent : (k : ℕ) (page : Mem) (f : File) → SameContent f (read_page k page f).2
unfolding read_page
read_page-SameContent k page f = ground (
  arith,
  lseek_set-SameContent (k * 4096) f,
  read-SameContent page 4096 (lseek_set (k * 4096) f).1,
)

pub SameContent-trans : (f g h : File) → SameContent f g → SameContent g h → SameContent f h
SameContent-trans f g h a b = (b.0 ∙ a.0, b.1 ∙ a.1)

pub read_into-SameContent :
    (fd : Option ℕ) (k : ℕ) (page : Mem) (f : File) → SameContent f (read_into fd k page f).2
unfolding read_into
read_into-SameContent none k page f = (refl, refl)
read_into-SameContent (some fd) k page f = read_page-SameContent k page f
