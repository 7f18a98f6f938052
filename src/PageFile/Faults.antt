-- ===== src/PageFile/Faults.antt =====
-- What the page I/O changes when calls fail or end early.
use cs_lab.Base.{
  ℕ, ◌+◌, ◌*◌, ◌/◌, ◌%◌, ◌^◌, ◌≤◌, ◌<◌, ◌≡◌, ◌∙◌, ◌⊎◌, inl, ap, refl, arith, Bool, true, false,
  Option, none, some, List, [], ◌∷◌, ◌&&◌, leb, ltb, if◌then◌else◌,
}
use Prim.Native.Nat.{min}
use cs_lab.Memory.{Mem, memcpy}
use cs_lab.Memory.Frame.{memcpy_out}
use cs_lab.Posix.{File, Outcome, complete, short, failed, lseek_set, lseek_end, write, pwrite}
use cs_lab.Page.{init_page}
use cs_lab.PageFile.{write_page, page_write, page_allocate, to_int, whole_page}
use cs_lab.PageFile.Content.{SameContent}

-- `g` is `f` with bytes changed in the range only, or behind the end of `f`.
pub record Changes (f g : File) (from len : ℕ) : Type 0 where
  pub grows : f.size ≤ g.size
  pub same : (a : ℕ) → a < f.size → (a < from) ⊎ (from + len ≤ a) → g.bytes a ≡ f.bytes a

pub Changes-refl :
    (f g : File) (from len : ℕ) → g.bytes ≡ f.bytes → g.size ≡ f.size → Changes f g from len
Changes-refl f g from len b s = record { grows = omega arith; same = λ a l h. ap (λ m. m a) b }

-- A change behind the end of the file may come first.
pub Changes-behind :
    (f g h : File) (n from len : ℕ)
    → Changes f g f.size n
    → Changes g h from len
    → Changes f h from len
Changes-behind f g h n from len first second = record {
  grows = omega (arith, first.grows, second.grows);
  same = λ a l p. second.same a (omega (arith, first.grows)) p ∙ first.same a l (inl l);
}

pub Changes-after :
    (f g h : File) (from len : ℕ)
    → g.bytes ≡ f.bytes
    → g.size ≡ f.size
    → Changes g h from len
    → Changes f h from len
Changes-after f g h from len b s c = record {
  grows = omega (arith, c.grows);
  same = λ a l p. c.same a (omega arith) p ∙ ap (λ m. m a) b;
}

copied :
    (f : File) (page : Mem) (offset k n a : ℕ)
    → k ≤ n
    → a < f.size
    → (a < offset) ⊎ (offset + n ≤ a)
    → memcpy (λ b. if leb f.size b && ltb b offset then 0 else f.bytes b) offset page k a
      ≡ f.bytes a
copied f page offset k n a le l h =
    memcpy_out (λ b. if leb f.size b && ltb b offset then 0 else f.bytes b) offset page k a
      (omega arith)
    ∙ ground arith

write-Changes : (page : Mem) (n : ℕ) (f : File) → Changes f (write page n f).1 f.pos n
unfolding write pwrite
write-Changes page n f = go f.script
  where
    go : (l : List Outcome) → Changes f (write page n (record f { script = l })).1 f.pos n
    go [] = record {
      grows = ground arith;
      same = λ a l h. copied f page f.pos n n a (omega arith) l h;
    }
    go (complete ∷ r) = record {
      grows = ground arith;
      same = λ a l h. copied f page f.pos n n a (omega arith) l h;
    }
    go (short k ∷ r) = record {
      grows = ground arith;
      same = λ a l h. copied f page f.pos (min k n) n a (omega arith) l h;
    }
    go (failed ∷ r) = record { grows = omega arith; same = λ a l h. refl }

-- The test of the number of bytes does not change the file.
tested :
    {A : Type 0} (b : Bool) (r s : A) (h : File)
    → (if◌then◌else◌ {A = A × File} b (r, h) (s, h)).1 ≡ h
tested true r s h = refl
tested false r s h = refl

write_at-Changes :
    (f g : File) (k : ℕ) (page : Mem)
    → SameContent f g
    → g.pos ≡ k * 4096
    → let (n, h) = write page 4096 g in
      Changes f
        (if◌then◌else◌ {A = Option ℕ × File} (whole_page n) (some 0, h) (none, h)).1
        (k * 4096)
        4096
write_at-Changes f g k page alike at =
    let (n, h) = write page 4096 g in
    rw (tested {A = Option ℕ} (whole_page n) (some 0) none h)
      (Changes-after f g h (k * 4096) 4096 alike.0 alike.1 (rw (← at) (write-Changes page 4096 g)))

pub write_page-Changes :
    (k : ℕ) (page : Mem) (f : File) → Changes f (write_page k page f).1 (k * 4096) 4096
unfolding write_page lseek_set
write_page-Changes k page f = go f.script
  where
    at : List Outcome → File
    at l = record f { pos = k * 4096; script = l }

    go :
        (l : List Outcome)
        → Changes f (write_page k page (record f { script = l })).1 (k * 4096) 4096
    go [] = write_at-Changes f (at []) k page (refl, refl) refl
    go (complete ∷ l) = write_at-Changes f (at l) k page (refl, refl) refl
    go (short n ∷ l) = write_at-Changes f (at l) k page (refl, refl) refl
    go (failed ∷ l) = Changes-refl f (record f { script = l }) (k * 4096) 4096 refl refl

pub page_write-Changes :
    (fd : Option ℕ) (k : ℕ) (page : Mem) (f : File)
    → Changes f (page_write fd k (some page) f).1 (k * 4096) 4096
unfolding page_write
page_write-Changes none k page f = Changes-refl f f (k * 4096) 4096 refl refl
page_write-Changes (some fd) k page f = write_page-Changes k page f

allocated :
    (f g : File) (stack : Mem) (size : ℕ)
    → SameContent f g
    → g.pos ≡ f.size
    → let (n, h) = write (init_page stack) 4096 g in
      Changes f
        (if◌then◌else◌ {A = Option ℕ × File} (whole_page n) (to_int size, h) (none, h)).1
        f.size
        4096
allocated f g stack size alike at =
    let (n, h) = write (init_page stack) 4096 g in
    rw (tested {A = Option ℕ} (whole_page n) (to_int size) none h) (
      Changes-after f g h f.size 4096 alike.0 alike.1
        (rw (← at) (write-Changes (init_page stack) 4096 g)))

pub page_allocate-Changes :
    (fd : Option ℕ) (stack : Mem) (f : File) → Changes f (page_allocate fd stack f).1 f.size 4096
unfolding page_allocate lseek_end
page_allocate-Changes none stack f = Changes-refl f f f.size 4096 refl refl
page_allocate-Changes (some fd) stack f = go f.script
  where
    at : List Outcome → File
    at l = record f { pos = f.size; script = l }

    go :
        (l : List Outcome)
        → Changes f (page_allocate (some fd) stack (record f { script = l })).1 f.size 4096
    go [] = allocated f (at []) stack (f.size / 4096 % 2 ^ 32) (refl, refl) refl
    go (complete ∷ l) = allocated f (at l) stack (f.size / 4096 % 2 ^ 32) (refl, refl) refl
    go (short n ∷ l) = allocated f (at l) stack (f.size / 4096 % 2 ^ 32) (refl, refl) refl
    go (failed ∷ l) = Changes-refl f (record f { script = l }) f.size 4096 refl refl
