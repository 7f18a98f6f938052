-- ===== src/DiskManager/Equivalence.antt =====
-- The page I/O of the disk manager, with `pread` and `pwrite`, and that of the heap file, with a seek
-- first, are the same, also where a transfer fails or ends early.
use cs_lab.Base.{
  ℕ, ◌*◌, ◌≡◌, refl, Option, none, some, List, [], ◌∷◌, ◌==◌, Bool, true, false, if◌then◌else◌, ◌-◌,
  ◌+◌,
}
use Prim.Native.Nat.{min}
use cs_lab.Memory.{Mem, memcpy}
use cs_lab.Posix.{File, Outcome, complete, short, failed, lseek_set, read, write, pread, pwrite}
use cs_lab.PageFile
use cs_lab.PageFile.{read_page, write_page, read_into, whole_page}
use cs_lab.DiskManager.{page_write, page_read}

-- The same bytes, size and calls to come; the offset may differ.
abbrev pub SameFile : File → File → Type 0
SameFile g h = (h.bytes ≡ g.bytes) × (h.size ≡ g.size) × (h.script ≡ g.script)

abbrev pub SameWrite : Option ℕ × File → Option ℕ × File → Type 0
SameWrite (r, g) (s, h) = (s ≡ r) × SameFile g h

abbrev pub SameRead : Option ℕ × Mem × File → Option ℕ × Mem × File → Type 0
SameRead (r, p, g) (s, q, h) = (s ≡ r) × (q ≡ p) × SameFile g h

-- `f` with a call more that succeeds, the seek, before those to come.
abbrev pub before_seek : File → File
before_seek f = record f { script = complete ∷ f.script }

tested_write :
    (b : Bool) (g h : File)
    → SameFile g h
    → SameWrite (if b then (some 0, g) else (none, g)) (if b then (some 0, h) else (none, h))
tested_write true g h same = (refl, same)
tested_write false g h same = (refl, same)

tested_read :
    (b : Bool) (p : Mem) (g h : File)
    → SameFile g h
    → SameRead
        (if b then (some 0, p, g) else (none, p, g))
        (if b then (some 0, p, h) else (none, p, h))
tested_read true p g h same = (refl, refl, same)
tested_read false p g h same = (refl, refl, same)

write_page-SameWrite :
    (f : File) (k : ℕ) (page : Mem)
    → SameWrite (page_write k page f) (write_page k page (before_seek f))
unfolding page_write write_page lseek_set write pwrite
write_page-SameWrite f k page = go f.script
  where
    go :
        (l : List Outcome)
        → let f' = record f { script = l } in
          SameWrite (page_write k page f') (write_page k page (before_seek f'))
    go [] = (refl, (refl, refl, refl))
    go (complete ∷ l) = (refl, (refl, refl, refl))
    go (short n ∷ l) =
        let f' = record f { script = short n ∷ l } in
        tested_write (min n 4096 == 4096) (pwrite page 4096 (k * 4096) f').1
          (write page 4096 (lseek_set (k * 4096) (before_seek f')).1).1 (refl, refl, refl)
    go (failed ∷ l) = (refl, (refl, refl, refl))

read_page-SameRead :
    (f : File) (k : ℕ) (buffer : Mem)
    → SameRead (page_read k buffer f) (read_page k buffer (before_seek f))
unfolding page_read read_page lseek_set read pread
read_page-SameRead f k buffer = go f.script
  where
    -- Both have read `n` bytes, with the calls `l` to come.
    moved :
        (n : ℕ) (l : List Outcome)
        → let p = memcpy buffer 0 (λ i. f.bytes (k * 4096 + i)) n in
          let g = record f { script = l } in
          let h = record f { pos = k * 4096 + n; script = l } in
          SameRead
            (if n == 4096 then (some 0, p, g) else (none, p, g))
            (if n == 4096 then (some 0, p, h) else (none, p, h))
    moved n l =
        tested_read (n == 4096) (memcpy buffer 0 (λ i. f.bytes (k * 4096 + i)) n)
          (record f { script = l }) (record f { pos = k * 4096 + n; script = l }) (refl, refl, refl)

    go :
        (l : List Outcome)
        → let f' = record f { script = l } in
          SameRead (page_read k buffer f') (read_page k buffer (before_seek f'))
    go [] = moved (min 4096 (f.size - k * 4096)) []
    go (complete ∷ l) = moved (min 4096 (f.size - k * 4096)) l
    go (short n ∷ l) = moved (min n (min 4096 (f.size - k * 4096))) l
    go (failed ∷ l) = (refl, refl, (refl, refl, refl))

-- `page_write` and `page_read` of the disk manager and of the heap file return the same results and
-- leave the same file and buffer, also where the transfer fails or ends early, if the seek that the
-- heap file makes first succeeds.
pub page_io-agrees :
    (f : File) (fd k : ℕ) (page buffer : Mem)
    → SameWrite (page_write k page f) (PageFile.page_write (some fd) k (some page) (before_seek f))
      × SameRead (page_read k buffer f) (read_into (some fd) k buffer (before_seek f))
unfolding PageFile.page_write read_into
page_io-agrees f fd k page buffer = (write_page-SameWrite f k page, read_page-SameRead f k buffer)
