-- ===== src/Heap/Faults.antt =====
-- The heap file's operations when calls fail or end early: how far the damage reaches, and what
-- `heap_get` still promises.
use cs_lab.Base.{
  ℕ, zero, suc, ◌+◌, ◌*◌, ◌%◌, ◌^◌, sym, refl, Option, none, some, ltb, Bool-cases, inl, inr,
}
use cs_lab.Memory.{Mem}
use cs_lab.Posix.{File}
use cs_lab.Page.{insert_checked, init_page}
use cs_lab.PageFile.{read_into, page_write, page_allocate}
use cs_lab.PageFile.Content.{SameContent, SameContent-trans, read_into-SameContent}
use cs_lab.PageFile.Faults.{
  Changes, Changes-refl, Changes-behind, Changes-after, page_write-Changes, page_allocate-Changes,
}
use cs_lab.Heap.{
  Tried, inserted, error, exhausted, Rid, rid, HeapFile, heap_page_count, page_count_of, stored_in,
  insert_or_next, scan_read, try_pages, appended, fill_new, append_page, after_scan, insert_into,
  insert_counted, max_record_size,
}
use cs_lab.Heap.Errors.{page_count_of-SameContent}

-- At most one page of `f` differs in `g`.
abbrev pub IsConfined : File → File → Type 0
IsConfined f g = (k : ℕ) × Changes f g (k * 4096) 4096

pub SameContent-IsConfined : (f g : File) → SameContent f g → IsConfined f g
SameContent-IsConfined f g same = (0, Changes-refl f g 0 4096 same.0 same.1)

Changes-resized :
    (f g h : File) → SameContent f g → Changes g h g.size 4096 → Changes f h f.size 4096
Changes-resized f g h same c = Changes-after f g h f.size 4096 same.0 same.1 (rw (sym same.1) c)

-- A scan that has not failed yet has changed nothing.
abbrev Scanned : File → Tried × Mem × File → Type 0
Scanned f (exhausted, page, g) = SameContent f g
Scanned f (error, page, g) = IsConfined f g
Scanned f (inserted r, page, g) = IsConfined f g

module _ (fd : Option ℕ) (source : Mem) (len : ℕ) where
  stored_in-Scanned :
      (f : File) (new : Rid) (r : Mem) (t : Option ℕ × File)
      → IsConfined f t.1
      → Scanned f (stored_in new r t)
  unfolding stored_in
  stored_in-Scanned f new r (none, h) c = c
  stored_in-Scanned f new r (some x, h) c = c

  -- A round, for a rest of the scan that keeps to one page.
  module _ (f : File) (k : ℕ) (next : Mem → File → Tried × Mem × File)
      (rest : (page : Mem) (h : File) → SameContent f h → Scanned f (next page h)) where
    insert_or_next-Scanned :
        (h : File) (t : Option ℕ × Mem)
        → SameContent f h
        → Scanned f (insert_or_next fd source len k next h t)
    unfolding insert_or_next
    insert_or_next-Scanned h (none, r) same = rest r h same
    insert_or_next-Scanned h (some s, r) same =
        let out = page_write fd k (some r) h in
        stored_in-Scanned f (rid k (s % 2 ^ 16)) r out
          (k, Changes-after f h out.1 (k * 4096) 4096 same.0 same.1 (page_write-Changes fd k r h))

    scan_read-Scanned :
        (t : Option ℕ × Mem × File)
        → SameContent f t.2
        → Scanned f (scan_read fd source len k next t)
    unfolding scan_read
    scan_read-Scanned (none, q, g) same = SameContent-IsConfined f g same
    scan_read-Scanned (some x, q, g) same =
        insert_or_next-Scanned g (insert_checked q source len) same

  try_pages-Scanned :
      (rounds k : ℕ) (page : Mem) (f g : File)
      → SameContent f g
      → Scanned f (try_pages fd source len rounds k page g)
  unfolding try_pages
  try_pages-Scanned zero k page f g same = same
  try_pages-Scanned (suc rounds) k page f g same =
      let read = read_into fd k page g in
      scan_read-Scanned f k (try_pages fd source len rounds (k + 1))
        (λ p h s. try_pages-Scanned rounds (k + 1) p f h s) read
        (SameContent-trans f g read.2 same (read_into-SameContent fd k page g))

  appended-IsConfined :
      (f : File) (new : Rid) (t : Option ℕ × File)
      → IsConfined f t.1
      → IsConfined f (appended fd source len new t).1
  unfolding appended
  appended-IsConfined f new (none, h) c = c
  appended-IsConfined f new (some x, h) c = c

  fill_new-IsConfined :
      (f : File) (k : ℕ) (h : File) (t : Option ℕ × Mem)
      → Changes f h f.size 4096
      → IsConfined f (fill_new fd source len k h t).1
  unfolding fill_new
  fill_new-IsConfined f k h (none, page) c =
      (0, Changes-behind f h h 4096 0 4096 c (Changes-refl h h 0 4096 refl refl))
  fill_new-IsConfined f k h (some s, page) c =
      let out = page_write fd k (some page) h in
      appended-IsConfined f (rid k (s % 2 ^ 16)) out
        (k, Changes-behind f h out.1 4096 (k * 4096) 4096 c (page_write-Changes fd k page h))

  append_page-IsConfined :
      (f : File) (array : Mem) (t : Option ℕ × File)
      → Changes f t.1 f.size 4096
      → IsConfined f (append_page fd source len array t).1
  unfolding append_page
  append_page-IsConfined f array (none, h) c =
      (0, Changes-behind f h h 4096 0 4096 c (Changes-refl h h 0 4096 refl refl))
  append_page-IsConfined f array (some k, h) c =
      fill_new-IsConfined f k h (insert_checked (init_page array) source len) c

  after_scan-IsConfined :
      (f : File) (fresh : Mem) (t : Tried × Mem × File)
      → Scanned f t
      → IsConfined f (after_scan fd source len fresh t).1
  unfolding after_scan
  after_scan-IsConfined f fresh (inserted r, array, g) c = c
  after_scan-IsConfined f fresh (error, array, g) c = c
  after_scan-IsConfined f fresh (exhausted, array, g) same =
      append_page-IsConfined f array (page_allocate fd fresh g)
        (Changes-resized f g (page_allocate fd fresh g).1 same (page_allocate-Changes fd fresh g))

pub insert_into-IsConfined :
    (heap : HeapFile) (source : Mem) (len : ℕ) (stack fresh : Mem) (f : File)
    → IsConfined f (insert_into heap source len stack fresh f).1
unfolding insert_into insert_counted heap_page_count
insert_into-IsConfined heap source len stack fresh f =
    let (n, g) = page_count_of heap.fd f in
    elim (Bool-cases (ltb max_record_size len)) [
      | inl big ↦ rw big (SameContent-IsConfined f f (refl, refl))
      | inr fits ↦ rw fits (
          after_scan-IsConfined heap.fd source len f fresh
            (try_pages heap.fd source len n 0 stack g)
            (try_pages-Scanned heap.fd source len n 0 stack f g
              (page_count_of-SameContent heap.fd f)))
    ]
