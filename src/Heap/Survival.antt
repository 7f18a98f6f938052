-- ===== src/Heap/Survival.antt =====
-- The records that are safe when `heap_insert` and `heap_delete` fail or end early.
use cs_lab.Base.{
  ℕ, ◌+◌, ◌*◌, ◌/◌, ◌<◌, ◌≡◌, ◌≢◌, arith, refl, Option, none, some, leb, Bool-cases, inl, inr,
  lt→ltb,
}
use cs_lab.Memory.{Mem}
use cs_lab.Posix.{File}
use cs_lab.Page.{delete_record}
use cs_lab.Page.Layout.{IsValid}
use cs_lab.Page.Window.{lookup-window}
use cs_lab.PageFile.{read_into, page_write}
use cs_lab.PageFile.Idle.{page_at, pages_apart}
use cs_lab.PageFile.Content.{SameContent, SameContent-trans, read_into-SameContent}
use cs_lab.PageFile.Faults.{Changes, Changes-refl, Changes-after, page_write-Changes}
use cs_lab.Heap.{
  Rid, HeapFile, page_count_of, count_pages, insert_into, write_deleted, delete_read,
  delete_counted, delete_on, heap_delete,
}
use cs_lab.Heap.View.{heap_lookup}
use cs_lab.Heap.Errors.{page_count_of-SameContent}
use cs_lab.Heap.Faults.{insert_into-IsConfined}

-- Every whole page of the file is valid.
abbrev pub IsSound : File → Type 0
IsSound f = (k : ℕ) → k < f.size / 4096 → IsValid (page_at f.bytes k)

-- The records in whole pages of `f`, but for the page `k`, are the same in `g`.
abbrev pub Keeps : File → File → ℕ → Type 0
Keeps f g k =
    (r : Rid) → r.page_id < f.size / 4096 → r.page_id ≢ k → heap_lookup g r ≡ heap_lookup f r

Changes-Keeps : (f g : File) (k : ℕ) → IsSound f → Changes f g (k * 4096) 4096 → Keeps f g k
unfolding heap_lookup
Changes-Keeps f g k sound c r l ne =
    let l' : r.page_id < g.size / 4096 = omega (arith, c.grows) in
    rw (lt→ltb r.page_id (f.size / 4096) l, lt→ltb r.page_id (g.size / 4096) l')
      (lookup-window (page_at f.bytes r.page_id) (page_at g.bytes r.page_id)
        (λ a h. c.same (r.page_id * 4096 + a) (omega arith) (pages_apart r.page_id k a h ne))
        (sound r.page_id l) r.slot_id)

-- Whatever calls fail or end early, `heap_insert` on a file of valid pages damages one page at
-- most: there is a page such that every id in another whole page holds what it did.
pub insert_into-others_stay :
    (heap : HeapFile) (source : Mem) (len : ℕ) (stack fresh : Mem) (f : File)
    → IsSound f
    → (k : ℕ) × Keeps f (insert_into heap source len stack fresh f).1 k
insert_into-others_stay heap source len stack fresh f sound =
    let (k, c) = insert_into-IsConfined heap source len stack fresh f in
    (k, Changes-Keeps f (insert_into heap source len stack fresh f).1 k sound c)

module _ (r : Rid) where
  write_deleted-Changes :
      (fd : ℕ) (f h : File) (t : Option ℕ × Mem)
      → SameContent f h
      → Changes f (write_deleted fd r h t).1 (r.page_id * 4096) 4096
  unfolding write_deleted
  write_deleted-Changes fd f h (none, q) same =
      Changes-refl f h (r.page_id * 4096) 4096 same.0 same.1
  write_deleted-Changes fd f h (some x, q) same =
      Changes-after f h (page_write (some fd) r.page_id (some q) h).1 (r.page_id * 4096) 4096 same.0
        same.1 (page_write-Changes (some fd) r.page_id q h)

  delete_read-Changes :
      (fd : ℕ) (f : File) (t : Option ℕ × Mem × File)
      → SameContent f t.2
      → Changes f (delete_read fd r t).1 (r.page_id * 4096) 4096
  unfolding delete_read
  delete_read-Changes fd f (none, page, h) same =
      Changes-refl f h (r.page_id * 4096) 4096 same.0 same.1
  delete_read-Changes fd f (some x, page, h) same =
      write_deleted-Changes fd f h (delete_record page r.slot_id) same

  delete_on-Changes :
      (fd : Option ℕ) (stack : Mem) (f : File)
      → Changes f (delete_on fd r stack f).1 (r.page_id * 4096) 4096
  unfolding delete_on delete_counted page_count_of
  delete_on-Changes none stack f = Changes-refl f f (r.page_id * 4096) 4096 refl refl
  delete_on-Changes (some fd) stack f =
      let (n, g) = count_pages f in
      let counted : SameContent f g = page_count_of-SameContent (some fd) f in
      let read = read_into (some fd) r.page_id stack g in
      elim (Bool-cases (leb n r.page_id)) [
        | inl out ↦ rw out (Changes-refl f g (r.page_id * 4096) 4096 counted.0 counted.1)
        | inr l ↦ rw l (
            delete_read-Changes fd f read (
              SameContent-trans f g read.2 counted
                (read_into-SameContent (some fd) r.page_id stack g)))
      ]

-- Whatever calls fail or end early, after `heap_delete` on a file of valid pages every id in
-- another whole page than that of the deleted id holds what it did.
pub heap_delete-others_stay :
    (heap : HeapFile) (r : Rid) (stack : Mem) (f : File)
    → IsSound f
    → Keeps f (heap_delete (some heap) r stack f).1 r.page_id
unfolding heap_delete
heap_delete-others_stay heap r stack f sound =
    Changes-Keeps f (heap_delete (some heap) r stack f).1 r.page_id sound
      (delete_on-Changes r heap.fd stack f)
