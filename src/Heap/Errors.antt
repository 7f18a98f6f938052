-- ===== src/Heap/Errors.antt =====
-- The heap file's operations where they are refused or where calls fail.
use cs_lab.Base.{
  ℕ, ◌+◌, ◌*◌, ◌/◌, ◌%◌, ◌^◌, ◌<◌, ◌≡◌, arith, refl, Option, none, some, ◌==◌, leb, Bool-cases, inl,
  inr, lt→ltb,
}
use cs_lab.Memory.{Mem}
use cs_lab.Posix.{File}
use cs_lab.Page.{insert_checked, init_page}
use cs_lab.PageFile.{read_into, page_allocate, to_int}
use cs_lab.PageFile.Idle.{idle, idle_lem, page_allocate-idle}
use cs_lab.Heap.{
  Tried, Rid, HeapFile, heap_page_count, page_count_of, count_pages, insert_into, insert_counted,
  try_pages, after_scan, append_page, fill_new, get_from, get_counted, get_read, heap_delete,
  delete_on,
}
use cs_lab.Heap.View.{IsHeap}
use cs_lab.Heap.Scan.{Scanned, found, nothing, try_pages-Scanned}
use cs_lab.Heap.Insert.{count-idle}
use cs_lab.PageFile.Content.{
  SameContent, SameContent-trans, lseek_end-SameContent, read_into-SameContent,
}

-- On a heap that is not open `heap_insert`, `heap_get` and `heap_delete` fail and leave the file
-- and the caller's buffer as they are.
pub closed_heap-fails :
    (f : File) (r : Rid) (source buffer : Mem) (len size : ℕ) (stack fresh : Mem)
    → let closed : HeapFile = record { fd = none } in
      (insert_into closed source len stack fresh f ≡ (none, f))
      × (get_from closed r buffer size stack f ≡ (none, buffer, f))
      × (heap_delete (some closed) r stack f ≡ (none, f))
unfolding insert_into insert_counted try_pages after_scan append_page page_allocate heap_page_count
    get_from get_counted get_read read_into heap_delete delete_on
closed_heap-fails f r source buffer len size stack fresh = (ground arith, ground arith, refl)

pub page_count_of-SameContent : (fd : Option ℕ) (f : File) → SameContent f (page_count_of fd f).1
unfolding page_count_of count_pages
page_count_of-SameContent none f = (refl, refl)
page_count_of-SameContent (some fd) f = ground (arith, lseek_end-SameContent f)

get_read-SameContent :
    (f : File) (r : Rid) (buffer : Mem) (size : ℕ) (t : Option ℕ × Mem × File)
    → SameContent f t.2
    → SameContent f (get_read r buffer size t).2
unfolding get_read
get_read-SameContent f r buffer size (none, page, h) same = same
get_read-SameContent f r buffer size (some x, page, h) same = same

-- Whatever calls fail or end early, `heap_get` leaves the bytes and the size of the file as they
-- are.
pub get_from-SameContent :
    (heap : HeapFile) (r : Rid) (buffer : Mem) (size : ℕ) (stack : Mem) (f : File)
    → SameContent f (get_from heap r buffer size stack f).2
unfolding get_from get_counted heap_page_count
get_from-SameContent heap r buffer size stack f =
    let counted = page_count_of-SameContent heap.fd f in
    let g = (page_count_of heap.fd f).1 in
    elim (Bool-cases (size == 0)) [
      | inl e ↦ rw e (refl, refl)
      | inr e ↦ elim (Bool-cases (leb (page_count_of heap.fd f).0 r.page_id)) [
        | inl out ↦ rw (e, out) counted
        | inr l ↦
            rw (e, l)
              (get_read-SameContent f r buffer size (read_into heap.fd r.page_id stack g) (
                SameContent-trans f g (read_into heap.fd r.page_id stack g).2 counted
                  (read_into-SameContent heap.fd r.page_id stack g)))
      ]
    ]

module _ (b : Mem) (s pos n fd : ℕ) (source fresh : Mem) (whole : s ≡ n * 4096)
    (small : n < 2 ^ 31) where
  refused : (q : Mem) → insert_checked q source 0 ≡ (none, q)
  unfolding insert_checked
  refused q = refl

  grown :
      (array : Mem) (pos' : ℕ)
      → let (r, g) =
          append_page (some fd) source 0 array (page_allocate (some fd) fresh (idle b s pos')) in
        (r ≡ none) × (g.size ≡ s + 4096)
  unfolding append_page fill_new
  grown array pos' =
      let id : to_int (s / 4096 % 2 ^ 32) ≡ some n =
        let all : s / 4096 % 2 ^ 32 ≡ n = omega arith in rw (all, lt→ltb n (2 ^ 31) small) in
      rw (page_allocate-idle b s pos' fd fresh, id, refused (init_page array)) (refl, omega arith)

  after :
      (t : Tried × Mem × File)
      → Scanned b s n 0 source 0 t
      → let (r, g) = after_scan (some fd) source 0 fresh t in (r ≡ none) × (g.size ≡ s + 4096)
  unfolding after_scan
  after t (found k slot pos' q r le l same took) = absurd (let no = refused q in cc)
  after t (nothing pos' page all) = grown page pos'

-- On a heap file of fewer than 2^31 valid pages with no failing call, `heap_insert` of an empty
-- record fails and leaves the file a page longer.
pub insert_into-empty_grows :
    (f : File) (n fd : ℕ) (source stack fresh : Mem)
    → IsHeap f n
    → n < 2 ^ 31
    → let (r, g) = insert_into (record { fd = some fd }) source 0 stack fresh f in
      (r ≡ none) × (g.size ≡ f.size + 4096)
unfolding insert_into insert_counted
insert_into-empty_grows f n fd source stack fresh h small = rw (idle_lem f h.quiet) (
    let small' : n < 2 ^ 32 = omega arith in
    rw (count-idle f.bytes f.size f.pos n fd h.whole small') (
      after f.bytes f.size f.pos n fd source fresh h.whole small
        (try_pages (some fd) source 0 n 0 stack (idle f.bytes f.size f.size))
        (try_pages-Scanned f.bytes f.size n 0 source fd h.whole n 0 stack f.size (omega arith))))
