-- ===== src/Heap/Tests.antt =====
-- A heap file of one page, and the theorems at it.
use cs_lab.Base.{List, true, ℕ, ◌≡◌, ◌<◌, ◌≤◌, refl, ap, arith, none, some, inl, [], ◌∷◌}
use cs_lab.Memory.{Mem, get16, set16, memcpy, memset, bytes}
use cs_lab.Page.{
  current_free, insert_record, insert_checked, get_record, delete_record, init_page, place_record,
  fill_slot, grow_directory, find_reusable, slot_offset,
}
use cs_lab.Posix.{
  File, complete, short, lseek_set, lseek_end, read, write, pread, pwrite, next_outcome,
}
use cs_lab.Page.Samples.{of_list, two_records, two-IsValid}
use cs_lab.Page.Layout.{IsValid}
use cs_lab.Page.Window.{window-IsValid}
use cs_lab.PageFile.Idle.{idle, page_at}
use cs_lab.Heap.{
  rid, HeapFile, insert_into, insert_counted, try_pages, after_scan, append_page, fill_new,
  appended, heap_page_count, page_count_of, count_pages, get_from, get_counted, get_read,
  heap_delete, delete_on, delete_counted, delete_read, write_deleted,
}
use cs_lab.Heap.View.{IsHeap, heap_lookup}
use cs_lab.Heap.Spec.{Op, insert, get, delete, stored_at, content, deleted, run, Conforms}
use cs_lab.Heap.Session.{session-Conforms}
use cs_lab.Heap.Trace.{AllReady, run-Conforms}
use cs_lab.PageFile.{page_allocate, page_write, write_page, read_into, read_page}
use cs_lab.Heap.Store.{IsRoomy, Stored}
use cs_lab.Heap.Insert.{insert_into-Stored}
use cs_lab.Heap.Get.{Got, get_from-Got}
use cs_lab.Heap.Delete.{Removed, heap_delete-Removed}
use cs_lab.Heap.Errors.{insert_into-empty_grows}
use cs_lab.PageFile.Content.{SameContent}
use cs_lab.Heap.Survival.{IsSound, Keeps, insert_into-others_stay, heap_delete-others_stay}
use cs_lab.Heap.Reading.{IsHonest, get_from-keeps_promise}

abbrev file : File
file = idle two_records 4096 0

first_page : (k : ℕ) → k < 1 → IsValid (page_at two_records k)
first_page k l =
    window-IsValid two_records (page_at two_records k)
      (λ a h. ap two_records (let z : k ≡ 0 = omega arith in rw z (omega arith))) two-IsValid

file-IsHeap : IsHeap file 1
file-IsHeap = record { quiet = refl; whole = refl; valid = first_page }

open_heap : HeapFile
open_heap = record { fd = some 3 }

third : Mem
third = of_list (11 ∷ 12 ∷ [])

-- The page has 4075 bytes left.
free_room : 10 ≤ current_free (page_at two_records 0)
unfolding get16 insert_record init_page set16 memcpy memset place_record fill_slot grow_directory
    find_reusable slot_offset
free_room = omega arith

roomy : (k : ℕ) → k < 1 → IsRoomy (page_at two_records k) 2
roomy k l = inl (let z : k ≡ 0 = omega arith in rw z (omega (arith, free_room)))

insert_into-Stored_example :
    Stored file third 2 (insert_into open_heap third 2 (λ _. 9) (λ _. 9) file)
unfolding open_heap
insert_into-Stored_example =
    insert_into-Stored file 1 3 third 2 (λ _. 9) (λ _. 9) file-IsHeap (omega arith) (omega arith)
      (omega arith) roomy

get_from-Got_example :
    Got file (rid 0 1) (λ _. 0) 10 (get_from open_heap (rid 0 1) (λ _. 0) 10 (λ _. 9) file)
unfolding open_heap
get_from-Got_example =
    get_from-Got file 1 3 (rid 0 1) (λ _. 0) 10 (λ _. 9) file-IsHeap (omega arith) (omega arith)

heap_delete-Removed_example :
    Removed file 1 (rid 0 1) (heap_delete (some open_heap) (rid 0 1) (λ _. 9) file)
unfolding open_heap
heap_delete-Removed_example =
    heap_delete-Removed file 1 3 (rid 0 1) (λ _. 9) file-IsHeap (omega arith)

-- The second call, the read, ends after 100 bytes.
abbrev interrupted : File
interrupted = record file { script = complete ∷ complete ∷ short 100 ∷ [] }

interrupted-IsSound : IsSound interrupted
interrupted-IsSound k l = first_page k (omega arith)

get_from-keeps_promise_example :
    let out = get_from open_heap (rid 0 1) (λ _. 0) 10 (λ _. 9) interrupted in
    IsHonest interrupted (rid 0 1) 10 out × SameContent interrupted out.2
get_from-keeps_promise_example =
    get_from-keeps_promise open_heap (rid 0 1) (λ _. 0) 10 (λ _. 9) interrupted interrupted-IsSound

-- The write of the page ends after 100 bytes.
abbrev torn : File
torn = record file { script = complete ∷ complete ∷ complete ∷ complete ∷ short 100 ∷ [] }

torn-IsSound : IsSound torn
torn-IsSound k l = first_page k (omega arith)

insert_into-others_stay_example :
    (k : ℕ) × Keeps torn (insert_into open_heap third 2 (λ _. 9) (λ _. 9) torn).1 k
insert_into-others_stay_example =
    insert_into-others_stay open_heap third 2 (λ _. 9) (λ _. 9) torn torn-IsSound

heap_delete-others_stay_example :
    Keeps torn (heap_delete (some open_heap) (rid 0 1) (λ _. 9) torn).1 0
heap_delete-others_stay_example =
    heap_delete-others_stay open_heap (rid 0 1) (λ _. 9) torn torn-IsSound

insert_into-empty_grows_example :
    let (r, g) = insert_into open_heap third 0 (λ _. 9) (λ _. 9) file in
    (r ≡ none) × (g.size ≡ 8192)
unfolding open_heap
insert_into-empty_grows_example =
    insert_into-empty_grows file 1 3 third (λ _. 9) (λ _. 9) file-IsHeap (omega arith)

-- A new heap file: a record is stored, read and deleted, and is gone.
abbrev new_file : File
new_file = idle (λ _. 0) 0 0

abbrev session : List Op
session = insert third 2 ∷ get (rid 0 0) 10 ∷ delete (rid 0 0) ∷ get (rid 0 0) 10 ∷ []

run_session :
    (run 3 (λ _. 9) (λ _. 9) session new_file).0
    ≡ stored_at (some (rid 0 0)) ∷ content (some (11 ∷ 12 ∷ [])) ∷ deleted true ∷ content none ∷ []
unfolding free_room third insert_into insert_counted try_pages after_scan append_page fill_new
    appended heap_page_count page_count_of count_pages page_allocate page_write write_page read_into
    read_page insert_checked get_from get_counted get_read get_record heap_delete delete_on
    delete_counted delete_read write_deleted delete_record lseek_set lseek_end read write pread
    pwrite next_outcome bytes insert_record
run_session = refl

session-AllReady : AllReady 3 (λ _. 9) (λ _. 9) session new_file
unfolding run_session
session-AllReady = (
  (omega arith, omega arith, omega arith, λ k l. absurd (omega arith)),
  ((omega arith, omega arith), (omega arith, ((omega arith, omega arith), tt))),
)

run-Conforms_example :
    let (answers, g) = run 3 (λ _. 9) (λ _. 9) session new_file in
    Conforms (heap_lookup new_file) session answers (heap_lookup g)
run-Conforms_example =
    run-Conforms 3 (λ _. 9) (λ _. 9) session new_file
      (0, record { quiet = refl; whole = refl; valid = λ k l. absurd (omega arith) })
      session-AllReady

session-Conforms_example :
    let (answers, g) = run 3 (λ _. 9) (λ _. 9) session new_file in
    Conforms (λ r. none) session answers (heap_lookup g)
session-Conforms_example =
    session-Conforms 3 (λ _. 9) (λ _. 9) session new_file refl refl (omega arith)
      (omega arith, omega arith, (omega arith, (omega arith, tt)))
