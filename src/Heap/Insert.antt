-- ===== src/Heap/Insert.antt =====
-- `heap_insert` on a heap whose calls succeed.
use cs_lab.Heap.{Tried, heap_page_count, count_pages}
use cs_lab.Base.{
  ℕ, ◌+◌, ◌*◌, ◌/◌, ◌%◌, ◌^◌, ◌≤◌, ◌<◌, ◌≡◌, ◌≢◌, ◌∙◌, inl, inr, sym, arith, refl, ap, some, ◌==◌,
  if◌then◌else◌, ge→ltb, lt→ltb,
}
use Prim.Native.Nat.{max}
use native.Mathlib.Decide.{ℕ_discrete}
use cs_lab.Memory.{Mem, bytes}
use cs_lab.Posix.{lseek_end, File}
use cs_lab.Page.{insert_checked, insert_record, init_page}
use cs_lab.Page.Init.{
  init_page-accepts, init_page-IsValid, init_page-IsCompactable, lookup-init_page,
}
use cs_lab.Page.Window.{SameFront, window-IsValid, lookup-window}
use cs_lab.PageFile.{page_write, page_allocate, to_int}
use cs_lab.PageFile.Idle.{idle, idle_lem, page_at, written, write_page-idle, page_allocate-idle}
use cs_lab.Heap.{
  Rid, rid, insert_into, insert_counted, try_pages, after_scan, append_page, fill_new, appended,
}
use cs_lab.Heap.View.{
  IsHeap, heap_lookup, rid_eta, written-IsHeap, heap_lookup-written_self, heap_lookup-written_ne,
  heap_lookup_in, heap_lookup_out,
}
use cs_lab.Heap.Scan.{found, nothing, Scanned, try_pages-Scanned}
use cs_lab.Heap.Store.{
  IsRoomy, IsRoomy-window, Stored, Stored-same, accepted, checked, Stored-by, some_of,
}

pub count_pages-idle :
    (b : Mem) (s pos n : ℕ)
    → s ≡ n * 4096
    → n < 2 ^ 32
    → count_pages (idle b s pos) ≡ (n, idle b s s)
unfolding count_pages lseek_end
count_pages-idle b s pos n whole small = let e : s / 4096 % 2 ^ 32 ≡ n = omega arith in rw e

pub count-idle :
    (b : Mem) (s pos n fd : ℕ)
    → s ≡ n * 4096
    → n < 2 ^ 32
    → heap_page_count (some (record { fd = some fd })) (idle b s pos) ≡ (n, idle b s s)
unfolding heap_page_count
count-idle b s pos n fd whole small = count_pages-idle b s pos n whole small

-- The call of `heap_insert` behind the scan: the file grows by a page, which is then written.
module _ (b : Mem) (s n fd : ℕ) (source : Mem) (len : ℕ) (fresh : Mem) (whole : s ≡ n * 4096)
    (small : n < 2 ^ 31) where
  pub append_page-idle :
      (array : Mem) (pos slot : ℕ) (r : Mem)
      → insert_checked (init_page array) source len ≡ (some slot, r)
      → let b' = written b s (n * 4096) (init_page fresh) in
        append_page (some fd) source len array (page_allocate (some fd) fresh (idle b s pos)) ≡ (
          some (rid n (slot % 2 ^ 16)),
          idle (written b' (s + 4096) (n * 4096) r) (s + 4096) (n * 4096 + 4096),
        )
  unfolding append_page fill_new appended page_write
  append_page-idle array pos slot r took =
      let first = init_page fresh in
      let b' = written b s (n * 4096) first in
      let id : to_int (s / 4096 % 2 ^ 32) ≡ some n =
        let all : s / 4096 % 2 ^ 32 ≡ n = omega arith in rw (all, lt→ltb n (2 ^ 31) small) in
      let grown : max s (s + 4096) ≡ s + 4096 = omega arith in
      let allocated : page_allocate (some fd) fresh (idle b s pos)
          ≡ (some n, idle b' (s + 4096) (s + 4096)) =
        page_allocate-idle b s pos fd fresh
        ∙ (λ i. (id i, idle (written b s (whole i) first) (grown i) (s + 4096))) in
      let end : max (s + 4096) (n * 4096 + 4096) ≡ s + 4096 = omega arith in
      rw (allocated, took, write_page-idle b' (s + 4096) (s + 4096) n r, end) refl

module _ (b : Mem) (s pos n fd : ℕ) (source : Mem) (len : ℕ) (fresh : Mem)
    (h : IsHeap (idle b s pos) n) (small : n < 2 ^ 31) (some_length : len ≢ 0) (fits : len ≤ 4086)
    (roomy : (k : ℕ) → k < n → IsRoomy (page_at b k) len) where
  in_page :
      (k slot pos' : ℕ) (q r : Mem)
      → k < n
      → SameFront (page_at b k) q
      → insert_checked q source len ≡ (some slot, r)
      → Stored
          (idle b s pos)
          source
          len
          (some (rid k (slot % 2 ^ 16)), idle (written b s (k * 4096) r) s pos')
  in_page k slot pos' q r l same took =
      let v = h.valid k l in
      let v' = window-IsValid (page_at b k) q same v in
      let room' = IsRoomy-window (page_at b k) q len same v (roomy k l) in
      let a = accepted q source len v' some_length room' slot r took in
      let old = λ (i : ℕ).
        lookup-window (page_at b k) q same v i ∙ sym (heap_lookup_in (idle b s pos) n h k i l) in
      Stored-by (idle b s pos) (idle (written b s (k * 4096) r) s pos') n n k r source len slot h
        (omega arith) refl refl h.whole (inl (refl, l))
        (λ i. a.holds i ∙ ap (λ t. if i == slot then some (bytes source 0 len) else t) (old i))
        a.valid a.small (sym (old slot) ∙ a.unused)

  -- An empty page takes every record that is not too long.
  pub first_record :
      (array : Mem)
      → (slot : ℕ) × (r : Mem) × (insert_checked (init_page array) source len ≡ (some slot, r))
  first_record array =
      let v = init_page-IsValid array in
      let out = insert_record (init_page array) source len in
      let took = some_of out.0 (init_page-accepts array source len fits) in
      let roomy_page = inr (init_page-IsCompactable array) in
      (
        took.0,
        out.1,
        checked (init_page array) source len v some_length roomy_page
            ∙ ap (λ o. (o, out.1)) (took.1),
      )

  behind_pages :
      (array : Mem) (pos' : ℕ)
      → Stored
          (idle b s pos)
          source
          len
          (append_page (some fd) source len array (page_allocate (some fd) fresh (idle b s pos')))
  behind_pages array pos' =
      let f = idle b s pos in
      let first = init_page fresh in
      let b' = written b s (n * 4096) first in
      let f' = idle b' (s + 4096) (s + 4096) in
      let (slot, r, took) = first_record array in
      let empty = init_page-IsValid fresh in
      let whole' : s + 4096 ≡ (n + 1) * 4096 = omega (arith, h.whole) in
      let h' =
        written-IsHeap f f' n (n + 1) n first h (omega arith) refl refl whole' (inr (refl, refl))
          empty in
      let page_n = λ (i : ℕ).
        heap_lookup-written_self f f' n (n + 1) n first h (omega arith) refl refl whole'
          (inr (refl, refl)) empty 0 (rid n i) refl
        ∙ lookup-init_page fresh i in
      let g = idle (written b' (s + 4096) (n * 4096) r) (s + 4096) (n * 4096 + 4096) in
      let a =
        accepted (init_page array) source len (init_page-IsValid array) some_length
          (inr (init_page-IsCompactable array)) slot r took in
      let unused = λ (i : ℕ). lookup-init_page array i ∙ sym (page_n i) in
      let same : (t : Rid) → heap_lookup f' t ≡ heap_lookup f t = λ t.
        elim (ℕ_discrete t.page_id n) [
          | yes e ↦
              ap (heap_lookup f') (rid_eta t n e)
              ∙ page_n t.slot_id
              ∙ sym (heap_lookup_out f n h n t.slot_id (omega arith))
              ∙ ap (heap_lookup f) (sym (rid_eta t n e))
          | no ne ↦
              heap_lookup-written_ne f f' n (n + 1) n first h (omega arith) refl refl whole'
                (inr (refl, refl)) empty t ne
        ] in
      rw (append_page-idle b s n fd source len fresh h.whole small array pos' slot r took) (
        Stored-same f f' source len (some (rid n (slot % 2 ^ 16)), g) same
          (Stored-by f' g (n + 1) (n + 1) n r source len slot h' (omega arith) refl refl whole'
            (inl (refl, omega arith))
            (λ i.
              a.holds i ∙ ap (λ t. if i == slot then some (bytes source 0 len) else t) (unused i))
            a.valid a.small (page_n slot)))

  after :
      (t : Tried × Mem × File)
      → Scanned b s n len source 0 t
      → Stored (idle b s pos) source len (after_scan (some fd) source len fresh t)
  unfolding after_scan
  after t (found k slot pos' q r le l same took) = in_page k slot pos' q r l same took
  after t (nothing pos' page all) = behind_pages page pos'

-- On a heap file of fewer than 2^31 valid pages, each with room or compactable, with no failing
-- call, `heap_insert` stores every record of 1 to 4086 bytes and returns an id that was not in use;
-- afterwards that id holds the record, every other id holds what it did, and the file is a valid
-- heap again.
pub insert_into-Stored :
    (f : File) (n fd : ℕ) (source : Mem) (len : ℕ) (stack fresh : Mem)
    → IsHeap f n
    → n < 2 ^ 31
    → len ≢ 0
    → len ≤ 4086
    → ((k : ℕ) → k < n → IsRoomy (page_at f.bytes k) len)
    → Stored f source len (insert_into (record { fd = some fd }) source len stack fresh f)
unfolding insert_into insert_counted
insert_into-Stored f n fd source len stack fresh h small some_length fits roomy =
    rw (idle_lem f h.quiet) (
      let small' : n < 2 ^ 32 = omega arith in
      let h' : IsHeap (idle f.bytes f.size f.pos) n = record {
        quiet = refl;
        whole = h.whole;
        valid = h.valid;
      } in
      rw (ge→ltb 4086 len fits, count-idle f.bytes f.size f.pos n fd h.whole small')
        (after f.bytes f.size f.pos n fd source len fresh h' small some_length fits roomy
          (try_pages (some fd) source len n 0 stack (idle f.bytes f.size f.size))
          (try_pages-Scanned f.bytes f.size n len source fd h.whole n 0 stack f.size
            (omega arith))))
