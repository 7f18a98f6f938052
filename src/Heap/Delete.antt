-- ===== src/Heap/Delete.antt =====
-- `heap_delete` on a heap whose calls succeed.
use cs_lab.Base.{
  ℕ, ◌+◌, ◌*◌, ◌^◌, ◌≤◌, ◌<◌, ◌≡◌, ◌∙◌, sym, arith, refl, ap, Option, none, some, is_some, false,
  List, ◌==◌, if◌then◌else◌, leb, Bool-cases, inl, inr, leb→le, leb→gt, Option-cases,
}
use Prim.Native.Nat.{max}
use native.Mathlib.Decide.{ℕ_discrete}
use cs_lab.Memory.{Mem, memcpy}
use cs_lab.Posix.{File}
use cs_lab.Page.{delete_record}
use cs_lab.Page.Layout.{lookup}
use cs_lab.Page.Delete.{delete_record-is_some, delete_record-IsValid, lookup-delete_record}
use cs_lab.Page.Window.{lookup-window, window-IsValid}
use cs_lab.PageFile.{read_into, page_write}
use cs_lab.PageFile.Idle.{
  idle, idle_lem, page_at, written, read_page-idle, write_page-idle, memcpy-SameFront,
}
use cs_lab.Heap.{Rid, heap_delete, delete_on, delete_counted, delete_read, write_deleted}
use cs_lab.Heap.View.{
  IsHeap, heap_lookup, heap_lookup_in, heap_lookup_out, rid_eta, same_rid, same_rid_eq,
  same_rid_page, same_rid_ne, written-IsHeap, heap_lookup-written_self, heap_lookup-written_ne,
}
use cs_lab.Heap.Insert.{count_pages-idle}

-- What `heap_delete` returns and leaves of the file.
pub record Removed (f : File) (n : ℕ) (r : Rid) (out : Option ℕ × File) : Type 0 where
  pub result : is_some out.0 ≡ is_some (heap_lookup f r)
  pub heap : IsHeap out.1 n
  pub same : (j : Rid) → heap_lookup out.1 j ≡ (if same_rid j r then none else heap_lookup f j)

none_of : (o : Option (List ℕ)) → is_some o ≡ false → o ≡ none
none_of none e = refl
none_of (some t) e = cc

module _ (b : Mem) (s pos n fd : ℕ) (r : Rid) (h : IsHeap (idle b s pos) n) where
  -- A file that stores the same as the heap, without the record or because there is none.
  kept :
      (pos' : ℕ)
      → heap_lookup (idle b s pos) r ≡ none
      → Removed (idle b s pos) n r (none, idle b s pos')
  unfolding heap_lookup
  kept pos' gone = record {
    result = ap is_some (sym gone);
    heap = record { quiet = refl; whole = h.whole; valid = h.valid };
    same = λ j. elim (Bool-cases (same_rid j r)) [
      | inl e ↦ rw e (ap (heap_lookup (idle b s pos')) (same_rid_eq j r e) ∙ gone)
      | inr e ↦ rw e
    ];
  }

  outside : n ≤ r.page_id → heap_lookup (idle b s pos) r ≡ none
  outside le =
      ap (heap_lookup (idle b s pos)) (rid_eta r r.page_id refl)
      ∙ heap_lookup_out (idle b s pos) n h r.page_id r.slot_id le

  inside :
      (stack : Mem)
      → r.page_id < n
      → Removed
          (idle b s pos)
          n
          r
          (delete_read fd r (read_into (some fd) r.page_id stack (idle b s s)))
  unfolding delete_read write_deleted read_into page_write
  inside stack l =
      let k = r.page_id in
      let q = memcpy stack 0 (page_at b k) 4096 in
      let same = memcpy-SameFront b k stack in
      let v = window-IsValid (page_at b k) q same (h.valid k l) in
      let d = delete_record q r.slot_id in
      let found = λ (i : ℕ).
        lookup-window (page_at b k) q same (h.valid k l) i
        ∙ sym (heap_lookup_in (idle b s pos) n h k i l) in
      let end : max s (k * 4096 + 4096) ≡ s = omega (arith, h.whole) in
      let after = k * 4096 + 4096 in
      let f = idle b s pos in
      let g = idle (written b s (k * 4096) d.1) s after in
      let v' = delete_record-IsValid q v r.slot_id in
      let gone = delete_record-is_some q v r.slot_id in
      let here = found r.slot_id ∙ ap (heap_lookup f) (sym (rid_eta r k refl)) in
      rw (read_page-idle b s s k stack (omega (arith, h.whole))) (elim (Option-cases d.0) [
        | inl nothing ↦
            rw nothing
              (kept after (sym here ∙ none_of (lookup q r.slot_id) (sym gone ∙ ap is_some nothing)))
        | inr (x, done) ↦
            rw (done, write_page-idle b s after k d.1, end)
              (record {
                result = sym (ap is_some done) ∙ gone ∙ ap is_some here;
                heap =
                    written-IsHeap f g n n k d.1 h (omega arith) refl refl h.whole (inl (refl, l))
                      v';
                same = λ j. elim (ℕ_discrete j.page_id k) [
                  | no ne ↦ rw (same_rid_ne j k r.slot_id ne) (
                      heap_lookup-written_ne f g n n k d.1 h (omega arith) refl refl h.whole
                        (inl (refl, l)) v' j ne)
                  | yes e ↦ rw (same_rid_page j k r.slot_id e) (
                      heap_lookup-written_self f g n n k d.1 h (omega arith) refl refl h.whole
                        (inl (refl, l)) v' 0 j e
                      ∙ lookup-delete_record q v r.slot_id j.slot_id
                      ∙ ap (λ t. if j.slot_id == r.slot_id then none else t)
                          (found j.slot_id ∙ ap (heap_lookup f) (sym (rid_eta j k e))))
                ];
              })
      ])

-- On a heap file of fewer than 2^32 valid pages with no failing call, `heap_delete` succeeds
-- exactly on an id in use; afterwards that id is not in use, every other id holds what it did, and
-- the heap is valid.
pub heap_delete-Removed :
    (f : File) (n fd : ℕ) (r : Rid) (stack : Mem)
    → IsHeap f n
    → n < 2 ^ 32
    → Removed f n r (heap_delete (some (record { fd = some fd })) r stack f)
unfolding heap_delete delete_on delete_counted
heap_delete-Removed f n fd r stack h small = rw (idle_lem f h.quiet) (
    let h' : IsHeap (idle f.bytes f.size f.pos) n = record {
      quiet = refl;
      whole = h.whole;
      valid = h.valid;
    } in
    rw (count_pages-idle f.bytes f.size f.pos n h.whole small)
      (elim (Bool-cases (leb n r.page_id)) [
        | inl out ↦ rw out (
            kept f.bytes f.size f.pos n fd r h' f.size
              (outside f.bytes f.size f.pos n fd r h' (leb→le n r.page_id out)))
        | inr l ↦ rw l (inside f.bytes f.size f.pos n fd r h' stack (leb→gt n r.page_id l))
      ]))
