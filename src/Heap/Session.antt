-- ===== src/Heap/Session.antt =====
-- Programs on a new heap file that need no look at its pages: they insert and look up, and once
-- they delete they insert no more.
use cs_lab.Base.{
  ℕ, ◌+◌, ◌^◌, ◌≤◌, ◌<◌, ◌≡◌, ◌≢◌, ◌∙◌, sym, ap, refl, arith, List, [], ◌∷◌, length, inr, subst,
  none,
}
use cs_lab.Memory.{Mem}
use cs_lab.Posix.{File}
use cs_lab.Heap.{Rid}
use cs_lab.Heap.View.{IsHeap, heap_lookup, rid_eta, heap_lookup_out}
use cs_lab.Heap.Spec.{Op, insert, get, delete, Conforms, run_op, run}
use cs_lab.Heap.Trace.{IsReady, AllReady, run_op-get_keeps, run-Conforms}
use cs_lab.Heap.Insert.{insert_into-Stored}
use cs_lab.Heap.Delete.{heap_delete-Removed}
use cs_lab.Heap.Tidy.{AllTidy, insert_into-AllTidy}

-- Lookups into a buffer and deletions only.
abbrev pub InsertsNothing : List Op → Type 0
InsertsNothing [] = Unit
InsertsNothing (insert source len ∷ ops) = ⊥
InsertsNothing (get r size ∷ ops) = (size ≢ 0) × InsertsNothing ops
InsertsNothing (delete r ∷ ops) = InsertsNothing ops

-- Records of 1 to 4086 bytes are inserted before anything is deleted.
abbrev pub InsertsFirst : List Op → Type 0
InsertsFirst [] = Unit
InsertsFirst (insert source len ∷ ops) = (len ≢ 0) × (len ≤ 4086) × InsertsFirst ops
InsertsFirst (get r size ∷ ops) = (size ≢ 0) × InsertsFirst ops
InsertsFirst (delete r ∷ ops) = InsertsNothing ops

module _ (fd : ℕ) (stack fresh : Mem) where
  later-AllReady :
      (ops : List Op) (f : File) (n : ℕ)
      → IsHeap f n
      → n < 2 ^ 32
      → InsertsNothing ops
      → AllReady fd stack fresh ops f
  later-AllReady [] f n h small ok = tt
  later-AllReady (insert source len ∷ ops) f n h small ok = absurd ok
  later-AllReady (get r size ∷ ops) f n h small ok =
      let ready : IsReady (get r size) f = (ok.0, omega (arith, h.whole)) in
      let (b, s, h') = run_op-get_keeps fd stack fresh r size f n h ready in
      (ready, later-AllReady ops (run_op fd stack fresh (get r size) f).1 n h' small ok.1)
  later-AllReady (delete r ∷ ops) f n h small ok =
      let d = heap_delete-Removed f n fd r stack h small in
      (
        omega (arith, h.whole),
        later-AllReady ops (run_op fd stack fresh (delete r) f).1 n d.heap small ok,
      )

  tidy-AllReady :
      (ops : List Op) (f : File) (n : ℕ)
      → IsHeap f n
      → AllTidy f.bytes n
      → n + length ops < 2 ^ 31
      → InsertsFirst ops
      → AllReady fd stack fresh ops f
  tidy-AllReady [] f n h tidy small ok = tt
  tidy-AllReady (insert source len ∷ ops) f n h tidy small ok =
      let few : n < 2 ^ 31 = omega arith in
      let d =
        insert_into-Stored f n fd source len stack fresh h few ok.0 ok.1
          (λ k l. inr (tidy k l).0) in
      let (m, whole, le, tidy') =
        insert_into-AllTidy f n fd source len stack fresh h few ok.0 ok.1 tidy in
      let g = (run_op fd stack fresh (insert source len) f).1 in
      let same : d.pages ≡ m = omega (arith, d.heap.whole) in
      (
        (ok.0, ok.1, omega (arith, h.whole), λ k l. inr (tidy k (omega (arith, h.whole))).0),
        tidy-AllReady ops g m (subst (IsHeap g) same d.heap) tidy' (omega arith) ok.2,
      )
  tidy-AllReady (get r size ∷ ops) f n h tidy small ok =
      let ready : IsReady (get r size) f = (ok.0, omega (arith, h.whole)) in
      let (b, s, h') = run_op-get_keeps fd stack fresh r size f n h ready in
      (
        ready,
        tidy-AllReady ops (run_op fd stack fresh (get r size) f).1 n h'
            (subst (λ bytes. AllTidy bytes n) (sym b) tidy) (omega arith) ok.1,
      )
  tidy-AllReady (delete r ∷ ops) f n h tidy small ok =
      let d = heap_delete-Removed f n fd r stack h (omega arith) in
      (
        omega (arith, h.whole),
        later-AllReady ops (run_op fd stack fresh (delete r) f).1 n d.heap (omega arith) ok,
      )

  -- On a new heap file with no failing call, every sequence of fewer than 2^31 operations that
  -- inserts records of 1 to 4086 bytes and looks records up into a buffer, and once it deletes
  -- inserts no more, gives the answers of an abstract store that is empty at first; nothing is
  -- asked of the pages.
  pub session-Conforms :
      (ops : List Op) (f : File)
      → f.script ≡ []
      → f.size ≡ 0
      → length ops < 2 ^ 31
      → InsertsFirst ops
      → let (answers, g) = run fd stack fresh ops f in
        Conforms (λ r. none) ops answers (heap_lookup g)
  session-Conforms ops f quiet empty small ok =
      let h : IsHeap f 0 = record {
        quiet = quiet;
        whole = empty;
        valid = λ k l. absurd (omega arith);
      } in
      let new : (r : Rid) → heap_lookup f r ≡ none = λ r.
        ap (heap_lookup f) (rid_eta r r.page_id refl)
        ∙ heap_lookup_out f 0 h r.page_id r.slot_id (omega arith) in
      let (answers, g) = run fd stack fresh ops f in
      subst (λ store. Conforms store ops answers (heap_lookup g)) (λ i r. new r i)
        (run-Conforms fd stack fresh ops f (0, h)
          (tidy-AllReady ops f 0 h (λ k l. absurd (omega arith)) (omega arith) ok))
