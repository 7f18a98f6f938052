-- ===== src/Heap/Trace.antt =====
-- Every sequence of operations on a heap file is one of the abstract store.
use cs_lab.Base.{
  ℕ, ◌*◌, ◌/◌, ◌^◌, ◌≤◌, ◌<◌, ◌≡◌, ◌≢◌, ◌∙◌, ap, refl, arith, Option, none, some, List, [], ◌∷◌,
  if◌then◌else◌, length, leb, leb→le, Bool-cases, inl, inr,
}
use cs_lab.Memory.{Mem, bytes}
use cs_lab.Posix.{File}
use cs_lab.PageFile.Idle.{page_at}
use cs_lab.Page.Get.{fetched}
use cs_lab.Heap.{Rid, get_from}
use cs_lab.Heap.View.{IsHeap, heap_lookup}
use cs_lab.Heap.Store.{IsRoomy}
use cs_lab.Heap.Insert.{insert_into-Stored}
use cs_lab.Heap.Get.{Got, get_from-Got}
use cs_lab.Heap.Delete.{heap_delete-Removed}
use cs_lab.Heap.Spec.{
  Op, insert, get, delete, Answer, stored_at, content, deleted, fitting, Allowed, Conforms,
  opened_heap, read_out, run_op, run,
}

-- What an operation asks of the heap. An insertion compacts only pages whose records are in order.
abbrev pub IsReady : Op → File → Type 0
IsReady (insert source len) f =
    (len ≢ 0)
    × (len ≤ 4086)
    × (f.size < 2 ^ 31 * 4096)
    × ((k : ℕ) → k < f.size / 4096 → IsRoomy (page_at f.bytes k) len)
IsReady (get r size) f = (size ≢ 0) × (f.size < 2 ^ 32 * 4096)
IsReady (delete r) f = f.size < 2 ^ 32 * 4096

abbrev pub IsOpen : File → Type 0
IsOpen f = (n : ℕ) × IsHeap f n

-- The answer of an operation is allowed, and the heap is well-formed afterwards.
abbrev Sound : File → Op → Answer × File → Type 0
Sound f op (a, g) = Allowed (heap_lookup f) op a (heap_lookup g) × IsOpen g

same_lookup :
    (f g : File)
    → g.bytes ≡ f.bytes
    → g.size ≡ f.size
    → (r : Rid) → heap_lookup g r ≡ heap_lookup f r
unfolding heap_lookup
same_lookup f g b s r = rw (b, s) refl

kept-IsHeap :
    (f g : File) (n : ℕ)
    → IsHeap f n
    → g.bytes ≡ f.bytes
    → g.size ≡ f.size
    → g.script ≡ []
    → IsHeap g n
kept-IsHeap f g n h b s q = record {
  quiet = q;
  whole = s ∙ h.whole;
  valid = λ k l. rw b (h.valid k l);
}

read_out-file : (out : Option ℕ × Mem × File) → (read_out out).1 ≡ out.2
read_out-file (none, o, g) = refl
read_out-file (some n, o, g) = refl

-- The bytes of the buffer that a caller reads are the record's.
read_out-answer :
    (t : Option (List ℕ)) (size : ℕ) (out : Option ℕ × Mem × File)
    → out.0 ≡ fetched t size
    → ((u : List ℕ) → t ≡ some u → length u ≤ size → bytes out.1 0 (length u) ≡ u)
    → (read_out out).0 ≡ content (fitting t size)
read_out-answer none size (none, o, g) e c = refl
read_out-answer none size (some n, o, g) e c = grind arith
read_out-answer (some u) size (r, o, g) e c = elim (Bool-cases (leb (length u) size)) [
  | inl fits ↦ rw fits (
      rw (e ∙ ap (λ b. if b then some (length u) else none) fits)
        (ap (λ v. content (some v)) (c u refl (leb→le (length u) size fits))))
  | inr large ↦ rw large (rw (e ∙ ap (λ b. if b then some (length u) else none) large) refl)
]

module _ (fd : ℕ) (stack fresh : Mem) where
  insert-Sound :
      (source : Mem) (len : ℕ) (f : File) (n : ℕ)
      → IsHeap f n
      → IsReady (insert source len) f
      → Sound f (insert source len) (run_op fd stack fresh (insert source len) f)
  insert-Sound source len f n h ready =
      let d =
        insert_into-Stored f n fd source len stack fresh h (omega (arith, h.whole, ready.2)) ready.0
          ready.1 (λ k l. ready.3 k (omega (arith, h.whole))) in
      ((d.new, ap stored_at d.result, d.unused, d.same), (d.pages, d.heap))

  -- A lookup leaves the file, but for its offset.
  pub run_op-get_keeps :
      (r : Rid) (size : ℕ) (f : File) (n : ℕ)
      → IsHeap f n
      → IsReady (get r size) f
      → let g = (run_op fd stack fresh (get r size) f).1 in
        (g.bytes ≡ f.bytes) × (g.size ≡ f.size) × IsHeap g n
  run_op-get_keeps r size f n h ready =
      let out = get_from (opened_heap fd) r (λ _. 0) size stack f in
      let d =
        get_from-Got f n fd r (λ _. 0) size stack h (omega (arith, h.whole, ready.1)) ready.0 in
      let g = (read_out out).1 in
      let same = read_out-file out in
      let bytes_kept = ap (λ e. e.bytes) same ∙ d.file_bytes in
      let size_kept = ap (λ e. e.size) same ∙ d.file_size in
      (
        bytes_kept,
        size_kept,
        kept-IsHeap f g n h bytes_kept size_kept (ap (λ e. e.script) same ∙ d.quiet),
      )

  get-Sound :
      (r : Rid) (size : ℕ) (f : File) (n : ℕ)
      → IsHeap f n
      → IsReady (get r size) f
      → Sound f (get r size) (run_op fd stack fresh (get r size) f)
  get-Sound r size f n h ready =
      let out = get_from (opened_heap fd) r (λ _. 0) size stack f in
      let d : Got f r (λ _. 0) size out =
        get_from-Got f n fd r (λ _. 0) size stack h (omega (arith, h.whole, ready.1)) ready.0 in
      let g = (read_out out).1 in
      let (bytes_kept, size_kept, h') = run_op-get_keeps r size f n h ready in
      (
        (
          read_out-answer (heap_lookup f r) size out d.result d.content,
          same_lookup f g bytes_kept size_kept,
        ),
        (n, h'),
      )

  delete-Sound :
      (r : Rid) (f : File) (n : ℕ)
      → IsHeap f n
      → IsReady (delete r) f
      → Sound f (delete r) (run_op fd stack fresh (delete r) f)
  delete-Sound r f n h ready =
      let d = heap_delete-Removed f n fd r stack h (omega (arith, h.whole)) in
      ((ap deleted d.result, d.same), (n, d.heap))

  run_op-Sound :
      (op : Op) (f : File) → IsOpen f → IsReady op f → Sound f op (run_op fd stack fresh op f)
  run_op-Sound (insert source len) f (n, h) = insert-Sound source len f n h
  run_op-Sound (get r size) f (n, h) = get-Sound r size f n h
  run_op-Sound (delete r) f (n, h) = delete-Sound r f n h

  -- Each operation finds the heap ready.
  abbrev pub AllReady : List Op → File → Type 0
  AllReady [] f = Unit
  AllReady (op ∷ ops) f = IsReady op f × AllReady ops (run_op fd stack fresh op f).1

  -- Every sequence of insertions, lookups and deletions on an open heap file with no failing call,
  -- in which each insertion of 1 to 4086 bytes finds fewer than 2^31 pages, all with room or
  -- compactable, and each lookup and deletion fewer than 2^32 pages and a buffer size that is not
  -- 0, gives the answers of an abstract store: an insertion answers an id that was not in use and
  -- stores the record there, a lookup answers the record under the id where it fits the buffer, a
  -- deletion answers whether the id was in use and removes it, and nothing else changes.
  pub run-Conforms :
      (ops : List Op) (f : File)
      → IsOpen f
      → AllReady ops f
      → let (answers, g) = run fd stack fresh ops f in
        Conforms (heap_lookup f) ops answers (heap_lookup g)
  run-Conforms [] f open_f ready = λ r. refl
  run-Conforms (op ∷ ops) f open_f (ready, later) =
      let (a, g) = run_op fd stack fresh op f in
      let sound = run_op-Sound op f open_f ready in
      (heap_lookup g, sound.0, run-Conforms ops g sound.1 later)
