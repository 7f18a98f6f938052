-- ===== src/Heap/Get.antt =====
-- `heap_get`: with calls that succeed it looks the record up; whatever fails, it writes nothing.
use cs_lab.Base.{
  ℕ, ◌^◌, ◌≤◌, ◌<◌, ◌≡◌, ◌≢◌, ◌∙◌, sym, arith, refl, ap, Option, none, some, List, [], length, leb,
  Bool-cases, inl, inr, ne→==, leb→le, leb→gt,
}
use cs_lab.Memory.{Mem, memcpy, bytes}
use cs_lab.Posix.{File}
use cs_lab.Page.Layout.{lookup}
use cs_lab.Page.Get.{fetched, get_record-Fetched}
use cs_lab.Page.Window.{lookup-window}
use cs_lab.PageFile.{read_into}
use cs_lab.PageFile.Idle.{idle, idle_lem, page_at, read_page-idle, memcpy-SameFront}
use cs_lab.Heap.{Rid, get_from, get_counted, get_read}
use cs_lab.Heap.View.{IsHeap, heap_lookup, heap_lookup_in, heap_lookup_out, rid_eta}
use cs_lab.Heap.Insert.{count-idle}

-- What `heap_get` returns, puts into the buffer and leaves of the file.
pub record Got (f : File) (r : Rid) (buffer : Mem) (size : ℕ) (out : Option ℕ × Mem × File)
    : Type 0 where
  pub result : out.0 ≡ fetched (heap_lookup f r) size
  pub content :
      (t : List ℕ) → heap_lookup f r ≡ some t → length t ≤ size → bytes out.1 0 (length t) ≡ t
  pub beyond : (b : ℕ) → size ≤ b → out.1 b ≡ buffer b
  pub file_bytes : out.2.bytes ≡ f.bytes
  pub file_size : out.2.size ≡ f.size
  pub quiet : out.2.script ≡ []

module _ (b : Mem) (s pos n fd : ℕ) (r : Rid) (buffer : Mem) (size : ℕ) (stack : Mem)
    (h : IsHeap (idle b s pos) n) where
  outside : n ≤ r.page_id → Got (idle b s pos) r buffer size (none, buffer, idle b s s)
  outside le =
      let gone : heap_lookup (idle b s pos) r ≡ none =
        ap (heap_lookup (idle b s pos)) (rid_eta r r.page_id refl)
        ∙ heap_lookup_out (idle b s pos) n h r.page_id r.slot_id le in
      record {
        result = rw gone;
        content = λ t e. absurd (cc);
        beyond = λ a l. refl;
        file_bytes = refl;
        file_size = refl;
        quiet = refl;
      }

  inside :
      r.page_id < n
      → Got
          (idle b s pos)
          r
          buffer
          size
          (get_read r buffer size (read_into (some fd) r.page_id stack (idle b s s)))
  unfolding get_read read_into
  inside l =
      let q = memcpy stack 0 (page_at b r.page_id) 4096 in
      let same = memcpy-SameFront b r.page_id stack in
      let found : lookup q r.slot_id ≡ heap_lookup (idle b s pos) r =
        lookup-window (page_at b r.page_id) q same (h.valid r.page_id l) r.slot_id
        ∙ sym (heap_lookup_in (idle b s pos) n h r.page_id r.slot_id l) in
      let g = get_record-Fetched q r.slot_id buffer size in
      rw (read_page-idle b s s r.page_id stack (omega (arith, h.whole))) (record {
        result = g.result ∙ ap (λ t. fetched t size) found;
        content = λ t e. g.content t (found ∙ e);
        beyond = g.beyond;
        file_bytes = refl;
        file_size = refl;
        quiet = refl;
      })

-- On a heap file of fewer than 2^32 valid pages with no failing call and a buffer size that is not
-- 0, `heap_get` returns the length of the record under the id where there is one and it fits, and
-- then its bytes are in the buffer; else it returns -1. No byte behind the buffer size and none of
-- the file changes.
pub get_from-Got :
    (f : File) (n fd : ℕ) (r : Rid) (buffer : Mem) (size : ℕ) (stack : Mem)
    → IsHeap f n
    → n < 2 ^ 32
    → size ≢ 0
    → Got f r buffer size (get_from (record { fd = some fd }) r buffer size stack f)
unfolding get_from get_counted
get_from-Got f n fd r buffer size stack h small some_room =
    rw (idle_lem f h.quiet, ne→== size 0 some_room)
      (let h' : IsHeap (idle f.bytes f.size f.pos) n = record {
        quiet = refl;
        whole = h.whole;
        valid = h.valid;
      } in
        rw (count-idle f.bytes f.size f.pos n fd h.whole small)
          (elim (Bool-cases (leb n r.page_id)) [
            | inl out ↦
                rw out (
                  outside f.bytes f.size f.pos n fd r buffer size stack h' (leb→le n r.page_id out))
            | inr l ↦
                rw l
                  (inside f.bytes f.size f.pos n fd r buffer size stack h' (leb→gt n r.page_id l))
          ]))
