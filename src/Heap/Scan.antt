-- ===== src/Heap/Scan.antt =====
-- The loop of `heap_insert` over the pages of a heap whose calls succeed.
use cs_lab.Base.{
  ℕ, zero, suc, ◌+◌, ◌*◌, ◌%◌, ◌^◌, ◌≤◌, ◌<◌, ◌≡◌, inl, inr, arith, ap, none, some, Option-cases,
}
use Prim.Native.Nat.{max}
use native.Mathlib.Decide.{ℕ_discrete}
use cs_lab.Memory.{Mem, memcpy}
use cs_lab.Posix.{File}
use cs_lab.Page.{insert_checked}
use cs_lab.Page.Window.{SameFront}
use cs_lab.PageFile.{read_into, page_write}
use cs_lab.PageFile.Idle.{idle, page_at, written, read_page-idle, memcpy-SameFront, write_page-idle}
use cs_lab.Heap.{rid, Tried, inserted, exhausted, try_pages, scan_read, insert_or_next, stored_in}

-- How the scan of the pages from `first` on ends: in the first page that takes the record, or
-- behind all of them. Nothing else of the file changes.
pub data Scanned (b : Mem) (s n source_len : ℕ) (source : Mem) (first : ℕ)
    : Tried × Mem × File → Type 0 where
  found :
      (k slot pos : ℕ) (q r : Mem)
      → first ≤ k
      → k < n
      → SameFront (page_at b k) q
      → insert_checked q source source_len ≡ (some slot, r)
      → Scanned b s n source_len source first
          (inserted (rid k (slot % 2 ^ 16)), r, idle (written b s (k * 4096) r) s pos)
  nothing :
      (pos : ℕ) (page : Mem)
      → ((k : ℕ)
          → first ≤ k
          → k < n
          → (q : Mem) × SameFront (page_at b k) q × ((insert_checked q source source_len).0 ≡ none))
      → Scanned b s n source_len source first (exhausted, page, idle b s pos)

module _ (b : Mem) (s n source_len : ℕ) (source : Mem) (fd : ℕ) (whole : s ≡ n * 4096) where
  -- A page that rejects the record goes before those that the rest of the scan looks at.
  widen :
      (first : ℕ) (q : Mem) {t : Tried × Mem × File}
      → SameFront (page_at b first) q
      → (insert_checked q source source_len).0 ≡ none
      → Scanned b s n source_len source (suc first) t
      → Scanned b s n source_len source first t
  widen first q same no_room (found k slot pos q' r le l same' ins) =
      found k slot pos q' r (omega arith) l same' ins
  widen first q same no_room (nothing pos page all) = nothing pos page (λ k le l.
      elim (ℕ_discrete k first) [ yes e ↦ rw e (q, same, no_room) | no ne ↦ all k (omega arith) l ])

  pub try_pages-Scanned :
      (rounds first : ℕ) (page : Mem) (pos : ℕ)
      → first + rounds ≡ n
      → Scanned b s n source_len source first
          (try_pages (some fd) source source_len rounds first page (idle b s pos))
  unfolding try_pages scan_read insert_or_next stored_in read_into page_write
  try_pages-Scanned zero first page pos e = nothing pos page (λ k le l. absurd (omega arith))
  try_pages-Scanned (suc rounds) first page pos e =
      let q = memcpy page 0 (page_at b first) 4096 in
      let same = memcpy-SameFront b first page in
      let got = read_page-idle b s pos first page (omega arith) in
      let r = (insert_checked q source source_len).1 in
      let after = first * 4096 + 4096 in
      let next : first + 1 ≡ suc first = omega arith in
      let end : max s after ≡ s = omega arith in
      elim (Option-cases (insert_checked q source source_len).0) [
        | inl full ↦
            rw (got, full, next)
              (widen first q same full (try_pages-Scanned rounds (suc first) r after (omega arith)))
        | inr (slot, took) ↦
            rw (got, took, write_page-idle b s after first r, end)
              (found first slot after q r (omega arith) (omega arith) same (ap (λ o. (o, r)) took))
      ]
