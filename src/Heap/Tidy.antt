-- ===== src/Heap/Tidy.antt =====
-- A heap file whose pages have no deleted slot stays one when records are inserted.
use cs_lab.Base.{
  ℕ, ◌+◌, ◌*◌, ◌%◌, ◌^◌, ◌≤◌, ◌<◌, ◌≡◌, ◌≢◌, ◌∙◌, sym, ap, refl, arith, some, inr, ge→ltb, Option,
  subst,
}
use native.Mathlib.Decide.{ℕ_discrete}
use cs_lab.Memory.{Mem}
use cs_lab.Posix.{File}
use cs_lab.Page.{insert_checked, insert_record, init_page}
use cs_lab.Page.Layout.{IsTidy, IsValid}
use cs_lab.Page.Init.{init_page-IsValid, init_page-IsTidy}
use cs_lab.Page.Window.{SameFront, window-IsValid, window-IsTidy}
use cs_lab.Page.Insert.Tidy.{insert_record-IsTidy}
use cs_lab.PageFile.{page_allocate}
use cs_lab.PageFile.Idle.{idle, idle_lem, page_at, written}
use cs_lab.Heap.{Tried, Rid, insert_into, insert_counted, try_pages, after_scan, rid, append_page}
use cs_lab.Heap.View.{IsHeap, page_at-written_self, page_at-written_ne}
use cs_lab.Heap.Scan.{found, nothing, Scanned, try_pages-Scanned}
use cs_lab.Heap.Store.{checked, accepted}
use cs_lab.Heap.Insert.{count-idle, first_record, append_page-idle}

-- A page that took a record.
taken-IsTidy :
    (p source : Mem) (len slot : ℕ) (r : Mem)
    → IsValid p
    → len ≢ 0
    → IsTidy p
    → insert_checked p source len ≡ (some slot, r)
    → IsTidy r
taken-IsTidy p source len slot r v some_length tidy took =
    let page : (insert_record p source len).1 ≡ r =
      ap (λ o. o.1) (sym (checked p source len v some_length (inr tidy.0)) ∙ took) in
    subst IsTidy page (insert_record-IsTidy p source len v some_length tidy)

-- No page of a heap of `n` pages has a deleted slot.
abbrev pub AllTidy : Mem → ℕ → Type 0
AllTidy b n = (k : ℕ) → k < n → IsTidy (page_at b k)

-- A tidy page written into the pages or behind them.
written-AllTidy :
    (b : Mem) (s n m k : ℕ) (r : Mem)
    → k * 4096 ≤ s
    → ((j : ℕ) → j < m → j ≢ k → (j < n) × IsValid (page_at b j))
    → AllTidy b n
    → IsValid r
    → IsTidy r
    → AllTidy (written b s (k * 4096) r) m
written-AllTidy b s n m k r inside others tidy v good j l = elim (ℕ_discrete j k) [
  | yes e ↦
      rw e (
        window-IsTidy r (page_at (written b s (k * 4096) r) k) (page_at-written_self b s k r) v
          good)
  | no ne ↦
      let (l', v') = others j l ne in
      window-IsTidy (page_at b j) (page_at (written b s (k * 4096) r) j)
        (page_at-written_ne b s k j r inside ne) v' (tidy j l')
]

module _ (b : Mem) (s pos n fd : ℕ) (source : Mem) (len : ℕ) (fresh : Mem)
    (h : IsHeap (idle b s pos) n) (small : n < 2 ^ 31) (some_length : len ≢ 0) (fits : len ≤ 4086)
    (tidy : AllTidy b n) where
  -- The file behind an insertion has at most a page more, and tidy pages.
  abbrev Grown : Option Rid × File → Type 0
  Grown (r, g) = (m : ℕ) × (g.size ≡ m * 4096) × (m ≤ n + 1) × AllTidy g.bytes m

  in_page-Grown :
      (k slot pos' : ℕ) (q r : Mem)
      → k < n
      → SameFront (page_at b k) q
      → insert_checked q source len ≡ (some slot, r)
      → Grown (some (rid k (slot % 2 ^ 16)), idle (written b s (k * 4096) r) s pos')
  in_page-Grown k slot pos' q r l same took =
      let v = window-IsValid (page_at b k) q same (h.valid k l) in
      let good = window-IsTidy (page_at b k) q same (h.valid k l) (tidy k l) in
      (
        n,
        h.whole,
        omega arith,
        written-AllTidy b s n n k r (omega (arith, h.whole)) (λ j l' ne. (l', h.valid j l')) tidy
            (accepted q source len v some_length (inr good.0) slot r took).valid
            (taken-IsTidy q source len slot r v some_length good took),
      )

  behind_pages-Grown :
      (array : Mem) (pos' : ℕ)
      → Grown
          (append_page (some fd) source len array (page_allocate (some fd) fresh (idle b s pos')))
  behind_pages-Grown array pos' =
      let (slot, r, took) =
        first_record b s pos n fd source len fresh h small some_length fits
          (λ k l. inr (tidy k l).0) array in
      let first = init_page fresh in
      let b' = written b s (n * 4096) first in
      let v = init_page-IsValid array in
      let good = init_page-IsTidy array in
      let r_valid =
        (accepted (init_page array) source len v some_length (inr good.0) slot r took).valid in
      let once : AllTidy b' (n + 1) =
        written-AllTidy b s n (n + 1) n first (omega (arith, h.whole))
          (λ j l ne. (omega arith, h.valid j (omega arith))) tidy (init_page-IsValid fresh)
          (init_page-IsTidy fresh) in
      rw (append_page-idle b s n fd source len fresh h.whole small array pos' slot r took) (
        n + 1,
        omega (arith, h.whole),
        omega arith,
        written-AllTidy b' (s + 4096) (n + 1) (n + 1) n r (omega (arith, h.whole))
            (λ j l ne. (
              l,
              window-IsValid (page_at b j) (page_at b' j)
                  (page_at-written_ne b s n j first (omega (arith, h.whole)) ne)
                  (h.valid j (omega arith)),
            ))
            once r_valid (taken-IsTidy (init_page array) source len slot r v some_length good took),
      )

  after-Grown :
      (t : Tried × Mem × File)
      → Scanned b s n len source 0 t
      → Grown (after_scan (some fd) source len fresh t)
  unfolding after_scan
  after-Grown t (found k slot pos' q r le l same took) = in_page-Grown k slot pos' q r l same took
  after-Grown t (nothing pos' page all) = behind_pages-Grown page pos'

pub insert_into-AllTidy :
    (f : File) (n fd : ℕ) (source : Mem) (len : ℕ) (stack fresh : Mem)
    → IsHeap f n
    → n < 2 ^ 31
    → len ≢ 0
    → len ≤ 4086
    → AllTidy f.bytes n
    → let (r, g) = insert_into (record { fd = some fd }) source len stack fresh f in
      (m : ℕ) × (g.size ≡ m * 4096) × (m ≤ n + 1) × AllTidy g.bytes m
unfolding insert_into insert_counted
insert_into-AllTidy f n fd source len stack fresh h small some_length fits tidy =
    rw (idle_lem f h.quiet) (
      let small' : n < 2 ^ 32 = omega arith in
      let h' : IsHeap (idle f.bytes f.size f.pos) n = record {
        quiet = refl;
        whole = h.whole;
        valid = h.valid;
      } in
      rw (ge→ltb 4086 len fits, count-idle f.bytes f.size f.pos n fd h.whole small')
        (after-Grown f.bytes f.size f.pos n fd source len fresh h' small some_length fits tidy
          (try_pages (some fd) source len n 0 stack (idle f.bytes f.size f.size))
          (try_pages-Scanned f.bytes f.size n len source fd h.whole n 0 stack f.size
            (omega arith))))
