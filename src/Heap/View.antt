-- ===== src/Heap/View.antt =====
-- A heap file as a map from record ids to records, and its invariant.
use cs_lab.Base.{
  ℕ, ◌+◌, ◌*◌, ◌/◌, ◌≤◌, ◌<◌, ◌≡◌, ◌≢◌, ◌⊎◌, arith, ltb, ==-refl, ne→==, lt→ltb, ge→ltb, Bool,
  false, true, ◌&&◌, ◌==◌, Option, none, List, [], if◌then◌else◌,
}
use native.Mathlib.Decide.{ℕ_discrete, dec_lt}
use cs_lab.Memory.{Mem}
use cs_lab.Posix.{File}
use cs_lab.Page.Layout.{IsValid, lookup}
use cs_lab.Page.Window.{SameFront, window-IsValid, lookup-window}
use cs_lab.PageFile.Idle.{page_at, written, written_in, written_out, pages_apart}
use cs_lab.Heap.{Rid, rid}

-- What the file stores under a record id.
unfoldable pub heap_lookup : File → Rid → Option (List ℕ)
heap_lookup f r =
    if ltb r.page_id (f.size / 4096) then lookup (page_at f.bytes r.page_id) r.slot_id else none

-- `n` valid pages, and no call fails.
pub record IsHeap (f : File) (n : ℕ) : Type 0 where
  pub quiet : f.script ≡ []
  pub whole : f.size ≡ n * 4096
  pub valid : (k : ℕ) → k < n → IsValid (page_at f.bytes k)

unfoldable pub same_rid : Rid → Rid → Bool
same_rid a b = (a.page_id == b.page_id) && (a.slot_id == b.slot_id)

pub same_rid_page :
    (r : Rid) (k slot : ℕ) → r.page_id ≡ k → same_rid r (rid k slot) ≡ (r.slot_id == slot)
unfolding same_rid
same_rid_page r k slot e = rw (e, ==-refl k)

pub same_rid_ne : (r : Rid) (k slot : ℕ) → r.page_id ≢ k → same_rid r (rid k slot) ≡ false
unfolding same_rid
same_rid_ne r k slot ne = rw (ne→== r.page_id k ne)

pub same_rid_eq : (a b : Rid) → same_rid a b ≡ true → a ≡ b
unfolding same_rid
same_rid_eq a b h = elim (ℕ_discrete a.page_id b.page_id) [
  | no ne ↦ absurd (let e = ne→== a.page_id b.page_id ne in cc)
  | yes e ↦ elim (ℕ_discrete a.slot_id b.slot_id) [
    | no ne ↦
        absurd (let e' = ne→== a.slot_id b.slot_id ne in let d = ==-refl b.page_id in ground arith)
    | yes e' ↦ λ i. record { page_id = e i; slot_id = e' i }
  ]
]

pub rid_eta : (r : Rid) (k : ℕ) → r.page_id ≡ k → r ≡ rid k r.slot_id
rid_eta r k e = λ i. record { page_id = e i; slot_id = r.slot_id }

pub heap_lookup_inside :
    (f : File) (r : Rid)
    → r.page_id < f.size / 4096
    → heap_lookup f r ≡ lookup (page_at f.bytes r.page_id) r.slot_id
unfolding heap_lookup
heap_lookup_inside f r l = rw (lt→ltb r.page_id (f.size / 4096) l)

module _ (f : File) (n : ℕ) (h : IsHeap f n) (k i : ℕ) where
  pub heap_lookup_in : k < n → heap_lookup f (rid k i) ≡ lookup (page_at f.bytes k) i
  unfolding heap_lookup
  heap_lookup_in l = rw (lt→ltb k (f.size / 4096) (omega (arith, h.whole)))

  pub heap_lookup_out : n ≤ k → heap_lookup f (rid k i) ≡ none
  unfolding heap_lookup
  heap_lookup_out le = rw (ge→ltb k (f.size / 4096) (omega (arith, h.whole)))

-- The bytes of the other pages stay when one page is written.
pub page_at-written_self :
    (b : Mem) (s k : ℕ) (page : Mem) → SameFront page (page_at (written b s (k * 4096) page) k)
page_at-written_self b s k page a h = written_in b s (k * 4096) page a h

pub page_at-written_ne :
    (b : Mem) (s k j : ℕ) (page : Mem)
    → k * 4096 ≤ s
    → j ≢ k
    → SameFront (page_at b j) (page_at (written b s (k * 4096) page) j)
page_at-written_ne b s k j page le ne a h =
    written_out b s (k * 4096) page (j * 4096 + a) le (pages_apart j k a h ne)

-- A heap file with a valid page written into it, or behind it, is one again.
module _ (f g : File) (n m k : ℕ) (page : Mem) (h : IsHeap f n) (at : k ≤ n) (quiet : g.script ≡ [])
    (bytes : g.bytes ≡ written f.bytes f.size (k * 4096) page) (size : g.size ≡ m * 4096)
    (grows : ((m ≡ n) × (k < n)) ⊎ ((m ≡ n + 1) × (k ≡ n))) (v : IsValid page) where
  pages_kept : (j : ℕ) → j ≢ k → SameFront (page_at f.bytes j) (page_at g.bytes j)
  pages_kept j ne =
      rw bytes (page_at-written_ne f.bytes f.size k j page (omega (arith, h.whole)) ne)

  page_new : SameFront page (page_at g.bytes k)
  page_new = rw bytes (page_at-written_self f.bytes f.size k page)

  pub written-IsHeap : IsHeap g m
  written-IsHeap = record {
    quiet = quiet;
    whole = size;
    valid = λ j l. elim (ℕ_discrete j k) [
      | yes e ↦ rw e (window-IsValid page (page_at g.bytes k) page_new v)
      | no ne ↦
          window-IsValid (page_at f.bytes j) (page_at g.bytes j) (pages_kept j ne)
            (h.valid j (omega arith))
    ];
  }

  pub heap_lookup-written_self :
      (i : ℕ) (r : Rid) → r.page_id ≡ k → heap_lookup g r ≡ lookup page r.slot_id
  unfolding heap_lookup
  heap_lookup-written_self i r e =
      rw (e, lt→ltb k (g.size / 4096) (omega arith))
        (lookup-window page (page_at g.bytes k) page_new v r.slot_id)

  pub heap_lookup-written_ne : (r : Rid) → r.page_id ≢ k → heap_lookup g r ≡ heap_lookup f r
  unfolding heap_lookup
  heap_lookup-written_ne r ne = elim (dec_lt r.page_id n) [
    | yes l ↦
        rw
          (
            lt→ltb r.page_id (g.size / 4096) (omega arith),
            lt→ltb r.page_id (f.size / 4096) (omega (arith, h.whole)),
          )
          (lookup-window (page_at f.bytes r.page_id) (page_at g.bytes r.page_id)
            (pages_kept r.page_id ne) (h.valid r.page_id l) r.slot_id)
    | no out ↦ rw (
      ge→ltb r.page_id (g.size / 4096) (omega arith),
      ge→ltb r.page_id (f.size / 4096) (omega (arith, h.whole)),
    )
  ]
