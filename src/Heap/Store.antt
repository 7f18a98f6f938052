-- ===== src/Heap/Store.antt =====
-- A record in a page, and the page in a heap file: what a stored record means for the file.
use cs_lab.Base.{
  true, [], ℕ, ◌+◌, ◌*◌, ◌%◌, ◌^◌, ◌≤◌, ◌<◌, ◌≡◌, ◌≢◌, ◌∙◌, ◌⊎◌, inl, inr, sym, arith, refl, ap,
  Option, none, some, ◌==◌, if◌then◌else◌, ne→==, is_some,
}
use native.Mathlib.Decide.{ℕ_discrete}
use cs_lab.Memory.{Mem, bytes}
use cs_lab.Posix.{File}
use cs_lab.Page.{current_free, insert_checked, insert_record, needed_space}
use cs_lab.Page.Layout.{IsValid, IsCompactable, lookup}
use cs_lab.Page.Insert.Slot.{reusable, needed_space-le}
use cs_lab.Page.Insert.Outcome.{
  insert_record-IsValid, insert_record-stores, insert_record-unused, insert_record-in_directory,
}
use cs_lab.Page.Window.{SameFront, word, window-IsCompactable}
use cs_lab.PageFile.Idle.{written}
use cs_lab.Heap.{Rid, rid}
use cs_lab.Heap.View.{
  IsHeap, heap_lookup, same_rid, same_rid_page, same_rid_ne, rid_eta, written-IsHeap,
  heap_lookup-written_self, heap_lookup-written_ne,
}

-- The page takes a record of `len` bytes without compaction, or can be compacted.
abbrev pub IsRoomy : Mem → ℕ → Type 0
IsRoomy p len = (len + 4 ≤ current_free p) ⊎ IsCompactable p

-- The record is stored under the id that is returned, which was not in use; nothing else changes.
pub record Stored (f : File) (source : Mem) (len : ℕ) (out : Option Rid × File) : Type 0 where
  pub new : Rid
  pub result : out.0 ≡ some new
  pub unused : heap_lookup f new ≡ none
  pub pages : ℕ
  pub heap : IsHeap out.1 pages
  pub same :
      (r : Rid)
      → heap_lookup out.1 r
        ≡ (if same_rid r new then some (bytes source 0 len) else heap_lookup f r)

-- What an accepted insertion into a valid page gives.
pub record Accepted (p source : Mem) (len slot : ℕ) (q : Mem) : Type 0 where
  pub valid : IsValid q
  pub small : slot < 65536
  pub unused : lookup p slot ≡ none
  pub holds : (i : ℕ) → lookup q i ≡ (if i == slot then some (bytes source 0 len) else lookup p i)

module _ (p source : Mem) (len : ℕ) (v : IsValid p) (some_length : len ≢ 0)
    (roomy : IsRoomy p len) where
  pub checked : insert_checked p source len ≡ insert_record p source len
  unfolding insert_checked
  checked = rw (ne→== len 0 some_length)

  safe : current_free p < needed_space len (reusable p) → IsCompactable p
  safe h = elim roomy [
    | inl room ↦ absurd (omega (arith, needed_space-le len (reusable p)))
    | inr c ↦ c
  ]

  pub accepted :
      (slot : ℕ) (q : Mem)
      → insert_checked p source len ≡ (some slot, q)
      → Accepted p source len slot q
  accepted slot q e =
      let e' = sym checked ∙ e in
      let id : (insert_record p source len).0 ≡ some slot = ap (λ o. o.0) e' in
      let page : (insert_record p source len).1 ≡ q = ap (λ o. o.1) e' in
      let v' = insert_record-IsValid p source len v in
      record {
        valid = rw page at v';
        small = omega (
          arith,
          insert_record-in_directory p source len v slot id,
          v'.room,
          v'.gap,
          v'.directory,
        );
        unused = insert_record-unused p source len v slot id;
        holds = λ i. rw (← page, insert_record-stores p source len v some_length safe i, id);
      }

-- A page that holds a new record, written into a heap or behind it.
module _ (f g : File) (n m k : ℕ) (page source : Mem) (len slot : ℕ) (h : IsHeap f n) (at : k ≤ n)
    (quiet : g.script ≡ []) (bytes_written : g.bytes ≡ written f.bytes f.size (k * 4096) page)
    (size : g.size ≡ m * 4096) (grows : ((m ≡ n) × (k < n)) ⊎ ((m ≡ n + 1) × (k ≡ n)))
    (a : (i : ℕ)
      → lookup page i ≡ (if i == slot then some (bytes source 0 len) else heap_lookup f (rid k i)))
    (v : IsValid page) (small : slot < 65536) (free : heap_lookup f (rid k slot) ≡ none) where
  pub Stored-by : Stored f source len (some (rid k (slot % 2 ^ 16)), g)
  Stored-by =
      let plain : slot % 2 ^ 16 ≡ slot = omega arith in
      rw plain (record {
        new = rid k slot;
        result = refl;
        unused = free;
        pages = m;
        heap = written-IsHeap f g n m k page h at quiet bytes_written size grows v;
        same = λ r. elim (ℕ_discrete r.page_id k) [
          | yes e ↦
              heap_lookup-written_self f g n m k page h at quiet bytes_written size grows v 0 r e
              ∙ a r.slot_id
              ∙ rw (same_rid_page r k slot e) (
                  ap (λ t. if r.slot_id == slot then some (bytes source 0 len) else heap_lookup f t)
                    (sym (rid_eta r k e)))
          | no ne ↦
              heap_lookup-written_ne f g n m k page h at quiet bytes_written size grows v r ne
              ∙ rw (same_rid_ne r k slot ne)
        ];
      })

pub some_of : (o : Option ℕ) → is_some o ≡ true → (k : ℕ) × (o ≡ some k)
some_of none e = cc
some_of (some k) e = (k, refl)

-- A heap that stores the same may stand for another one.
pub Stored-same :
    (f f' : File) (source : Mem) (len : ℕ) (out : Option Rid × File)
    → ((r : Rid) → heap_lookup f' r ≡ heap_lookup f r)
    → Stored f' source len out
    → Stored f source len out
Stored-same f f' source len out same d = record {
  new = d.new;
  result = d.result;
  unused = sym (same d.new) ∙ d.unused;
  pages = d.pages;
  heap = d.heap;
  same =
      λ r. d.same r ∙ ap (λ t. if same_rid r d.new then some (bytes source 0 len) else t) (same r);
}

pub IsRoomy-window :
    (p q : Mem) (len : ℕ) → SameFront p q → IsValid p → IsRoomy p len → IsRoomy q len
IsRoomy-window p q len same v roomy = elim roomy [
  | inl room ↦ inl (omega (arith, word p q same 2 (omega arith), word p q same 4 (omega arith)))
  | inr c ↦ inr (window-IsCompactable p q same v c)
]
