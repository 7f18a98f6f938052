-- ===== src/Heap/Reading.antt =====
-- What `heap_get` still promises when calls fail or end early.
use cs_lab.Base.{
  ℕ, ◌+◌, ◌*◌, ◌/◌, ◌≤◌, ◌<◌, ◌≡◌, ◌≢◌, ◌∙◌, sym, arith, refl, ap, Option, none, some, List, [],
  length, ◌==◌, leb, Bool-cases, inl, inr, leb→le, leb→gt, subst, ◌∷◌,
}
use cs_lab.Memory.{Mem, bytes}
use cs_lab.Posix.{File, Outcome, complete, short, failed, lseek_end}
use cs_lab.Page.{get_record}
use cs_lab.Page.Layout.{lookup}
use cs_lab.Page.Get.{fetched, get_record-Fetched}
use cs_lab.Page.Window.{lookup-window}
use cs_lab.PageFile.{read_into}
use cs_lab.PageFile.Idle.{page_at}
use cs_lab.PageFile.Content.{SameContent}
use cs_lab.PageFile.Reading.{IsPage, read_page-whole}
use cs_lab.Heap.{
  Rid, HeapFile, heap_page_count, page_count_of, count_pages, get_from, get_counted, get_read,
}
use cs_lab.Heap.View.{heap_lookup, heap_lookup_inside}
use cs_lab.Heap.Errors.{page_count_of-SameContent, get_from-SameContent}
use cs_lab.Heap.Survival.{IsSound}

-- A result that is not -1 is the length of the record under the id, whose bytes are in the buffer.
abbrev pub IsHonest : File → Rid → (size : ℕ) → Option ℕ × Mem × File → Type 0
IsHonest f r size (result, out, g) =
    (n : ℕ)
    → result ≡ some n
    → (t : List ℕ) × (heap_lookup f r ≡ some t) × (length t ≡ n) × (n ≤ size) × (bytes out 0 n ≡ t)

fetched-some :
    (o : Option (List ℕ)) (size n : ℕ)
    → fetched o size ≡ some n
    → (t : List ℕ) × (o ≡ some t) × (length t ≡ n) × (n ≤ size)
fetched-some none size n e = absurd (cc)
fetched-some (some t) size n e = elim (Bool-cases (leb (length t) size)) [
  | inl fits ↦
      let fits' = leb→le (length t) size fits in
      let e' : length t ≡ n = ground arith in (t, refl, e', omega arith)
  | inr big ↦ absurd (ground arith)
]

count-le : (fd : Option ℕ) (f : File) → (page_count_of fd f).0 ≤ f.size / 4096
unfolding page_count_of count_pages lseek_end
count-le none f = omega arith
count-le (some fd) f = go f.script
  where
    go : (l : List Outcome) → (page_count_of (some fd) (record f { script = l })).0 ≤ f.size / 4096
    go [] = omega arith
    go (complete ∷ l) = omega arith
    go (short k ∷ l) = omega arith
    go (failed ∷ l) = omega arith

read_into-whole :
    (fd : Option ℕ) (k : ℕ) (page : Mem) (f g : File)
    → SameContent f g
    → (read_into fd k page g).0 ≢ none
    → IsPage f k (read_into fd k page g).1
unfolding read_into
read_into-whole none k page f g same e = absurd (e refl)
read_into-whole (some fd) k page f g same e =
    let (fits, content) = read_page-whole k page g e in
    (omega (arith, same.1), λ a l. content a l ∙ ap (λ m. m (k * 4096 + a)) same.0)

module _ (f : File) (r : Rid) (buffer : Mem) (size : ℕ) (sound : IsSound f)
    (inside : r.page_id < f.size / 4096) where
  get_read-IsHonest :
      (t : Option ℕ × Mem × File)
      → (t.0 ≢ none → IsPage f r.page_id t.1)
      → IsHonest f r size (get_read r buffer size t)
  unfolding get_read
  get_read-IsHonest (none, page, h) whole n e = absurd (cc)
  get_read-IsHonest (some x, page, h) whole n e =
      let same = (whole (λ e'. absurd (cc))).1 in
      let found : lookup page r.slot_id ≡ heap_lookup f r =
        lookup-window (page_at f.bytes r.page_id) page same (sound r.page_id inside) r.slot_id
        ∙ sym (heap_lookup_inside f r inside) in
      let g = get_record-Fetched page r.slot_id buffer size in
      let (t, stored, long, fits) =
        fetched-some (lookup page r.slot_id) size n (sym g.result ∙ e) in
      (
        t,
        sym found ∙ stored,
        long,
        fits,
        subst (λ m. bytes (get_record page r.slot_id buffer size).1 0 m ≡ t) long
            (g.content t stored (omega arith)),
      )

get_from-IsHonest :
    (heap : HeapFile) (r : Rid) (buffer : Mem) (size : ℕ) (stack : Mem) (f : File)
    → IsSound f
    → IsHonest f r size (get_from heap r buffer size stack f)
unfolding get_from get_counted heap_page_count
get_from-IsHonest heap r buffer size stack f sound =
    let (n, g) = page_count_of heap.fd f in
    elim (Bool-cases (size == 0)) [
      | inl e ↦ rw e (λ n e'. absurd (cc))
      | inr e ↦ elim (Bool-cases (leb n r.page_id)) [
        | inl out ↦ rw (e, out) (λ n e'. absurd (cc))
        | inr l ↦
            let inside : r.page_id < f.size / 4096 =
              omega (arith, leb→gt n r.page_id l, count-le heap.fd f) in
            rw (e, l)
              (get_read-IsHonest f r buffer size sound inside (read_into heap.fd r.page_id stack g)
                (read_into-whole heap.fd r.page_id stack f g (page_count_of-SameContent heap.fd f)))
      ]
    ]

-- Whatever calls fail or end early, where `heap_get` on a file of valid pages returns a length, a
-- record of that length is stored under the id, it fits the buffer and its bytes are there; the
-- bytes and the size of the file stay.
pub get_from-keeps_promise :
    (heap : HeapFile) (r : Rid) (buffer : Mem) (size : ℕ) (stack : Mem) (f : File)
    → IsSound f
    → let out = get_from heap r buffer size stack f in IsHonest f r size out × SameContent f out.2
get_from-keeps_promise heap r buffer size stack f sound = (
  get_from-IsHonest heap r buffer size stack f sound,
  get_from-SameContent heap r buffer size stack f,
)
