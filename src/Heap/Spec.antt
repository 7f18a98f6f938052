-- ===== src/Heap/Spec.antt =====
-- What a heap file promises, without pages and bytes: a map from record ids to records, which hands
-- out the ids itself; and the programs that use it.
use cs_lab.Base.{
  ℕ, ◌≡◌, Bool, Option, none, some, List, [], ◌∷◌, if◌then◌else◌, is_some, length, leb,
}
use cs_lab.Memory.{Mem, bytes}
use cs_lab.Posix.{File}
use cs_lab.Heap.{Rid, HeapFile, insert_into, get_from, heap_delete}
use cs_lab.Heap.View.{same_rid}

pub data Op : Type 0 where
  insert : (source : Mem) (len : ℕ) → Op
  get : Rid → (buffer_size : ℕ) → Op
  delete : Rid → Op

pub data Answer : Type 0 where
  stored_at : Option Rid → Answer
  content : Option (List ℕ) → Answer
  deleted : Bool → Answer

abbrev pub Store : Type 0
Store = Rid → Option (List ℕ)

abbrev pub fitting : Option (List ℕ) → ℕ → Option (List ℕ)
fitting none size = none
fitting (some t) size = if leb (length t) size then some t else none

-- What an operation may answer, and the store that it leaves: an insertion chooses its id among
-- those not in use, all else is determined.
abbrev pub Allowed : Store → Op → Answer → Store → Type 0
Allowed s (insert source len) a s' =
    (new : Rid) × (a ≡ stored_at (some new))
    × (s new ≡ none)
    × ((r : Rid) → s' r ≡ (if same_rid r new then some (bytes source 0 len) else s r))
Allowed s (get r size) a s' = (a ≡ content (fitting (s r) size)) × ((j : Rid) → s' j ≡ s j)
Allowed s (delete r) a s' =
    (a ≡ deleted (is_some (s r))) × ((j : Rid) → s' j ≡ (if same_rid j r then none else s j))

-- The operations give these answers in turn and lead from the first store to the last.
abbrev pub Conforms : Store → List Op → List Answer → Store → Type 0
Conforms s [] [] s' = (r : Rid) → s' r ≡ s r
Conforms s [] (_ ∷ _) s' = ⊥
Conforms s (_ ∷ _) [] s' = ⊥
Conforms s (op ∷ ops) (a ∷ answers) s' = (t : Store) × Allowed s op a t × Conforms t ops answers s'

abbrev pub read_out : Option ℕ × Mem × File → Answer × File
read_out (none, out, g) = (content none, g)
read_out (some n, out, g) = (content (some (bytes out 0 n)), g)

abbrev pub opened_heap : ℕ → HeapFile
opened_heap fd = record { fd = some fd }

-- What a caller of the operations on an open heap sees. `stack` and `fresh` are what the local
-- arrays hold, and the buffer of a `get` is zeroed.
module _ (fd : ℕ) (stack fresh : Mem) where
  abbrev pub run_op : Op → File → Answer × File
  run_op (insert source len) f =
      let (r, g) = insert_into (opened_heap fd) source len stack fresh f in (stored_at r, g)
  run_op (get r size) f = read_out (get_from (opened_heap fd) r (λ _. 0) size stack f)
  run_op (delete r) f =
      let (n, g) = heap_delete (some (opened_heap fd)) r stack f in (deleted (is_some n), g)

  abbrev pub run : List Op → File → List Answer × File
  run [] f = ([], f)
  run (op ∷ ops) f = let (a, g) = run_op op f in let (answers, h) = run ops g in (a ∷ answers, h)
