-- ===== src/Posix.antt =====
-- The calls of POSIX on one open file that the code makes, as POSIX.1 describes them: the file's
-- bytes, its size and offset, and a script that says how each of the next calls ends. With the
-- script used up every call does all that is asked of it. The result -1 is `none`.
use cs_lab.Base.{
  ℕ, ◌+◌, ◌-◌, ◌&&◌, Bool, true, false, Option, none, some, List, [], ◌∷◌, ltb, leb, ◌==◌,
  if◌then◌else◌,
}
use Prim.Native.Nat.{min, max}
use cs_lab.Memory.{Mem, memcpy}

-- How a call ends: done in full, after at most so many bytes, or with an error.
pub data Outcome : Type 0 where
  complete : Outcome
  short : ℕ → Outcome
  failed : Outcome

pub record File : Type 0 where
  pub bytes : Mem
  pub size : ℕ
  pub pos : ℕ
  pub script : List Outcome

unfoldable pub next_outcome : File → Outcome × File
next_outcome f = go f.script
  where
    go : List Outcome → Outcome × File
    go [] = (complete, f)
    go (o ∷ rest) = (o, record f { script = rest })

-- The bytes that a call transfers, of `n` that it could.
abbrev pub granted : Outcome → ℕ → Option ℕ
granted complete n = some n
granted (short k) n = some (min k n)
granted failed n = none

abbrev pub succeeds : Outcome → Bool
succeeds failed = false
succeeds _ = true

-- `lseek(fd, offset, SEEK_SET)`
unfoldable pub lseek_set : ℕ → File → Option ℕ × File
unfolding next_outcome
lseek_set offset f =
    let (o, g) = next_outcome f in
    if succeeds o then (some offset, record g { pos = offset }) else (none, g)

-- `lseek(fd, 0, SEEK_END)`
unfoldable pub lseek_end : File → Option ℕ × File
unfolding next_outcome
lseek_end f =
    let (o, g) = next_outcome f in
    if succeeds o then (some g.size, record g { pos = g.size }) else (none, g)

-- `pread(fd, buffer, n, offset)`: the result, the buffer and the file
unfoldable pub pread : Mem → ℕ → ℕ → File → Option ℕ × Mem × File
unfolding next_outcome
pread buffer n offset f =
    let (o, g) = next_outcome f in
    elim (granted o (min n (g.size - offset))) [
      | none ↦ (none, buffer, g)
      | some k ↦ (some k, memcpy buffer 0 (λ i. g.bytes (offset + i)) k, g)
    ]

-- `pwrite(fd, buffer, n, offset)`: a gap behind the old end is filled with zeros
unfoldable pub pwrite : Mem → ℕ → ℕ → File → Option ℕ × File
unfolding next_outcome
pwrite buffer n offset f =
    let (o, g) = next_outcome f in
    elim (granted o n) [
      | none ↦ (none, g)
      | some k ↦ (
        some k,
        record g {
          bytes =
              memcpy (λ b. if leb g.size b && ltb b offset then 0 else g.bytes b) offset buffer k;
          size = if k == 0 then g.size else max g.size (offset + k);
        },
      )
    ]

-- `read` and `write` start at the file's offset and move it on.
unfoldable pub read : Mem → ℕ → File → Option ℕ × Mem × File
unfolding pread
read buffer n f =
    let (r, b, g) = pread buffer n f.pos f in
    elim r [ none ↦ (none, b, g) | some k ↦ (some k, b, record g { pos = f.pos + k }) ]

unfoldable pub write : Mem → ℕ → File → Option ℕ × File
unfolding pwrite
write buffer n f =
    let (r, g) = pwrite buffer n f.pos f in
    elim r [ none ↦ (none, g) | some k ↦ (some k, record g { pos = f.pos + k }) ]

-- `fsync(fd)`
unfoldable pub fsync : File → Option ℕ × File
unfolding next_outcome
fsync f = let (o, g) = next_outcome f in if succeeds o then (some 0, g) else (none, g)
