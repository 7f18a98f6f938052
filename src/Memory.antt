-- ===== src/Memory.antt =====
-- Memory as the C code addresses it: bytes at offsets from a pointer, `uint16_t` fields read and
-- written in little-endian order (x86-64, AArch64), memset, memcpy and memmove. Offsets beyond the
-- object are the memory behind it, so a write out of bounds is visible.
pub mod Frame
use cs_lab.Base.{
  ℕ, zero, suc, ◌+◌, ◌-◌, ◌*◌, ◌/◌, ◌%◌, List, [], ◌∷◌, ◌&&◌, ltb, leb, ◌==◌, if◌then◌else◌,
}

abbrev pub Mem : Type 0
Mem = ℕ → ℕ

-- `*(uint16_t *)(p + a)`
unfoldable pub get16 : Mem → ℕ → ℕ
get16 p a = p a + 256 * p (a + 1)

-- `*(uint16_t *)(p + a) = v`
unfoldable pub set16 : Mem → ℕ → ℕ → Mem
set16 p a v b = if b == a then v % 256 else if b == a + 1 then v / 256 % 256 else p b

-- `memcpy(p + dst, src, n)`; every byte is read before the first one is written.
unfoldable pub memcpy : Mem → ℕ → Mem → ℕ → Mem
memcpy p dst src n b = if leb dst b && ltb b (dst + n) then src (b - dst) else p b

-- `memmove(p + dst, p + src, n)`
unfoldable pub memmove : Mem → ℕ → ℕ → ℕ → Mem
unfolding memcpy
memmove p dst src n = memcpy p dst (λ k. p (src + k)) n

-- `memset(p, v, n)`
unfoldable pub memset : Mem → ℕ → ℕ → Mem
memset p v n b = if ltb b n then v else p b

-- The `n` bytes from `a` on.
unfoldable pub bytes : Mem → ℕ → ℕ → List ℕ
bytes p a zero = []
bytes p a (suc n) = p a ∷ bytes p (a + 1) n
