-- ===== src/Memory/Frame.antt =====
-- What each write of Memory.antt changes and what it leaves alone.
use cs_lab.Base.{length, ℕ, zero, suc, ◌+◌, ◌-◌, ◌≤◌, ◌<◌, ◌≡◌, refl, ◌≢◌, ap, ◌∷◌, ◌⊎◌, arith}
use mathlib.Core.Path.{ap₂}
use cs_lab.Memory.{Mem, get16, set16, memcpy, memset, bytes}

pub set16_ne : (p : Mem) (a v b : ℕ) → b ≢ a → b ≢ a + 1 → set16 p a v b ≡ p b
unfolding set16
set16_ne p a v b h k = ground arith

pub get16-set16_self : (p : Mem) (a v : ℕ) → v < 65536 → get16 (set16 p a v) a ≡ v
unfolding get16 set16
get16-set16_self p a v h = ground arith

pub get16-set16_ne :
    (p : Mem) (a v b : ℕ) → b ≢ a → b ≢ a + 1 → b + 1 ≢ a → get16 (set16 p a v) b ≡ get16 p b
unfolding get16 set16
get16-set16_ne p a v b h k l = ground arith

-- Two memories that agree on both bytes of a word agree on the word.
pub get16_cong : (p q : Mem) (a : ℕ) → p a ≡ q a → p (a + 1) ≡ q (a + 1) → get16 p a ≡ get16 q a
unfolding get16
get16_cong p q a h k = ground arith

pub memcpy_in :
    (p : Mem) (dst : ℕ) (src : Mem) (n k : ℕ) → k < n → memcpy p dst src n (dst + k) ≡ src k
unfolding memcpy
memcpy_in p dst src n k h = let e : dst + k - dst ≡ k = omega arith in ground (arith, ap src e)

pub memcpy_out :
    (p : Mem) (dst : ℕ) (src : Mem) (n b : ℕ)
    → (b < dst) ⊎ (dst + n ≤ b)
    → memcpy p dst src n b ≡ p b
unfolding memcpy
memcpy_out p dst src n b h = ground arith

pub get16-memcpy_out :
    (p : Mem) (dst : ℕ) (src : Mem) (n b : ℕ)
    → (b + 1 < dst) ⊎ (dst + n ≤ b)
    → get16 (memcpy p dst src n) b ≡ get16 p b
get16-memcpy_out p dst src n b h =
    get16_cong (memcpy p dst src n) p b (memcpy_out p dst src n b (omega arith))
      (memcpy_out p dst src n (b + 1) (omega arith))

pub memset_in : (p : Mem) (v n b : ℕ) → b < n → memset p v n b ≡ v
unfolding memset
memset_in p v n b h = ground arith

pub memset_out : (p : Mem) (v n b : ℕ) → n ≤ b → memset p v n b ≡ p b
unfolding memset
memset_out p v n b h = ground arith

-- Equal bytes make equal runs of bytes.
pub bytes_cong :
    (p q : Mem) (a b n : ℕ) → ((k : ℕ) → k < n → p (a + k) ≡ q (b + k)) → bytes p a n ≡ bytes q b n
unfolding bytes
bytes_cong p q a b zero h = refl
bytes_cong p q a b (suc n) h =
    ap₂ ◌∷◌ (ground (arith, h 0))
      (bytes_cong p q (a + 1) (b + 1) n (λ k lt. ground (arith, h (suc k))))

-- What a chain of writes leaves of a word or a byte.
pub ruleset frames =
    (arith, get16-set16_self, get16-set16_ne, get16-memcpy_out, set16_ne, memcpy_in, memcpy_out)

pub length-bytes : (p : Mem) (a n : ℕ) → length (bytes p a n) ≡ n
unfolding bytes
length-bytes p a zero = refl
length-bytes p a (suc n) = ap suc (length-bytes p (a + 1) n)
