-- ===== src/Net/Stream.antt =====
-- One direction of a TCP connection, as a stream socket gives it: bytes in their order, with no
-- boundaries between messages, and an end. `recv` blocks (`none`) on an empty stream without an end.
use cs_lab.Base.{
  ℕ, zero, suc, ◌-◌, ◌≤◌, ◌≡◌, refl, ap, Bool, true, false, Option, none, some, List, [], ◌∷◌, ◌++◌,
  arith, length,
}
use Prim.Native.Nat.{min}
use cs_lab.Net.{take}

pub record Stream : Type 0 where
  pub pending : List ℕ
  pub finished : Bool

abbrev pub fresh : Stream
fresh = record { pending = []; finished = false }

unfoldable pub drop : ℕ → List ℕ → List ℕ
drop zero xs = xs
drop (suc n) [] = []
drop (suc n) (x ∷ xs) = drop n xs

-- `recv` into a buffer of `size` bytes, at least one, when `arrived` bytes more than the first are
-- there to be read: the bytes, none of them at the end, and what is left.
unfoldable pub recv : (size arrived : ℕ) → List ℕ → Bool → Option (List ℕ × List ℕ)
recv size arrived [] false = none
recv size arrived [] true = some ([], [])
recv size arrived (b ∷ more) finished =
    some (b ∷ take (min arrived (size - 1)) more, drop (min arrived (size - 1)) more)

pub take-drop : (n : ℕ) (xs : List ℕ) → take n xs ++ drop n xs ≡ xs
unfolding take drop
take-drop zero xs = refl
take-drop (suc n) [] = refl
take-drop (suc n) (x ∷ xs) = ap (λ t. x ∷ t) (take-drop n xs)

pub length-drop-le : (n : ℕ) (xs : List ℕ) → length (drop n xs) ≤ length xs
unfolding drop
length-drop-le zero xs = omega arith
length-drop-le (suc n) [] = omega arith
length-drop-le (suc n) (x ∷ xs) = omega (arith, length-drop-le n xs)
