-- ===== src/Net/Program.antt =====
-- Programs that call the system and may `exit`: what they return, if they do, and the calls with an
-- effect, the newest first.
use cs_lab.Base.{
  ℕ, ◌+◌, ◌==◌, refl, sym, subst, arith, ◌≡◌, Bool, true, false, Option, none, some, List, [], ◌∷◌,
}
use cs_lab.Net.{Call, opens, closes, sends, shuts}
use cs_lab.Net.Counts.{one, opened, closed}

abbrev pub Program : Type 0 → Type 0
Program A = List Call → Option A × List Call

abbrev pub pure : {A : Type 0} → A → Program A
pure a calls = (some a, calls)

-- What follows a result, or nothing behind an `exit`.
abbrev pub followed : {A B : Type 0} → (A → Program B) → Option A × List Call → Option B × List Call
followed f (none, calls) = (none, calls)
followed f (some a, calls) = f a calls

infixl 5 ◌>>=◌ ◌>>◌
abbrev pub ◌>>=◌ : {A B : Type 0} → Program A → (A → Program B) → Program B
◌>>=◌ m f calls = followed f (m calls)

abbrev pub ◌>>◌ : {B : Type 0} → Program (Unit {0}) → Program B → Program B
m >> k = m >>= λ _. k

abbrev pub exit : {A : Type 0} → Program A
exit calls = (none, calls)

abbrev pub close : ℕ → Program (Unit {0})
close fd calls = (some tt, closes fd ∷ calls)

abbrev pub send : ℕ → List ℕ → Program (Unit {0})
send fd bytes calls = (some tt, sends fd bytes ∷ calls)

-- `shutdown(fd, SHUT_WR)`
abbrev pub shut_down : ℕ → Program (Unit {0})
shut_down fd calls = (some tt, shuts fd ∷ calls)

-- `if (... == -1) { ...; exit(1); }`, with what is closed before the exit.
abbrev pub or_exit : Bool → Program (Unit {0}) → Program (Unit {0})
or_exit true cleanup = pure tt
or_exit false cleanup = cleanup >> exit

-- The same for a call that opens a descriptor.
abbrev pub open_or_exit : Option ℕ → Program (Unit {0}) → Program ℕ
open_or_exit none cleanup = cleanup >> exit
open_or_exit (some fd) cleanup = λ calls. (some fd, opens fd ∷ calls)

-- Every descriptor is closed as often as it is opened, whether the program returns or exits.
abbrev pub ClosesAll : {A : Type 0} → Program A → Type 0
ClosesAll m = (d : ℕ) → opened d (m []).1 ≡ closed d (m []).1

-- What is open behind a program: nothing if it has exited, else the descriptor that it returns.
abbrev pub HoldsOnly : Option ℕ × List Call → Type 0
HoldsOnly (none, calls) = (d : ℕ) → opened d calls ≡ closed d calls
HoldsOnly (some fd, calls) = (d : ℕ) → opened d calls ≡ closed d calls + one (fd == d)

-- A step gives back what it opens, and does not exit.
abbrev pub Neutral : List Call → Option (Unit {0}) × List Call → Type 0
Neutral calls (r, calls') =
    (r ≡ some tt) × ((d : ℕ) → opened d calls' + closed d calls ≡ opened d calls + closed d calls')

pub followed-some :
    {B : Type 0} (f : Unit {0} → Program B) (out : Option (Unit {0}) × List Call)
    → out.0 ≡ some tt
    → followed f out ≡ f tt out.1
followed-some f (none, calls) e = grind arith
followed-some f (some u, calls) e = refl

pub Neutral-then :
    (m k : Program (Unit {0})) (calls : List Call)
    → Neutral calls (m calls)
    → ((calls' : List Call) → Neutral calls' (k calls'))
    → Neutral calls ((m >> k) calls)
Neutral-then m k calls first later =
    let e = followed-some (λ _. k) (m calls) first.0 in
    let next = later (m calls).1 in
    subst (Neutral calls) (sym e) (next.0, λ d. omega (arith, first.1 d, next.1 d))
