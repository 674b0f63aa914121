-- ===== src/Base/Results.antt =====
-- Results of code that may throw, abort or reach undefined behaviour.
use Prim.Native.Nat.{ℕ}
use mathlib.Core.Bool.{Bool, true, false}
use mathlib.Core.Option.{Option, none, some}
use mathlib.Core.List.{List}
use simpletorrent.Base.Lists.{get_elem?}

-- `out_of_range` is what `.at()` throws, `parse_exception` the `ParseException` of the parser, `thrown`
-- any other exception derived from `std::exception`, `assertion` a failed `assert`, `undefined` undefined behaviour, and `diverged` a loop that does
-- not end within the fuel that it is given.
pub data Fault : Type 0 where
  out_of_range parse_exception thrown assertion undefined diverged : Fault

pub data Result {ℓ} (A : Type ℓ) : Type ℓ where
  ok : A → Result A
  fault : Fault → Result A

-- What `catch (const std::exception&)` catches.
abbrev pub is_exception : Fault → Bool
is_exception out_of_range = true
is_exception parse_exception = true
is_exception thrown = true
is_exception assertion = false
is_exception undefined = false
is_exception diverged = false

-- A `try` block, and the result where it throws.
abbrev pub or_else {ℓ} : {A : Type ℓ} → Result A → A → Result A
or_else (ok a) handled = ok a
or_else (fault bad) handled = elim (is_exception bad) [ true ↦ ok handled | false ↦ fault bad ]

abbrev pub guard : Bool → Fault → Result (Unit {0})
guard false bad = fault bad
guard true bad = ok tt

abbrev pub or_fault {ℓ} : {A : Type ℓ} → Option A → Fault → Result A
or_fault none e = fault e
or_fault (some a) e = ok a

-- `vector::at`.
abbrev pub at {ℓ} : {A : Type ℓ} → List A → ℕ → Result A
at xs i = or_fault (get_elem? xs i) out_of_range

-- A fault ends a sequence of steps.
infixl 5 ◌>>=◌ ◌>>◌
abbrev pub ◌>>=◌ {ℓ κ} : {A : Type ℓ} {B : Type κ} → Result A → (A → Result B) → Result B
fault bad >>= next = fault bad
ok value >>= next = next value

abbrev pub ◌>>◌ {ℓ} : {B : Type ℓ} → Result (Unit {0}) → Result B → Result B
first >> second = first >>= λ done. second
