-- ===== src/Base/Lists.antt =====
-- Vectors as lists with native indices.
use Prim.Native.Nat.{ℕ, zero, suc, ◌+◌, ◌-◌, ◌<◌, min}
use mathlib.Core.Path.{◌≡◌, refl, ap, subst}
use mathlib.Core.Logic.{◌≢◌}
use mathlib.Core.Bool.{Bool, true, ◌&&◌}
use mathlib.Core.List.{List, [], ◌∷◌, ◌++◌}
use mathlib.Core.Option.{Option, none, some}
use native.Mathlib.Omega.{arith}
use simpletorrent.Base.Tests.{if◌then◌else◌, ◌==◌}

module _ {ℓ} {A : Type ℓ} where
  abbrev pub length : List A → ℕ
  length [] = 0
  length (x ∷ xs) = suc (length xs)

  abbrev pub get_elem? : List A → ℕ → Option A
  get_elem? [] i = none
  get_elem? (x ∷ xs) zero = some x
  get_elem? (x ∷ xs) (suc i) = get_elem? xs i

  -- A write out of bounds changes nothing; the callers guard it.
  abbrev pub set : List A → ℕ → A → List A
  set [] i v = []
  set (x ∷ xs) zero v = v ∷ xs
  set (x ∷ xs) (suc i) v = x ∷ set xs i v

  abbrev pub take : ℕ → List A → List A
  take zero xs = []
  take (suc n) [] = []
  take (suc n) (x ∷ xs) = x ∷ take n xs

  abbrev pub drop : ℕ → List A → List A
  drop zero xs = xs
  drop (suc n) [] = []
  drop (suc n) (x ∷ xs) = drop n xs

  abbrev pub replicate : ℕ → A → List A
  replicate zero a = []
  replicate (suc n) a = a ∷ replicate n a

  -- `vector::resize(n, a)` and `string::resize(n, a)`: cut at the end, or filled up with `a`.
  abbrev pub resize : List A → ℕ → A → List A
  resize xs zero a = []
  resize [] (suc n) a = a ∷ resize [] n a
  resize (x ∷ xs) (suc n) a = x ∷ resize xs n a

  -- `std::copy(ys.begin(), ys.end(), xs.begin() + i)`, whose range the callers guard.
  abbrev pub overwrite : List A → ℕ → List A → List A
  overwrite [] i ys = []
  overwrite (x ∷ xs) zero [] = x ∷ xs
  overwrite (x ∷ xs) zero (y ∷ ys) = y ∷ overwrite xs zero ys
  overwrite (x ∷ xs) (suc i) ys = x ∷ overwrite xs i ys

  abbrev pub all_of : (A → Bool) → List A → Bool
  all_of p [] = true
  all_of p (x ∷ xs) = p x && all_of p xs

  abbrev pub count_if : (A → Bool) → List A → ℕ
  count_if p [] = 0
  count_if p (x ∷ xs) = (if p x then 1 else 0) + count_if p xs

  -- The index of the first entry that passes the test, the list being numbered from `i`.
  abbrev pub first_index : (A → Bool) → List A → ℕ → Option ℕ
  first_index p [] i = none
  first_index p (x ∷ xs) i = if p x then some i else first_index p xs (i + 1)

module _ {ℓ} {A : Type ℓ} where
  pub length-append : (xs ys : List A) → length (xs ++ ys) ≡ length xs + length ys
  length-append [] ys = omega arith
  length-append (x ∷ xs) ys = omega (arith, length-append xs ys)

  pub take-append : (xs ys : List A) → take (length xs) (xs ++ ys) ≡ xs
  take-append [] ys = refl
  take-append (x ∷ xs) ys = ap (◌∷◌ x) (take-append xs ys)

  pub drop-append : (xs ys : List A) → drop (length xs) (xs ++ ys) ≡ ys
  drop-append [] ys = refl
  drop-append (x ∷ xs) ys = drop-append xs ys

  pub length-take-min : (n : ℕ) (xs : List A) → length (take n xs) ≡ min n (length xs)
  length-take-min zero xs = omega arith
  length-take-min (suc n) [] = omega arith
  length-take-min (suc n) (x ∷ xs) = omega (arith, length-take-min n xs)

  pub length-drop_lem : (n : ℕ) (xs : List A) → length (drop n xs) ≡ length xs - n
  length-drop_lem zero xs = omega arith
  length-drop_lem (suc n) [] = omega arith
  length-drop_lem (suc n) (x ∷ xs) = omega (arith, length-drop_lem n xs)

  drop-nil : (n : ℕ) → drop {A = A} n [] ≡ []
  drop-nil zero = refl
  drop-nil (suc n) = refl

  pub drop-drop : (a b c : ℕ) (xs : List A) → c ≡ b + a → drop a (drop b xs) ≡ drop c xs
  drop-drop a zero c xs h = let same : a ≡ c = omega arith in ap (λ (n : ℕ). drop n xs) same
  drop-drop a (suc b) zero xs h = absurd (omega arith)
  drop-drop a (suc b) (suc c) [] h = drop-nil a
  drop-drop a (suc b) (suc c) (x ∷ xs) h = drop-drop a b c xs (omega arith)

  pub length-set : (xs : List A) (i : ℕ) (v : A) → length (set xs i v) ≡ length xs
  length-set [] i v = refl
  length-set (x ∷ xs) zero v = refl
  length-set (x ∷ xs) (suc i) v = ap suc (length-set xs i v)

  pub length-resize : (xs : List A) (n : ℕ) (a : A) → length (resize xs n a) ≡ n
  length-resize xs zero a = refl
  length-resize [] (suc n) a = ap suc (length-resize [] n a)
  length-resize (x ∷ xs) (suc n) a = ap suc (length-resize xs n a)

  resize-nil : (n : ℕ) (a : A) → resize [] n a ≡ replicate n a
  resize-nil zero a = refl
  resize-nil (suc n) a = ap (◌∷◌ a) (resize-nil n a)

  -- What is filled up.
  pub resize-append :
      (xs : List A) (n k : ℕ) (a : A) → n ≡ length xs + k → resize xs n a ≡ xs ++ replicate k a
  resize-append [] n k a h =
      let same : n ≡ k = omega arith in
      subst (λ (m : ℕ). resize [] n a ≡ replicate m a) same (resize-nil n a)
  resize-append (x ∷ xs) zero k a h = absurd (omega arith)
  resize-append (x ∷ xs) (suc n) k a h = ap (◌∷◌ x) (resize-append xs n k a (omega arith))

  pub length-replicate : (n : ℕ) (a : A) → length (replicate n a) ≡ n
  length-replicate zero a = refl
  length-replicate (suc n) a = ap suc (length-replicate n a)

  pub length-overwrite :
      (xs : List A) (i : ℕ) (ys : List A) → length (overwrite xs i ys) ≡ length xs
  length-overwrite [] i ys = refl
  length-overwrite (x ∷ xs) zero [] = refl
  length-overwrite (x ∷ xs) zero (y ∷ ys) = ap suc (length-overwrite xs zero ys)
  length-overwrite (x ∷ xs) (suc i) ys = ap suc (length-overwrite xs i ys)

  pub get_elem?-set :
      (xs : List A) (i j : ℕ) (v : A)
      → get_elem? (set xs i v) j ≡ (
          if i == j
          then (elim (get_elem? xs j) [ none ↦ none | some _ ↦ some v ])
          else get_elem? xs j)
  get_elem?-set [] i j v = ground arith
  get_elem?-set (x ∷ xs) zero zero v = refl
  get_elem?-set (x ∷ xs) zero (suc j) v = ground arith
  get_elem?-set (x ∷ xs) (suc i) zero v = ground arith
  get_elem?-set (x ∷ xs) (suc i) (suc j) v = ground (arith, get_elem?-set xs i j v)

  pub get_elem?-set_self :
      (xs : List A) (i : ℕ) (v : A) → i < length xs → get_elem? (set xs i v) i ≡ some v
  get_elem?-set_self [] i v h = absurd (omega arith)
  get_elem?-set_self (x ∷ xs) zero v h = refl
  get_elem?-set_self (x ∷ xs) (suc i) v h = get_elem?-set_self xs i v (omega arith)

  pub get_elem?-set_ne :
      (xs : List A) (i j : ℕ) (v : A) → i ≢ j → get_elem? (set xs i v) j ≡ get_elem? xs j
  get_elem?-set_ne [] i j v h = refl
  get_elem?-set_ne (x ∷ xs) zero zero v h = absurd (h refl)
  get_elem?-set_ne (x ∷ xs) zero (suc j) v h = refl
  get_elem?-set_ne (x ∷ xs) (suc i) zero v h = refl
  get_elem?-set_ne (x ∷ xs) (suc i) (suc j) v h = get_elem?-set_ne xs i j v (λ e. h (ap suc e))

  pub get_elem?-lt : (xs : List A) (i : ℕ) {x : A} → get_elem? xs i ≡ some x → i < length xs
  get_elem?-lt [] i h = ground arith
  get_elem?-lt (x ∷ xs) zero h = omega arith
  get_elem?-lt (x ∷ xs) (suc i) h = omega (arith, get_elem?-lt xs i h)

  pub get_elem?-some : (xs : List A) (i : ℕ) → i < length xs → (x : A) × (get_elem? xs i ≡ some x)
  get_elem?-some [] i h = absurd (omega arith)
  get_elem?-some (x ∷ xs) zero h = (x, refl)
  get_elem?-some (x ∷ xs) (suc i) h = get_elem?-some xs i (omega arith)

  pub get_elem?-replicate : (n : ℕ) (a : A) (i : ℕ) → i < n → get_elem? (replicate n a) i ≡ some a
  get_elem?-replicate zero a i h = absurd (omega arith)
  get_elem?-replicate (suc n) a zero h = refl
  get_elem?-replicate (suc n) a (suc i) h = get_elem?-replicate n a i (omega arith)
