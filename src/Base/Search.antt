-- ===== src/Base/Search.antt =====
-- Counting, testing and finding entries of a list.
use Prim.Native.Nat.{ℕ, zero, suc, ◌+◌, ◌-◌, ◌≤◌, ◌<◌}
use mathlib.Core.Path.{◌≡◌, refl}
use mathlib.Core.Logic.{inl, inr}
use mathlib.Core.Bool.{Bool, true, false, not}
use mathlib.Core.List.{List, [], ◌∷◌, map}
use mathlib.Core.Option.{none, some}
use native.Mathlib.Omega.{arith}
use simpletorrent.Base.Tests.{if◌then◌else◌, Bool-cases}
use simpletorrent.Base.Lists.{length, get_elem?, set, replicate, all_of, count_if, first_index}

module _ {ℓ} {A : Type ℓ} (p : A → Bool) where
  -- A write moves the count by what it takes away and puts in.
  pub count_if-set :
      (xs : List A) (i : ℕ) (x v : A)
      → get_elem? xs i ≡ some x
      → count_if p (set xs i v) + (if p x then 1 else 0) ≡ count_if p xs + (if p v then 1 else 0)
  count_if-set [] i x v h = ground arith
  count_if-set (y ∷ ys) zero x v h = ground arith
  count_if-set (y ∷ ys) (suc i) x v h = omega (arith, count_if-set ys i x v h)

  pub count_if-le : (xs : List A) → count_if p xs ≤ length xs
  count_if-le [] = omega arith
  count_if-le (x ∷ xs) = ground (arith, count_if-le xs)

  pub count_if-replicate : (n : ℕ) (a : A) → p a ≡ false → count_if p (replicate n a) ≡ 0
  count_if-replicate zero a h = refl
  count_if-replicate (suc n) a h = ground (arith, count_if-replicate n a h)

  -- The count is the length exactly when every entry passes.
  pub all_of-count_if : (xs : List A) → all_of p xs ≡ true → count_if p xs ≡ length xs
  all_of-count_if [] h = refl
  all_of-count_if (x ∷ xs) h = ground (arith, all_of-count_if xs)

  pub count_if-all_of : (xs : List A) → count_if p xs ≡ length xs → all_of p xs ≡ true
  count_if-all_of [] h = refl
  count_if-all_of (x ∷ xs) h = ground (arith, count_if-all_of xs, count_if-le xs)

  pub all_of-get :
      (xs : List A) (i : ℕ) (x : A) → all_of p xs ≡ true → get_elem? xs i ≡ some x → p x ≡ true
  all_of-get [] i x h e = ground arith
  all_of-get (y ∷ ys) zero x h e = ground arith
  all_of-get (y ∷ ys) (suc i) x h e = all_of-get ys i x (ground arith) e

  pub all_of-false :
      (xs : List A)
      → all_of p xs ≡ false
      → (i : ℕ) × (x : A) × (get_elem? xs i ≡ some x) × (p x ≡ false)
  all_of-false [] h = ground arith
  all_of-false (y ∷ ys) h = elim (Bool-cases (p y)) [
    | inr e ↦ (0, y, refl, e)
    | inl e ↦ let (i, x, g, q) = all_of-false ys (rw e at h) in (suc i, x, g, q)
  ]

  pub not-all_of :
      (xs : List A) (i : ℕ) (x : A) → get_elem? xs i ≡ some x → p x ≡ false → all_of p xs ≡ false
  not-all_of [] i x e h = ground arith
  not-all_of (y ∷ ys) zero x e h = ground arith
  not-all_of (y ∷ ys) (suc i) x e h = ground (arith, not-all_of ys i x e h)

  -- What a search finds is in the list and passes the test.
  pub first_index-some :
      (xs : List A) (i j : ℕ)
      → first_index p xs i ≡ some j
      → (x : A) × (get_elem? xs (j - i) ≡ some x) × (p x ≡ true) × (i ≤ j)
  first_index-some [] i j h = ground arith
  first_index-some (y ∷ ys) i j h = elim (Bool-cases (p y)) [
    | inl e ↦
        let q : j ≡ i = ground arith in
        let z : j - i ≡ 0 = omega arith in (y, rw z refl, e, omega arith)
    | inr e ↦
        let (x, g, t, le) = first_index-some ys (i + 1) j (rw e at h) in
        let z : j - i ≡ suc (j - (i + 1)) = omega arith in (x, rw z g, t, omega arith)
  ]

  pub first_index-zero :
      (xs : List A) (j : ℕ)
      → first_index p xs 0 ≡ some j
      → (x : A) × (get_elem? xs j ≡ some x) × (p x ≡ true)
  first_index-zero xs j h =
      let (x, g, t, le) = first_index-some xs 0 j h in
      let z : j - 0 ≡ j = omega arith in (x, (rw z at g), t)

  -- Everything before it fails the test.
  pub first_index_before :
      (xs : List A) (i j k : ℕ) (x : A)
      → first_index p xs i ≡ some j
      → i + k < j
      → get_elem? xs k ≡ some x
      → p x ≡ false
  first_index_before [] i j k x h l g = ground arith
  first_index_before (y ∷ ys) i j zero x h l g = ground arith
  first_index_before (y ∷ ys) i j (suc k) x h l g =
      ground (arith, first_index_before ys (i + 1) j k x)

  -- A search that finds nothing has seen every entry fail.
  pub first_index-none :
      (xs : List A) (i : ℕ) → first_index p xs i ≡ none → all_of (λ x. not (p x)) xs ≡ true
  first_index-none [] i h = refl
  first_index-none (y ∷ ys) i h = ground (arith, first_index-none ys (i + 1))

module _ {ℓ} {A : Type ℓ} where
  pub length-map {κ} : {B : Type κ} (f : A → B) (xs : List A) → length (map f xs) ≡ length xs
  length-map f [] = refl
  length-map f (x ∷ xs) = omega (arith, length-map f xs)

  pub all_of_mono :
      (p q : A → Bool) (xs : List A)
      → ((x : A) → p x ≡ true → q x ≡ true)
      → all_of p xs ≡ true
      → all_of q xs ≡ true
  all_of_mono p q [] f h = refl
  all_of_mono p q (x ∷ xs) f h = ground (arith, f x, all_of_mono p q xs f)

  pub get_elem?-map {κ} :
      {B : Type κ} (f : A → B) (xs : List A) (i : ℕ) (x : A)
      → get_elem? xs i ≡ some x
      → get_elem? (map f xs) i ≡ some (f x)
  get_elem?-map f [] i x h = ground arith
  get_elem?-map f (y ∷ ys) zero x h = ground arith
  get_elem?-map f (y ∷ ys) (suc i) x h = get_elem?-map f ys i x h
