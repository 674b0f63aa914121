-- ===== src/Base/Maps.antt =====
-- `std::unordered_map<uint32_t, V>` as an association list. `insert` is `m[k] = v`.
use Prim.Native.Nat.{ℕ, zero, suc, ◌+◌}
use mathlib.Core.Path.{◌≡◌, refl, subst}
use mathlib.Core.Logic.{◌≢◌, inl, inr}
use mathlib.Core.Bool.{Bool, true, false, ◌||◌}
use mathlib.Core.List.{List, [], ◌∷◌}
use mathlib.Core.Option.{Option, none, some}
use native.Mathlib.Omega.{arith}
use simpletorrent.Base.Tests.{if◌then◌else◌, ◌==◌, Bool-cases, Option-cases, false-eq-true}
use simpletorrent.Base.Lists.{length, get_elem?}

module _ {ℓ} {V : Type ℓ} where
  unfoldable pub find : ℕ → List (ℕ × V) → Option V
  find k [] = none
  find k ((j, v) ∷ m) = if j == k then some v else find k m

  unfoldable pub insert : ℕ → V → List (ℕ × V) → List (ℕ × V)
  insert k v [] = (k, v) ∷ []
  insert k v ((j, w) ∷ m) = if j == k then (k, v) ∷ m else (j, w) ∷ insert k v m

  unfoldable pub erase : ℕ → List (ℕ × V) → List (ℕ × V)
  erase k [] = []
  erase k ((j, v) ∷ m) = let rest = erase k m in if j == k then rest else (j, v) ∷ rest

  unfoldable pub contains : ℕ → List (ℕ × V) → Bool
  contains k [] = false
  contains k ((j, v) ∷ m) = (j == k) || contains k m

  -- The loop that erases the entries whose value passes a test.
  unfoldable pub erase_if : (V → Bool) → List (ℕ × V) → List (ℕ × V)
  erase_if p [] = []
  erase_if p ((j, v) ∷ m) = let rest = erase_if p m in if p v then rest else (j, v) ∷ rest

  unfoldable pub keys : List (ℕ × V) → List ℕ
  keys [] = []
  keys ((j, v) ∷ m) = j ∷ keys m

  -- No key stands twice.
  abbrev pub IsUnique : List (ℕ × V) → Type 0
  IsUnique [] = Unit {0}
  IsUnique ((j, v) ∷ m) = (contains j m ≡ false) × IsUnique m

module _ {ℓ} {V : Type ℓ} where
  pub find-insert :
      (j k : ℕ) (v : V) (m : List (ℕ × V))
      → find j (insert k v m) ≡ (if k == j then some v else find j m)
  unfolding find insert
  find-insert j k v [] = refl
  find-insert j k v ((i, w) ∷ m) = ground (arith, find-insert j k v m)

  pub find-erase :
      (j k : ℕ) (m : List (ℕ × V)) → find j (erase k m) ≡ (if k == j then none else find j m)
  unfolding find erase
  find-erase j k [] = ground arith
  find-erase j k ((i, w) ∷ m) = ground (arith, find-erase j k m)

  pub contains-some : (k : ℕ) (v : V) (m : List (ℕ × V)) → find k m ≡ some v → contains k m ≡ true
  unfolding find contains
  contains-some k v [] h = ground arith
  contains-some k v ((i, w) ∷ m) h = ground (arith, contains-some k v m)

  pub contains-none : (k : ℕ) (m : List (ℕ × V)) → find k m ≡ none → contains k m ≡ false
  unfolding find contains
  contains-none k [] h = refl
  contains-none k ((i, w) ∷ m) h = ground (arith, contains-none k m)

  pub find_of_contains :
      (k : ℕ) (m : List (ℕ × V)) → contains k m ≡ true → (v : V) × (find k m ≡ some v)
  find_of_contains k m h = elim (Option-cases (find k m)) [
    | inl e ↦ absurd (false-eq-true (contains-none k m e) h)
    | inr r ↦ r
  ]

  pub find_of_not_contains : (k : ℕ) (m : List (ℕ × V)) → contains k m ≡ false → find k m ≡ none
  unfolding find contains
  find_of_not_contains k [] h = refl
  find_of_not_contains k ((i, w) ∷ m) h = ground (arith, find_of_not_contains k m)

  pub length-insert_new :
      (k : ℕ) (v : V) (m : List (ℕ × V)) → find k m ≡ none → length (insert k v m) ≡ length m + 1
  unfolding find insert
  length-insert_new k v [] h = omega arith
  length-insert_new k v ((i, w) ∷ m) h = ground (arith, length-insert_new k v m)

  pub contains-erase_ne :
      (j k : ℕ) (m : List (ℕ × V)) → contains j m ≡ false → contains j (erase k m) ≡ false
  unfolding contains erase
  contains-erase_ne j k [] h = refl
  contains-erase_ne j k ((i, w) ∷ m) h = ground (arith, contains-erase_ne j k m)

  pub contains-insert_ne :
      (j k : ℕ) (v : V) (m : List (ℕ × V))
      → j ≢ k
      → contains j m ≡ false
      → contains j (insert k v m) ≡ false
  unfolding contains insert
  contains-insert_ne j k v [] n h = ground arith
  contains-insert_ne j k v ((i, w) ∷ m) n h = ground (arith, contains-insert_ne j k v m)

  pub erase_absent : (k : ℕ) (m : List (ℕ × V)) → contains k m ≡ false → erase k m ≡ m
  unfolding contains erase
  erase_absent k [] h = refl
  erase_absent k ((i, w) ∷ m) h = ground (arith, erase_absent k m)

  pub insert-IsUnique : (k : ℕ) (v : V) (m : List (ℕ × V)) → IsUnique m → IsUnique (insert k v m)
  unfolding insert contains
  insert-IsUnique k v [] u = (refl, tt)
  insert-IsUnique k v ((i, w) ∷ m) u =
      ground (arith, insert-IsUnique k v m, contains-insert_ne i k v m)

  pub erase-IsUnique : (k : ℕ) (m : List (ℕ × V)) → IsUnique m → IsUnique (erase k m)
  unfolding erase
  erase-IsUnique k [] u = tt
  erase-IsUnique k ((i, w) ∷ m) u = ground (arith, erase-IsUnique k m, contains-erase_ne i k m)

  pub length-erase :
      (k : ℕ) (m : List (ℕ × V))
      → IsUnique m
      → contains k m ≡ true
      → length (erase k m) + 1 ≡ length m
  unfolding contains erase
  length-erase k [] u h = ground arith
  length-erase k ((i, w) ∷ m) u h = ground (arith, length-erase k m, erase_absent i m)

  -- Every value of the map has the property.
  abbrev pub AllValues : (V → Type 0) → List (ℕ × V) → Type 0
  AllValues P [] = Unit {0}
  AllValues P ((j, v) ∷ m) = P v × AllValues P m

  pub AllValues-find :
      (P : V → Type 0) (k : ℕ) (v : V) (m : List (ℕ × V)) → AllValues P m → find k m ≡ some v → P v
  unfolding find
  AllValues-find P k v [] a h = ground arith
  AllValues-find P k v ((i, w) ∷ m) a h = elim (Bool-cases (i == k)) [
    | inl e ↦ let q : w ≡ v = ground arith in subst P q a.0
    | inr e ↦ AllValues-find P k v m a.1 (rw e at h)
  ]

  pub AllValues-mono :
      (P Q : V → Type 0) (m : List (ℕ × V)) → ((v : V) → P v → Q v) → AllValues P m → AllValues Q m
  AllValues-mono P Q [] f a = tt
  AllValues-mono P Q ((i, w) ∷ m) f a = (f w a.0, AllValues-mono P Q m f a.1)

  pub AllValues-insert :
      (P : V → Type 0) (k : ℕ) (v : V) (m : List (ℕ × V))
      → P v
      → AllValues P m
      → AllValues P (insert k v m)
  unfolding insert
  AllValues-insert P k v [] h a = (h, tt)
  AllValues-insert P k v ((i, w) ∷ m) h a = elim (Bool-cases (i == k)) [
    | inl e ↦ rw e (h, a.1)
    | inr e ↦ rw e (a.0, AllValues-insert P k v m h a.1)
  ]

  pub AllValues-erase :
      (P : V → Type 0) (k : ℕ) (m : List (ℕ × V)) → AllValues P m → AllValues P (erase k m)
  unfolding erase
  AllValues-erase P k [] a = tt
  AllValues-erase P k ((i, w) ∷ m) a = elim (Bool-cases (i == k)) [
    | inl e ↦ rw e (AllValues-erase P k m a.1)
    | inr e ↦ rw e (a.0, AllValues-erase P k m a.1)
  ]

  -- What the erasing loop leaves fails the test, and had the property before.
  pub AllValues-erase_if :
      (P : V → Type 0) (p : V → Bool) (m : List (ℕ × V))
      → AllValues P m
      → AllValues (λ v. P v × (p v ≡ false)) (erase_if p m)
  unfolding erase_if
  AllValues-erase_if P p [] a = tt
  AllValues-erase_if P p ((i, w) ∷ m) a = elim (Bool-cases (p w)) [
    | inl e ↦ rw e (AllValues-erase_if P p m a.1)
    | inr e ↦ rw e ((a.0, e), AllValues-erase_if P p m a.1)
  ]

  -- Every key that the iteration meets is found, and only those.
  pub keys-find : (m : List (ℕ × V)) (i k : ℕ) → get_elem? (keys m) i ≡ some k → contains k m ≡ true
  unfolding keys contains
  keys-find [] i k h = ground arith
  keys-find ((j, w) ∷ m) zero k h = ground arith
  keys-find ((j, w) ∷ m) (suc i) k h = ground (arith, keys-find m i k)
