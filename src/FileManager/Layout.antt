-- ===== src/FileManager/Layout.antt =====
-- The files of src/file_manager.cpp as one row of bytes: what `write_value` does to it.
use mathlib.Core.List.{append_assoc}
use simpletorrent.Base.{
  length-append, ℕ, zero, suc, ◌+◌, ◌-◌, ◌≤◌, min, ◌≡◌, refl, sym, ap, ◌∙◌, List, [], ◌∷◌, ◌++◌,
  length, take, drop, overwrite, arith,
}

abbrev pub concat : List (List ℕ) → List ℕ
concat [] = []
concat (x ∷ xs) = x ++ concat xs

abbrev pub sum : List ℕ → ℕ
sum [] = 0
sum (l ∷ ls) = l + sum ls

-- Each file has its length.
abbrev pub HasLengths : List ℕ → List (List ℕ) → Type 0
HasLengths [] [] = Unit {0}
HasLengths [] (d ∷ ds) = ⊥
HasLengths (l ∷ ls) [] = ⊥
HasLengths (l ∷ ls) (d ∷ ds) = (length d ≡ l) × HasLengths ls ds

pub overwrite-nil : (xs : List ℕ) (i : ℕ) → overwrite xs i [] ≡ xs
overwrite-nil [] i = refl
overwrite-nil (x ∷ xs) zero = refl
overwrite-nil (x ∷ xs) (suc i) = ap (◌∷◌ x) (overwrite-nil xs i)

-- A write behind the first part leaves it alone.
pub overwrite-behind :
    (xs ys zs : List ℕ) (i : ℕ) → overwrite (xs ++ ys) (length xs + i) zs ≡ xs ++ overwrite ys i zs
overwrite-behind [] ys zs i = ap (λ (j : ℕ). overwrite ys j zs) (omega arith)
overwrite-behind (x ∷ xs) ys zs i =
    let next : suc (length xs) + i ≡ suc (length xs + i) = omega arith in
    rw next (ap (◌∷◌ x) (overwrite-behind xs ys zs i))

-- A write over the border of two parts is two writes.
pub overwrite-split :
    (xs ys zs : List ℕ) (i n : ℕ)
    → i ≤ length xs
    → n ≡ min (length zs) (length xs - i)
    → overwrite (xs ++ ys) i zs ≡ overwrite xs i (take n zs) ++ overwrite ys 0 (drop n zs)
overwrite-split [] ys zs zero n h e = let z : n ≡ 0 = omega arith in rw z refl
overwrite-split [] ys zs (suc i) n h e = absurd (omega arith)
overwrite-split (x ∷ xs) ys [] zero n h e =
    let z : n ≡ 0 = omega arith in
    rw z (ap (λ (r : List ℕ). x ∷ xs ++ r) (sym (overwrite-nil ys 0)))
overwrite-split (x ∷ xs) ys (z ∷ zs) zero zero h e = absurd (omega arith)
overwrite-split (x ∷ xs) ys (z ∷ zs) zero (suc n) h e =
    ap (◌∷◌ z) (overwrite-split xs ys zs zero n (omega arith) (omega arith))
overwrite-split (x ∷ xs) ys zs (suc i) n h e =
    ap (◌∷◌ x) (overwrite-split xs ys zs i n (omega arith) (omega arith))

pub concat-append : (xs ys : List (List ℕ)) → concat (xs ++ ys) ≡ concat xs ++ concat ys
concat-append [] ys = refl
concat-append (x ∷ xs) ys =
    ap (◌++◌ x) (concat-append xs ys) ∙ sym (append_assoc x (concat xs) (concat ys))

pub HasLengths-replace :
    (ls : List ℕ) (pre rest es : List (List ℕ))
    → HasLengths ls (pre ++ rest)
    → HasLengths (drop (length pre) ls) es
    → HasLengths ls (pre ++ es)
HasLengths-replace ls [] rest es h g = g
HasLengths-replace [] (p ∷ pre) rest es h g = absurd h
HasLengths-replace (l ∷ ls) (p ∷ pre) rest es h g = (h.0, HasLengths-replace ls pre rest es h.1 g)

pub length-concat :
    (ls : List ℕ) (ds : List (List ℕ)) → HasLengths ls ds → length (concat ds) ≡ sum ls
length-concat [] [] h = refl
length-concat [] (d ∷ ds) h = absurd h
length-concat (l ∷ ls) [] h = absurd h
length-concat (l ∷ ls) (d ∷ ds) h =
    omega (arith, length-append d (concat ds), h.0, length-concat ls ds h.1)
