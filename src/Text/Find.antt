-- ===== src/Text/Find.antt =====
-- Where a character is found in a text, and the parts before and behind it.
use simpletorrent.Base.{
  ℕ, ◌+◌, ◌≡◌, refl, Bool, true, not, none, some, List, [], ◌∷◌, ◌++◌, length, take, drop, leb, ok,
  length-append, take-append, drop-append, le→leb, all_of, first_index, ◌==◌, arith,
}
use simpletorrent.Text.{find_from, substr, substr_from}

-- A text without the character `c`.
abbrev pub lacks : ℕ → List ℕ → Bool
lacks c s = all_of (λ x. not (x == c)) s

pub first_index-append :
    (c : ℕ) (xs ys : List ℕ) (i : ℕ)
    → lacks c xs ≡ true
    → first_index (λ x. x == c) (xs ++ (c ∷ ys)) i ≡ some (i + length xs)
first_index-append c [] ys i h = ground arith
first_index-append c (x ∷ xs) ys i h = ground (arith, first_index-append c xs ys (i + 1))

pub first_index-lacks :
    (c : ℕ) (xs : List ℕ) (i : ℕ) → lacks c xs ≡ true → first_index (λ x. x == c) xs i ≡ none
first_index-lacks c [] i h = refl
first_index-lacks c (x ∷ xs) i h = ground (arith, first_index-lacks c xs (i + 1))

drop-at : (xs ys : List ℕ) (k : ℕ) → length xs ≡ k → drop k (xs ++ ys) ≡ ys
drop-at xs ys k h = rw (← h) (drop-append xs ys)

take-at : (xs ys : List ℕ) (k : ℕ) → length xs ≡ k → take k (xs ++ ys) ≡ xs
take-at xs ys k h = rw (← h) (take-append xs ys)

pub find_from-append :
    (front xs ys : List ℕ) (c k : ℕ)
    → length front ≡ k
    → lacks c xs ≡ true
    → find_from c k (front ++ (xs ++ (c ∷ ys))) ≡ some (k + length xs)
unfolding find_from
find_from-append front xs ys c k h l =
    rw (drop-at front (xs ++ (c ∷ ys)) k h) (first_index-append c xs ys k l)

pub find_from-lacks :
    (front xs : List ℕ) (c k : ℕ)
    → length front ≡ k
    → lacks c xs ≡ true
    → find_from c k (front ++ xs) ≡ none
unfolding find_from
find_from-lacks front xs c k h l = rw (drop-at front xs k h) (first_index-lacks c xs k l)

pub substr-middle :
    (front xs ys : List ℕ) (k n : ℕ)
    → length front ≡ k
    → length xs ≡ n
    → substr k n (front ++ (xs ++ ys)) ≡ ok xs
unfolding substr
substr-middle front xs ys k n h l =
    let inside : leb k (length (front ++ (xs ++ ys))) ≡ true =
      le→leb _ _ (omega (arith, length-append front (xs ++ ys))) in
    rw (inside, drop-at front (xs ++ ys) k h, take-at xs ys n l) refl

pub substr_from-behind :
    (front xs : List ℕ) (k : ℕ) → length front ≡ k → substr_from k (front ++ xs) ≡ ok xs
unfolding substr_from
substr_from-behind front xs k h =
    let inside : leb k (length (front ++ xs)) ≡ true =
      le→leb _ _ (omega (arith, length-append front xs)) in
    rw (inside, drop-at front xs k h) refl
