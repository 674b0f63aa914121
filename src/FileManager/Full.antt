-- ===== src/FileManager/Full.antt =====
-- Files of src/file_manager.cpp without a zero behind the end.
use simpletorrent.Base.{
  ℕ, zero, suc, ◌+◌, ◌≤◌, ◌<◌, ◌≡◌, refl, ap, ◌∙◌, some, List, [], ◌∷◌, ◌++◌, length, get_elem?,
  resize, arith,
}
use simpletorrent.FileManager.Layout.{concat, HasLengths}
use simpletorrent.FileManager.Fill.{HasRoom, fill}
use simpletorrent.FileManager.Lengths.{SameLengths}
use simpletorrent.FileManager.Places.{part}

-- Every byte is 1.
abbrev pub AllOnes : List ℕ → Type 0
AllOnes row = (p b : ℕ) → get_elem? row p ≡ some b → b ≡ 1

get-left : (xs ys : List ℕ) (p b : ℕ) → get_elem? xs p ≡ some b → get_elem? (xs ++ ys) p ≡ some b
get-left [] ys p b g = ground arith
get-left (x ∷ xs) ys zero b g = g
get-left (x ∷ xs) ys (suc p) b g = get-left xs ys p b g

get-right :
    (xs ys : List ℕ) (p b : ℕ)
    → get_elem? ys p ≡ some b
    → get_elem? (xs ++ ys) (length xs + p) ≡ some b
get-right [] ys p b g = let same : 0 + p ≡ p = omega arith in rw same g
get-right (x ∷ xs) ys p b g =
    let same : suc (length xs) + p ≡ suc (length xs + p) = omega arith in
    rw same (get-right xs ys p b g)

AllOnes-resize : (d : List ℕ) (l : ℕ) → length d ≤ l → AllOnes (resize d l 0) → length d ≡ l
AllOnes-resize [] zero h ones = refl
AllOnes-resize [] (suc l) h ones = let bad = ones 0 0 refl in ground arith
AllOnes-resize (x ∷ d) zero h ones = absurd (omega arith)
AllOnes-resize (x ∷ d) (suc l) h ones =
    ap suc (AllOnes-resize d l (omega arith) (λ p b g. ones (suc p) b g))

pub AllOnes-HasLengths :
    (ls : List ℕ) (ds : List (List ℕ))
    → HasRoom ls ds
    → AllOnes (concat (fill ls ds))
    → HasLengths ls ds
AllOnes-HasLengths [] [] h ones = tt
AllOnes-HasLengths [] (d ∷ ds) h ones = absurd h
AllOnes-HasLengths (l ∷ ls) [] h ones = absurd h
AllOnes-HasLengths (l ∷ ls) (d ∷ ds) h ones =
    let first = resize d l 0 in
    (
      AllOnes-resize d l h.0 (λ p b g. ones p b (get-left first (concat (fill ls ds)) p b g)),
      AllOnes-HasLengths ls ds h.1
          (λ p b g. ones (length first + p) b (get-right first (concat (fill ls ds)) p b g)),
    )

pub SameLengths-HasLengths :
    (ls : List ℕ) (ds es : List (List ℕ)) → SameLengths ds es → HasLengths ls es → HasLengths ls ds
SameLengths-HasLengths [] [] [] s h = tt
SameLengths-HasLengths [] [] (e ∷ es) s h = absurd s
SameLengths-HasLengths [] (d ∷ ds) [] s h = absurd s
SameLengths-HasLengths [] (d ∷ ds) (e ∷ es) s h = absurd h
SameLengths-HasLengths (l ∷ ls) [] [] s h = absurd h
SameLengths-HasLengths (l ∷ ls) [] (e ∷ es) s h = absurd s
SameLengths-HasLengths (l ∷ ls) (d ∷ ds) [] s h = absurd s
SameLengths-HasLengths (l ∷ ls) (d ∷ ds) (e ∷ es) s h =
    (s.0 ∙ h.0, SameLengths-HasLengths ls ds es s.1 h.1)

resize-same : (d : List ℕ) (l : ℕ) → length d ≡ l → resize d l 0 ≡ d
resize-same [] zero h = refl
resize-same [] (suc l) h = absurd (omega arith)
resize-same (x ∷ d) zero h = absurd (omega arith)
resize-same (x ∷ d) (suc l) h = ap (◌∷◌ x) (resize-same d l (omega arith))

-- Behind the end of a file at its length there is nothing to fill up.
pub fill-same : (ls : List ℕ) (ds : List (List ℕ)) → HasLengths ls ds → fill ls ds ≡ ds
fill-same [] [] h = refl
fill-same [] (d ∷ ds) h = absurd h
fill-same (l ∷ ls) [] h = absurd h
fill-same (l ∷ ls) (d ∷ ds) h =
    ap (λ (e : List ℕ). e ∷ fill ls ds) (resize-same d l h.0) ∙ ap (◌∷◌ d) (fill-same ls ds h.1)

pub get-part :
    (row : List ℕ) (offset n i b : ℕ)
    → i < n
    → get_elem? row (offset + i) ≡ some b
    → get_elem? (part offset n row) i ≡ some b
get-part [] offset n i b h g = ground arith
get-part (x ∷ row) zero zero i b h g = absurd (omega arith)
get-part (x ∷ row) zero (suc n) zero b h g = g
get-part (x ∷ row) zero (suc n) (suc i) b h g =
    let same : 0 + suc i ≡ suc (0 + i) = omega arith in
    get-part row zero n i b (omega arith) (rw same at g)
get-part (x ∷ row) (suc offset) n i b h g =
    let same : suc offset + i ≡ suc (offset + i) = omega arith in
    get-part row offset n i b h (rw same at g)
