-- ===== src/FileManager/Places.antt =====
-- The places of the pieces in the files that src/file_manager.cpp writes.
use native.Mathlib.Nat.{suc-mul, mul-le-mul_right}
use simpletorrent.Base.{
  ltb, ℕ, zero, suc, ◌+◌, ◌*◌, ◌≤◌, ◌<◌, ◌≡◌, subst, refl, sym, ap, ◌∙◌, inl, inr, ◌⊎◌, false, some,
  List, [], ◌∷◌, length, get_elem?, take, drop, overwrite, ◌==◌, arith, length-overwrite,
  Bool-cases, ==→eq,
}
use simpletorrent.FileManager.Writer.{writes}

-- The `n` bytes from `offset` on.
abbrev pub part : ℕ → ℕ → List ℕ → List ℕ
part offset n row = take n (drop offset row)

overwrite-same :
    (row : List ℕ) (i : ℕ) (ys : List ℕ)
    → i + length ys ≤ length row
    → part i (length ys) (overwrite row i ys) ≡ ys
overwrite-same [] zero [] h = refl
overwrite-same [] zero (y ∷ ys) h = absurd (omega arith)
overwrite-same [] (suc i) ys h = absurd (omega arith)
overwrite-same (x ∷ row) zero [] h = refl
overwrite-same (x ∷ row) zero (y ∷ ys) h = ap (◌∷◌ y) (overwrite-same row zero ys (omega arith))
overwrite-same (x ∷ row) (suc i) ys h = overwrite-same row i ys (omega arith)

overwrite-before :
    (row : List ℕ) (i : ℕ) (ys : List ℕ) (offset n : ℕ)
    → i + length ys ≤ offset
    → part offset n (overwrite row i ys) ≡ part offset n row
overwrite-before [] i ys offset n h = refl
overwrite-before (x ∷ row) zero [] offset n h = refl
overwrite-before (x ∷ row) zero (y ∷ ys) zero n h = absurd (omega arith)
overwrite-before (x ∷ row) zero (y ∷ ys) (suc offset) n h =
    overwrite-before row zero ys offset n (omega arith)
overwrite-before (x ∷ row) (suc i) ys zero n h = absurd (omega arith)
overwrite-before (x ∷ row) (suc i) ys (suc offset) n h =
    overwrite-before row i ys offset n (omega arith)

overwrite-after :
    (row : List ℕ) (i : ℕ) (ys : List ℕ) (offset n : ℕ)
    → offset + n ≤ i
    → part offset n (overwrite row i ys) ≡ part offset n row
overwrite-after [] i ys offset n h = refl
overwrite-after (x ∷ row) zero ys zero zero h = refl
overwrite-after (x ∷ row) zero ys zero (suc n) h = absurd (omega arith)
overwrite-after (x ∷ row) zero ys (suc offset) n h = absurd (omega arith)
overwrite-after (x ∷ row) (suc i) ys zero zero h = refl
overwrite-after (x ∷ row) (suc i) ys zero (suc n) h =
    ap (◌∷◌ x) (overwrite-after row i ys zero n (omega arith))
overwrite-after (x ∷ row) (suc i) ys (suc offset) n h =
    overwrite-after row i ys offset n (omega arith)

order : (k l : ℕ) → (k == l) ≡ false → (k < l) ⊎ (l < k)
order k l h = elim (Bool-cases (ltb k l)) [
  | inl e ↦ inl (ground arith)
  | inr e ↦ inr (ground arith)
]

-- The next place begins where a piece of the usual length ends.
pub next_place : (pl k l : ℕ) → k < l → k * pl + pl ≤ l * pl
next_place pl k l h =
    omega (arith, suc-mul k pl, mul-le-mul_right {m = suc k} {n = l} pl (omega arith))

module _ (piece_length total : ℕ) (size : ℕ → ℕ) (some_bytes : 0 < piece_length)
    (fits : (k : ℕ) → size k ≤ piece_length) where
  -- The value is a piece, at its place.
  abbrev pub IsPlaced : ℕ × List ℕ → ℕ → Type 0
  IsPlaced v k =
      (v.0 ≡ k * piece_length) × (length v.1 ≡ size k) × (k * piece_length + size k ≤ total)

  abbrev pub AllPlaced : List (ℕ × List ℕ) → Type 0
  AllPlaced vs = (j : ℕ) (v : ℕ × List ℕ) → get_elem? vs j ≡ some v → (k : ℕ) × IsPlaced v k

  place_apart :
      (k l : ℕ)
      → (k == l) ≡ false
      → (k * piece_length + size k ≤ l * piece_length)
        ⊎ (l * piece_length + size l ≤ k * piece_length)
  place_apart k l other = elim (order k l other) [
    | inl h ↦ inl (let m = next_place piece_length k l h in let f = fits k in omega arith)
    | inr h ↦ inr (let m = next_place piece_length l k h in let f = fits l in omega arith)
  ]

  written_part :
      (row : List ℕ) (l : ℕ) (v : ℕ × List ℕ)
      → length row ≡ total
      → IsPlaced v l
      → part (l * piece_length) (size l) (overwrite row v.0 v.1) ≡ v.1
  written_part row l v len p =
      rw (← p.0, ← p.1) (overwrite-same row v.0 v.1 (omega (arith, p.0, p.1, p.2)))

  kept_part :
      (row : List ℕ) (k l : ℕ) (v : ℕ × List ℕ)
      → IsPlaced v l
      → (k * piece_length + size k ≤ l * piece_length)
        ⊎ (l * piece_length + size l ≤ k * piece_length)
      → part (k * piece_length) (size k) (overwrite row v.0 v.1)
        ≡ part (k * piece_length) (size k) row
  kept_part row k l v p (inl h) =
      overwrite-after row v.0 v.1 (k * piece_length) (size k) (omega (arith, p.0))
  kept_part row k l v p (inr h) =
      overwrite-before row v.0 v.1 (k * piece_length) (size k) (omega (arith, p.0, p.1))

  head_none :
      (v : ℕ × List ℕ) (vs : List (ℕ × List ℕ)) (k l : ℕ)
      → IsPlaced v l
      → (k == l) ≡ false
      → ((j : ℕ) (w : ℕ × List ℕ) → get_elem? vs j ≡ some w → IsPlaced w k → ⊥)
      → (j : ℕ) (w : ℕ × List ℕ) → get_elem? (v ∷ vs) j ≡ some w
      → IsPlaced w k
      → ⊥
  head_none v vs k l p other none_ zero w g q =
      let vw : v ≡ w = ground arith in
      let q' = subst (λ (x : ℕ × List ℕ). IsPlaced x k) (sym vw) q in
      elim (order k l other) [
        | inl h ↦ let m = next_place piece_length k l h in omega (arith, p.0, q'.0)
        | inr h ↦ let m = next_place piece_length l k h in omega (arith, p.0, q'.0)
      ]
  head_none v vs k l p other none_ (suc j) w g q = none_ j w g q

  pub place_unique : (v : ℕ × List ℕ) (k l : ℕ) → IsPlaced v k → IsPlaced v l → k ≡ l
  place_unique v k l p q = elim (Bool-cases (k == l)) [
    | inl same ↦ ==→eq k l same
    | inr other ↦ absurd (head_none v [] k l q other (λ j w g r. ground arith) 0 v refl p)
  ]

  -- At the place of piece `k` stands one of the values for it, or there is none.
  pub writes-part :
      (vs : List (ℕ × List ℕ)) (row : List ℕ) (k : ℕ)
      → length row ≡ total
      → AllPlaced vs
      → ((j : ℕ) × (v : ℕ × List ℕ) × (get_elem? vs j ≡ some v)
          × IsPlaced v k
          × (part (k * piece_length) (size k) (writes vs row) ≡ v.1))
        ⊎ ((part (k * piece_length) (size k) (writes vs row) ≡ part (k * piece_length) (size k) row)
            × ((j : ℕ) (v : ℕ × List ℕ) → get_elem? vs j ≡ some v → IsPlaced v k → ⊥))
  writes-part [] row k len placed = inr (refl, λ j v g p. ground arith)
  writes-part (v ∷ vs) row k len placed =
      let (l, at_l) = placed 0 v refl in
      elim (writes-part vs (overwrite row v.0 v.1) k (length-overwrite row v.0 v.1 ∙ len)
        (λ j w g. placed (suc j) w g)) [
          | inl (j, w, g, p, e) ↦ inl (suc j, w, g, p, e)
          | inr (e, none_) ↦ elim (Bool-cases (k == l)) [
            | inl same ↦
                let kl : k ≡ l = ==→eq k l same in
                inl (
                  0,
                  v,
                  refl,
                  subst (IsPlaced v) (sym kl) at_l,
                  e
                      ∙ subst
                          (λ (c : ℕ).
                            part (c * piece_length) (size c) (overwrite row v.0 v.1) ≡ v.1)
                          (sym kl) (written_part row l v len at_l),
                )
            | inr other ↦ inr (
              e ∙ kept_part row k l v at_l (place_apart k l other),
              head_none v vs k l at_l other none_,
            )
          ]
        ]
