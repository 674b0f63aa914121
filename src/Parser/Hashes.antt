-- ===== src/Parser/Hashes.antt =====
-- How src/parser.cpp cuts the text of the hashes.
use simpletorrent.Base.{
  ℕ, zero, suc, ◌+◌, ◌-◌, ◌≤◌, ◌<◌, min, ◌≡◌, refl, sym, ap, ◌∙◌, inl, inr, true, false, List, [],
  ◌∷◌, ◌++◌, length, take, drop, ltb, leb, ok, arith, length-append, length-drop_lem,
  length-take-min, ltb-ge, drop-drop, ltb→lt, Bool-cases,
}
use simpletorrent.FileManager.Layout.{concat}
use simpletorrent.Text.{substr}
use simpletorrent.Parser.{hashes_from}

-- Every piece of text but the last has 20 characters, and the last one at most 20 and at least one.
abbrev pub AreHashes : List (List ℕ) → Type 0
AreHashes [] = Unit {0}
AreHashes (h ∷ []) = (0 < length h) × (length h ≤ 20)
AreHashes (h ∷ g ∷ rest) = (length h ≡ 20) × AreHashes (g ∷ rest)

take-drop : (n : ℕ) (xs : List ℕ) → take n xs ++ drop n xs ≡ xs
take-drop zero xs = refl
take-drop (suc n) [] = refl
take-drop (suc n) (x ∷ xs) = ap (◌∷◌ x) (take-drop n xs)

-- A piece of text before others.
AreHashes-cons :
    (h : List ℕ) (hs : List (List ℕ))
    → AreHashes hs
    → 0 < length h
    → length h ≤ 20
    → (0 < length (concat hs) → length h ≡ 20)
    → AreHashes (h ∷ hs)
AreHashes-cons h [] w p q full = (p, q)
AreHashes-cons h (g ∷ []) w p q full = (full (omega (arith, length-append g [], w.0)), w)
AreHashes-cons h (g ∷ f ∷ rest) w p q full =
    (full (omega (arith, length-append g (concat (f ∷ rest)), w.0)), w)

module _ (pieces : List ℕ) where
  -- The hashes are the text from `i` on.
  abbrev pub Cut : ℕ → List (List ℕ) → Type 0
  Cut i hs = AreHashes hs × (concat hs ≡ drop i pieces)

  Cut-cons :
      (i : ℕ) (hs : List (List ℕ))
      → i < length pieces
      → Cut (i + 20) hs
      → Cut i (take 20 (drop i pieces) ∷ hs)
  Cut-cons i hs inside (w, same) =
      let h = take 20 (drop i pieces) in
      let size : length h ≡ min 20 (length pieces - i) =
        omega (arith, length-take-min 20 (drop i pieces), length-drop_lem i pieces) in
      let rest : length (concat hs) ≡ length pieces - (i + 20) =
        ap length same ∙ length-drop_lem (i + 20) pieces in
      (
        AreHashes-cons h hs w (omega arith) (omega arith) (λ some_. omega (arith, some_)),
        ap (◌++◌ h) (same ∙ sym (drop-drop 20 i (i + 20) pieces refl))
            ∙ take-drop 20 (drop i pieces),
      )

  drop-behind : (i : ℕ) → length pieces ≤ i → drop i pieces ≡ []
  drop-behind i h = length-zero (drop i pieces) (omega (arith, length-drop_lem i pieces))
    where
      length-zero : (xs : List ℕ) → length xs ≡ 0 → xs ≡ []
      length-zero [] e = refl
      length-zero (x ∷ xs) e = absurd (omega arith)

  -- With enough rounds the loop ends, and nothing of the text is lost.
  pub hashes_from-Cut :
      (fuel i : ℕ)
      → length pieces ≤ fuel + i
      → (hs : List (List ℕ)) × (hashes_from fuel i pieces ≡ ok hs) × Cut i hs
  unfolding hashes_from substr
  hashes_from-Cut zero i h =
      let over : ltb i (length pieces) ≡ false = ground arith in
      ([], rw over refl, (tt, sym (drop-behind i (omega arith))))
  hashes_from-Cut (suc fuel) i h = elim (Bool-cases (ltb i (length pieces))) [
    | inr over ↦
        ([], rw over refl, (tt, sym (drop-behind i (omega (arith, ltb-ge i (length pieces) over)))))
    | inl inside ↦
        let (hs, e, c) = hashes_from-Cut fuel (i + 20) (omega arith) in
        let fine : leb i (length pieces) ≡ true = ground arith in
        (
          take 20 (drop i pieces) ∷ hs,
          rw (inside, fine, e) refl,
          Cut-cons i hs (ltb→lt i (length pieces) inside) c,
        )
  ]
