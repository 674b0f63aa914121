-- ===== src/FileManager/Lengths.antt =====
-- How long the writer of src/file_manager.cpp leaves the files: that depends on the lengths of what it
-- writes, and not on the bytes.
use simpletorrent.Base.{
  ℕ, zero, suc, ◌+◌, ◌-◌, ◌%◌, ◌^◌, ◌≡◌, refl, sym, ap, ◌∙◌, subst, inl, inr, Bool, false, none,
  some, List, [], ◌∷◌, ◌++◌, map, length, get_elem?, set, take, drop, ◌==◌, ◌||◌, ok, fault-ok,
  ok-injective, Result-cases, arith, Bool-cases, Option-cases, length-take-min, length-drop_lem,
  length-map,
}
use simpletorrent.FileManager.{
  FileManager, Turn, calculate_files_write_info, stream_write, write_parts, write_value,
  file_writer,
}
use simpletorrent.FileManager.Writer.{taken, AllRunning}

abbrev pub SameLengths : List (List ℕ) → List (List ℕ) → Type 0
SameLengths [] [] = Unit {0}
SameLengths [] (e ∷ es) = ⊥
SameLengths (d ∷ ds) [] = ⊥
SameLengths (d ∷ ds) (e ∷ es) = (length d ≡ length e) × SameLengths ds es

pub SameLengths-refl : (ds : List (List ℕ)) → SameLengths ds ds
SameLengths-refl [] = tt
SameLengths-refl (d ∷ ds) = (refl, SameLengths-refl ds)

length-stream_write :
    (xs : List ℕ) (i : ℕ) (ys : List ℕ)
    → length (stream_write xs i ys) ≡ length xs + (i + length ys - length xs)
unfolding stream_write
length-stream_write [] zero ys = omega arith
length-stream_write [] (suc i) ys = omega (arith, length-stream_write [] i ys)
length-stream_write (x ∷ xs) zero [] = omega arith
length-stream_write (x ∷ xs) zero (y ∷ ys) = omega (arith, length-stream_write xs zero ys)
length-stream_write (x ∷ xs) (suc i) ys = omega (arith, length-stream_write xs i ys)

SameLengths-get :
    (ds es : List (List ℕ)) (k : ℕ) (d : List ℕ)
    → SameLengths ds es
    → get_elem? ds k ≡ some d
    → (e : List ℕ) × (get_elem? es k ≡ some e) × (length d ≡ length e)
SameLengths-get [] es k d h g = ground arith
SameLengths-get (x ∷ ds) [] k d h g = absurd h
SameLengths-get (x ∷ ds) (y ∷ es) zero d h g =
    let same : x ≡ d = ground arith in (y, refl, ap length (sym same) ∙ h.0)
SameLengths-get (x ∷ ds) (y ∷ es) (suc k) d h g = SameLengths-get ds es k d h.1 g

SameLengths-set :
    (ds es : List (List ℕ)) (k : ℕ) (d e : List ℕ)
    → SameLengths ds es
    → length d ≡ length e
    → SameLengths (set ds k d) (set es k e)
SameLengths-set [] [] k d e h l = tt
SameLengths-set [] (y ∷ es) k d e h l = absurd h
SameLengths-set (x ∷ ds) [] k d e h l = absurd h
SameLengths-set (x ∷ ds) (y ∷ es) zero d e h l = (l, h.1)
SameLengths-set (x ∷ ds) (y ∷ es) (suc k) d e h l = (h.0, SameLengths-set ds es k d e h.1 l)

write_parts-SameLengths :
    (info : List (ℕ × ℕ × ℕ)) (xs ys : List ℕ) (ds es after : List (List ℕ))
    → length xs ≡ length ys
    → SameLengths ds es
    → write_parts info xs ds ≡ ok after
    → (after' : List (List ℕ)) × (write_parts info ys es ≡ ok after') × SameLengths after after'
unfolding write_parts
write_parts-SameLengths [] xs ys ds es after l h r =
    (es, refl, subst (λ (x : List (List ℕ)). SameLengths x es) (ok-injective r) h)
write_parts-SameLengths ((file, offset, n) ∷ info) xs ys ds es after l h r =
    elim (Option-cases (get_elem? ds file)) [
      | inl none_ ↦ absurd (fault-ok (rw none_ at r))
      | inr (d, g) ↦
          let (e, g', same) = SameLengths-get ds es file d h g in
          let left_same =
            length-drop_lem n xs ∙ ap (λ (k : ℕ). k - n) l ∙ sym (length-drop_lem n ys) in
          let as_long : length (stream_write d offset (take n xs))
              ≡ length (stream_write e offset (take n ys)) =
            omega (
              arith,
              length-stream_write d offset (take n xs),
              length-stream_write e offset (take n ys),
              length-take-min n xs,
              length-take-min n ys,
              l,
              same,
            ) in
          let (after', r', s) =
            write_parts-SameLengths info (drop n xs) (drop n ys) _ _ after left_same
              (SameLengths-set ds es file _ _ h as_long) (rw g at r) in
          (after', rw g' r', s)
    ]

SameLengths-length : (ds es : List (List ℕ)) → SameLengths ds es → length ds ≡ length es
SameLengths-length [] [] h = refl
SameLengths-length [] (e ∷ es) h = absurd h
SameLengths-length (d ∷ ds) [] h = absurd h
SameLengths-length (d ∷ ds) (e ∷ es) h = ap suc (SameLengths-length ds es h.1)

write_value-SameLengths :
    (ls : List ℕ) (offset : ℕ) (xs ys : List ℕ) (ds es after : List (List ℕ))
    → length xs ≡ length ys
    → SameLengths ds es
    → write_value ls (offset, xs) ds ≡ ok after
    → (after' : List (List ℕ)) × (write_value ls (offset, ys) es ≡ ok after')
      × SameLengths after after'
unfolding write_value
write_value-SameLengths ls offset xs ys ds es after l h r = elim (Bool-cases (length ds == 0)) [
  | inl none_ ↦ absurd (fault-ok (rw none_ at r))
  | inr some_ ↦ elim (Result-cases (calculate_files_write_info ls offset (length xs))) [
    | inl (bad, failed) ↦ absurd (fault-ok (rw (some_, failed) at r))
    | inr (info, made) ↦
        let (after', r', s) =
          write_parts-SameLengths info xs ys ds es after l h (rw (some_, made) at r) in
        let opened : (length es == 0) ≡ false = rw (← SameLengths-length ds es h) some_ in
        (after', rw (opened, ← l, made) r', s)
  ]
]

-- The same value with every byte 1.
abbrev pub blank : ℕ × List ℕ → ℕ × List ℕ
blank (offset, bytes) = (offset, map (λ (b : ℕ). 1) bytes)

abbrev pub blank_turn : Turn → Turn
blank_turn t = record {
  stopped = t.stopped;
  dequeued = elim t.dequeued [ none ↦ none | some v ↦ some (blank v) ];
}

pub file_writer-SameLengths :
    (fm : FileManager) (ts : List Turn) (c : ℕ) (ds es after : List (List ℕ)) (ended : Bool)
    → SameLengths ds es
    → file_writer fm ts c ds ≡ ok (after, ended)
    → (after' : List (List ℕ)) × (file_writer fm (map blank_turn ts) c es ≡ ok (after', ended))
      × SameLengths after after'
unfolding file_writer
file_writer-SameLengths fm [] c ds es after ended h r = (
  es,
  ap (λ (b : Bool). ok (es, b)) (ap (λ (p : List (List ℕ) × Bool). p.1) (ok-injective r)),
  subst (λ (x : List (List ℕ)). SameLengths x es)
      (ap (λ (p : List (List ℕ) × Bool). p.0) (ok-injective r)) h,
)
file_writer-SameLengths fm (t ∷ ts) c ds es after ended h r =
    elim (Bool-cases (t.stopped || c == fm.num_pieces)) [
      | inl over ↦
          let same = ok-injective (rw over at r) in
          (
            es,
            rw over (ap (λ (b : Bool). ok (es, b)) (ap (λ (p : List (List ℕ) × Bool). p.1) same)),
            subst (λ (x : List (List ℕ)). SameLengths x es)
                (ap (λ (p : List (List ℕ) × Bool). p.0) same) h,
          )
      | inr on ↦ elim (Option-cases t.dequeued) [
        | inl d ↦
            let (after', r', s) =
              file_writer-SameLengths fm ts c ds es after ended h (rw (on, d) at r) in
            (after', rw (on, d) r', s)
        | inr (v, d) ↦ elim (Result-cases (write_value fm.file_lengths v ds)) [
          | inl (bad, failed) ↦ absurd (fault-ok (rw (on, d, failed) at r))
          | inr (next, wrote) ↦
              let (next', wrote', k) =
                write_value-SameLengths fm.file_lengths v.0 v.1 (blank v).1 ds es next
                  (sym (length-map (λ (b : ℕ). 1) v.1)) h wrote in
              let (after', r', s) =
                file_writer-SameLengths fm ts ((c + 1) % 2 ^ 32) next next' after ended k
                  (rw (on, d, wrote) at r) in
              (after', rw (on, d) (rw wrote' r'), s)
        ]
      ]
    ]

pub taken-blank : (ts : List Turn) → taken (map blank_turn ts) ≡ map blank (taken ts)
taken-blank [] = refl
taken-blank (t ∷ ts) = elim (Option-cases t.dequeued) [
  | inl d ↦ rw d (taken-blank ts)
  | inr (v, d) ↦ rw d (ap (◌∷◌ (blank v)) (taken-blank ts))
]

pub AllRunning-blank : (ts : List Turn) → AllRunning ts → AllRunning (map blank_turn ts)
AllRunning-blank [] h = tt
AllRunning-blank (t ∷ ts) h = (h.0, AllRunning-blank ts h.1)

pub map-append {ℓ κ} :
    {A : Type ℓ} {B : Type κ} (f : A → B) (xs ys : List A) → map f (xs ++ ys) ≡ map f xs ++ map f ys
map-append f [] ys = refl
map-append f (x ∷ xs) ys = ap (◌∷◌ (f x)) (map-append f xs ys)

pub get-map {ℓ κ} :
    {A : Type ℓ} {B : Type κ} (f : A → B) (xs : List A) (j : ℕ) (b : B)
    → get_elem? (map f xs) j ≡ some b
    → (a : A) × (get_elem? xs j ≡ some a) × (f a ≡ b)
get-map f [] j b g = ground arith
get-map f (x ∷ xs) zero b g = (x, refl, ground arith)
get-map f (x ∷ xs) (suc j) b g = get-map f xs j b g
