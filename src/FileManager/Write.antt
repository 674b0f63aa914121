-- ===== src/FileManager/Write.antt =====
-- How the writer of src/file_manager.cpp spreads one piece over the files.
use mathlib.Core.List.{append_assoc}
use simpletorrent.Base.{
  ℕ, zero, suc, ◌+◌, ◌-◌, ◌≤◌, ◌<◌, min, ◌≡◌, refl, sym, ap, ◌∙◌, inl, inr, false, some, List, [],
  ◌∷◌, ◌++◌, length, get_elem?, set, take, drop, overwrite, leb, ◌==◌, Result, ok, arith,
  Bool-cases, length-append, length-drop_lem, length-take-min, length-overwrite,
}
use simpletorrent.FileManager.{
  start_file, split_bytes, calculate_files_write_info, stream_write, write_parts, write_value,
}
use simpletorrent.FileManager.Layout.{
  concat, sum, HasLengths, overwrite-nil, overwrite-behind, overwrite-split, concat-append,
  HasLengths-replace,
}

-- A write within a file does not make it longer.
stream_write-overwrite :
    (xs : List ℕ) (i : ℕ) (ys : List ℕ)
    → i + length ys ≤ length xs
    → stream_write xs i ys ≡ overwrite xs i ys
unfolding stream_write
stream_write-overwrite [] zero [] h = refl
stream_write-overwrite [] zero (y ∷ ys) h = absurd (omega arith)
stream_write-overwrite [] (suc i) ys h = absurd (omega arith)
stream_write-overwrite (x ∷ xs) zero [] h = refl
stream_write-overwrite (x ∷ xs) zero (y ∷ ys) h =
    ap (◌∷◌ y) (stream_write-overwrite xs zero ys (omega arith))
stream_write-overwrite (x ∷ xs) (suc i) ys h =
    ap (◌∷◌ x) (stream_write-overwrite xs i ys (omega arith))

get-middle {ℓ} :
    {A : Type ℓ} (pre : List A) (d : A) (ds : List A)
    → get_elem? (pre ++ (d ∷ ds)) (length pre) ≡ some d
get-middle [] d ds = refl
get-middle (p ∷ pre) d ds = get-middle pre d ds

set-middle {ℓ} :
    {A : Type ℓ} (pre : List A) (d x : A) (ds : List A)
    → set (pre ++ (d ∷ ds)) (length pre) x ≡ (pre ++ (x ∷ [])) ++ ds
set-middle [] d x ds = refl
set-middle (p ∷ pre) d x ds = ap (◌∷◌ p) (set-middle pre d x ds)

-- The files from `current` on, after the parts of `bytes` have been written to them.
abbrev pub Written : List (List ℕ) → List (List ℕ) → List ℕ → ℕ → ℕ → List ℕ → Type 0
Written pre ds ls current offset bytes =
    (info : List (ℕ × ℕ × ℕ)) × (es : List (List ℕ)) × (split_bytes ls current offset (length bytes)
      ≡ ok info)
    × (write_parts info bytes (pre ++ ds) ≡ ok (pre ++ es))
    × HasLengths ls es
    × (concat es ≡ overwrite (concat ds) offset bytes)

split_step :
    (l : ℕ) (ls : List ℕ) (current offset len n r : ℕ) (info : List (ℕ × ℕ × ℕ))
    → 0 < len
    → min len (l - offset) ≡ n
    → len - n ≡ r
    → split_bytes ls (current + 1) 0 r ≡ ok info
    → split_bytes (l ∷ ls) current offset len ≡ ok ((current, offset, n) ∷ info)
unfolding split_bytes
split_step l ls current offset zero n r info pos a b e = absurd (omega arith)
split_step l ls current offset (suc len) n r info pos a b e =
    let some_left : (suc len == 0) ≡ false = ground arith in rw (a, b, e, some_left) refl

write_step :
    (pre ds : List (List ℕ)) (d x : List ℕ) (current offset n : ℕ) (parts : List (ℕ × ℕ × ℕ))
    (bytes : List ℕ) (r : Result (List (List ℕ)))
    → length pre ≡ current
    → stream_write d offset (take n bytes) ≡ x
    → write_parts parts (drop n bytes) ((pre ++ (x ∷ [])) ++ ds) ≡ r
    → write_parts ((current, offset, n) ∷ parts) bytes (pre ++ (d ∷ ds)) ≡ r
unfolding write_parts
write_step pre ds d x current offset n parts bytes r p s e =
    rw (← p, get-middle pre d ds, s, set-middle pre d x ds) e

pub split_bytes-Written :
    (ls : List ℕ) (pre ds : List (List ℕ)) (current offset : ℕ) (bytes : List ℕ)
    → length pre ≡ current
    → HasLengths ls ds
    → offset + length bytes ≤ sum ls
    → ((l : ℕ) (rest : List ℕ) → ls ≡ l ∷ rest → offset ≤ l)
    → Written pre ds ls current offset bytes
unfolding split_bytes write_parts
split_bytes-Written [] pre [] current offset [] p h fits inside = ([], [], refl, refl, tt, refl)
split_bytes-Written [] pre [] current offset (b ∷ bs) p h fits inside = absurd (omega arith)
split_bytes-Written [] pre (d ∷ ds) current offset bytes p h fits inside = absurd h
split_bytes-Written (l ∷ ls) pre [] current offset bytes p h fits inside = absurd h
split_bytes-Written (l ∷ ls) pre (d ∷ ds) current offset [] p h fits inside =
    ([], d ∷ ds, refl, refl, h, sym (overwrite-nil (d ++ concat ds) offset))
split_bytes-Written (l ∷ ls) pre (d ∷ ds) current offset (b ∷ bs) p h fits inside =
    let bytes = b ∷ bs in
    let n = min (length bytes) (l - offset) in
    let within : offset ≤ l = inside l ls refl in
    let len : length d ≡ l = h.0 in
    let x = overwrite d offset (take n bytes) in
    let rest_length = length-drop_lem n bytes in
    let (info, es, e, w, hl, c) =
      split_bytes-Written ls (pre ++ (x ∷ [])) ds (current + 1) 0 (drop n bytes)
        (length-append pre (x ∷ []) ∙ omega (arith, p)) h.1 (omega (arith, rest_length))
        (λ m r q. omega arith) in
    let stream =
      stream_write-overwrite d offset (take n bytes) (omega (arith, length-take-min n bytes)) in
    (
      (current, offset, n) ∷ info,
      x ∷ es,
      split_step l ls current offset (length bytes) n (length (drop n bytes)) info (omega arith)
          refl (sym rest_length) e,
      write_step pre ds d x current offset n info bytes (ok (pre ++ (x ∷ es))) p stream
          (w ∙ ap ok (append_assoc pre (x ∷ []) es)),
      (length-overwrite d offset (take n bytes) ∙ len, hl),
      sym (
          overwrite-split d (concat ds) bytes offset n (omega arith) (omega arith)
          ∙ ap (◌++◌ x) (sym c)),
    )

-- Where the first loop stops: at a file with `offset` in it, behind the files of `pre`.
abbrev pub Found : List ℕ → List (List ℕ) → ℕ → ℕ → Type 0
Found ls ds current offset =
    (pre rest : List (List ℕ)) × (off : ℕ) × (start_file ls current offset
      ≡ ok (current + length pre, off))
    × (ds ≡ pre ++ rest)
    × HasLengths (drop (length pre) ls) rest
    × ((l : ℕ) (more : List ℕ) → drop (length pre) ls ≡ l ∷ more → off ≤ l)
    × (offset ≡ length (concat pre) + off)
    × (sum ls ≡ length (concat pre) + sum (drop (length pre) ls))
    × HasLengths ls (pre ++ rest)

pub start_file-Found :
    (ls : List ℕ) (ds : List (List ℕ)) (current offset : ℕ)
    → HasLengths ls ds
    → offset < sum ls
    → Found ls ds current offset
unfolding start_file
start_file-Found [] ds current offset h inside = absurd (omega arith)
start_file-Found (l ∷ ls) [] current offset h inside = absurd h
start_file-Found (l ∷ ls) (d ∷ ds) current offset h inside = elim (Bool-cases (leb l offset)) [
  | inl e ↦
      let (pre, rest, off, s, q, hl, o, eq, tot, al) =
        start_file-Found ls ds (current + 1) (offset - l) h.1 (ground arith) in
      let len : length d ≡ l = h.0 in
      let concat_length = length-append d (concat pre) in
      let shift : current + 1 + length pre ≡ current + suc (length pre) = omega arith in
      let past : l ≤ offset = ground arith in
      (
        d ∷ pre,
        rest,
        off,
        rw e (s ∙ ap (λ (j : ℕ). ok (j, off)) shift),
        ap (◌∷◌ d) q,
        hl,
        o,
        omega arith,
        omega arith,
        (h.0, al),
      )
  | inr e ↦
      let before : current + 0 ≡ current = omega arith in
      (
        [],
        d ∷ ds,
        offset,
        rw (e, before) refl,
        refl,
        h,
        (λ m more q.
            let same : l ≡ m = ground arith in
            let short : offset < l = ground arith in omega arith),
        omega arith,
        omega arith,
        h,
      )
]

pub write_value-composes :
    (ls : List ℕ) (d : List ℕ) (ds : List (List ℕ)) (offset : ℕ) (bytes : List ℕ) (current off : ℕ)
    (info : List (ℕ × ℕ × ℕ)) (r : Result (List (List ℕ)))
    → start_file ls 0 offset ≡ ok (current, off)
    → split_bytes (drop current ls) current off (length bytes) ≡ ok info
    → write_parts info bytes (d ∷ ds) ≡ r
    → write_value ls (offset, bytes) (d ∷ ds) ≡ r
unfolding write_value calculate_files_write_info
write_value-composes ls d ds offset bytes current off info r s e w =
    let opened : (length (d ∷ ds) == 0) ≡ false = ground arith in rw (opened, s) (rw e w)

-- With the files at their lengths, to write a piece that ends within the torrent returns, keeps the
-- length of each file, and on the files read one after the other replaces the bytes from the offset
-- on by those of the piece and leaves all others.
pub write_value-overwrite :
    (ls : List ℕ) (disk : List (List ℕ)) (offset : ℕ) (bytes : List ℕ)
    → HasLengths ls disk
    → offset < sum ls
    → offset + length bytes ≤ sum ls
    → (after : List (List ℕ)) × (write_value ls (offset, bytes) disk ≡ ok after)
      × HasLengths ls after
      × (concat after ≡ overwrite (concat disk) offset bytes)
write_value-overwrite [] disk offset bytes h inside fits = absurd (omega arith)
write_value-overwrite (l ∷ ls) [] offset bytes h inside fits = absurd h
write_value-overwrite (l ∷ ls) (d ∷ ds) offset bytes h inside fits =
    let (pre, rest, off, s, q, hl, o, eq, tot, al) =
      start_file-Found (l ∷ ls) (d ∷ ds) 0 offset h inside in
    let (info, es, e, w, hs, c) =
      split_bytes-Written (drop (length pre) (l ∷ ls)) pre rest (length pre) off bytes refl hl
        (omega arith) o in
    let zero_left : 0 + length pre ≡ length pre = omega arith in
    let row : concat pre ++ concat rest ≡ concat (d ∷ ds) =
      sym (concat-append pre rest) ∙ ap concat (sym q) in
    (
      pre ++ es,
      write_value-composes (l ∷ ls) d ds offset bytes (length pre) off info (ok (pre ++ es))
          (s ∙ ap (λ (j : ℕ). ok (j, off)) zero_left) e (rw q w),
      HasLengths-replace (l ∷ ls) pre rest es al hs,
      concat-append pre es
          ∙ ap (◌++◌ (concat pre)) c
          ∙ sym (overwrite-behind (concat pre) (concat rest) bytes off)
          ∙ ap (λ (r : List ℕ). overwrite r (length (concat pre) + off) bytes) row
          ∙ ap (λ (j : ℕ). overwrite (concat (d ∷ ds)) j bytes) (sym eq),
    )
