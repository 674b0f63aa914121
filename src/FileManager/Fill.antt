-- ===== src/FileManager/Fill.antt =====
-- The files of src/file_manager.cpp while they are shorter than they are to be: read as if zeros stood
-- behind the end of each, up to its length.
use simpletorrent.Base.{
  ℕ, zero, suc, ◌+◌, ◌≤◌, ◌<◌, ◌≡◌, refl, sym, ap, ◌∙◌, subst, inl, inr, false, some, List, [], ◌∷◌,
  length, get_elem?, set, take, drop, resize, overwrite, min, ◌==◌, ok, ok-injective, fault-ok,
  Result-cases, ◌-◌, arith, length-resize, length-take-min,
}
use simpletorrent.FileManager.{split_bytes, stream_write, write_parts, write_value}
use simpletorrent.FileManager.Layout.{concat, sum, HasLengths}
use simpletorrent.FileManager.Write.{
  write_value-overwrite, split_bytes-Written, start_file-Found, write_value-composes,
}

-- No file is longer than it is to be.
abbrev pub HasRoom : List ℕ → List (List ℕ) → Type 0
HasRoom [] [] = Unit {0}
HasRoom [] (d ∷ ds) = ⊥
HasRoom (l ∷ ls) [] = ⊥
HasRoom (l ∷ ls) (d ∷ ds) = (length d ≤ l) × HasRoom ls ds

abbrev pub fill : List ℕ → List (List ℕ) → List (List ℕ)
fill [] ds = []
fill (l ∷ ls) [] = []
fill (l ∷ ls) (d ∷ ds) = resize d l 0 ∷ fill ls ds

pub fill-HasLengths :
    (ls : List ℕ) (ds : List (List ℕ)) → HasRoom ls ds → HasLengths ls (fill ls ds)
fill-HasLengths [] [] h = tt
fill-HasLengths [] (d ∷ ds) h = absurd h
fill-HasLengths (l ∷ ls) [] h = absurd h
fill-HasLengths (l ∷ ls) (d ∷ ds) h = (length-resize d l 0, fill-HasLengths ls ds h.1)

-- A write that ends within the length that the file is to have.
stream_write-resize :
    (xs : List ℕ) (l i : ℕ) (ys : List ℕ)
    → length xs ≤ l
    → i + length ys ≤ l
    → (resize (stream_write xs i ys) l 0 ≡ stream_write (resize xs l 0) i ys)
      × (length (stream_write xs i ys) ≤ l)
unfolding stream_write
stream_write-resize [] zero zero [] h k = (refl, omega arith)
stream_write-resize [] (suc l) zero [] h k = (refl, omega arith)
stream_write-resize [] zero zero (y ∷ ys) h k = absurd (omega arith)
stream_write-resize [] (suc l) zero (y ∷ ys) h k =
    let (e, n) = stream_write-resize [] l zero ys (omega arith) (omega arith) in
    (ap (◌∷◌ y) e, omega (arith, k))
stream_write-resize [] zero (suc i) ys h k = absurd (omega arith)
stream_write-resize [] (suc l) (suc i) ys h k =
    let (e, n) = stream_write-resize [] l i ys (omega arith) (omega arith) in
    (ap (◌∷◌ 0) e, omega (arith, n))
stream_write-resize (x ∷ xs) zero i ys h k = absurd (omega arith)
stream_write-resize (x ∷ xs) (suc l) zero [] h k = (refl, h)
stream_write-resize (x ∷ xs) (suc l) zero (y ∷ ys) h k =
    let (e, n) = stream_write-resize xs l zero ys (omega arith) (omega arith) in
    (ap (◌∷◌ y) e, omega (arith, n))
stream_write-resize (x ∷ xs) (suc l) (suc i) ys h k =
    let (e, n) = stream_write-resize xs l i ys (omega arith) (omega arith) in
    (ap (◌∷◌ x) e, omega (arith, n))

get-fill :
    (ls : List ℕ) (ds : List (List ℕ)) (file l : ℕ)
    → HasRoom ls ds
    → get_elem? ls file ≡ some l
    → (d : List ℕ) × (get_elem? ds file ≡ some d)
      × (length d ≤ l)
      × (get_elem? (fill ls ds) file ≡ some (resize d l 0))
get-fill [] ds file l h g = ground arith
get-fill (m ∷ ls) [] file l h g = absurd h
get-fill (m ∷ ls) (d ∷ ds) zero l h g =
    let same : m ≡ l = ground arith in
    (d, refl, omega (arith, h.0, same), ap (λ (n : ℕ). some (resize d n 0)) same)
get-fill (m ∷ ls) (d ∷ ds) (suc file) l h g = get-fill ls ds file l h.1 g

set-fill :
    (ls : List ℕ) (ds : List (List ℕ)) (file l : ℕ) (x : List ℕ)
    → HasRoom ls ds
    → get_elem? ls file ≡ some l
    → length x ≤ l
    → HasRoom ls (set ds file x) × (fill ls (set ds file x) ≡ set (fill ls ds) file (resize x l 0))
set-fill [] ds file l x h g k = ground arith
set-fill (m ∷ ls) [] file l x h g k = absurd h
set-fill (m ∷ ls) (d ∷ ds) zero l x h g k =
    let same : m ≡ l = ground arith in
    ((omega arith, h.1), ap (λ (n : ℕ). resize x n 0 ∷ fill ls ds) same)
set-fill (m ∷ ls) (d ∷ ds) (suc file) l x h g k =
    let (r, e) = set-fill ls ds file l x h.1 g k in ((h.0, r), ap (◌∷◌ (resize d m 0)) e)

-- Each part lies within the length of its file.
abbrev Fits : List ℕ → List (ℕ × ℕ × ℕ) → Type 0
Fits ls [] = Unit {0}
Fits ls ((file, offset, n) ∷ parts) =
    ((l : ℕ) × (get_elem? ls file ≡ some l) × (offset + n ≤ l)) × Fits ls parts

write_parts-fill :
    (ls : List ℕ) (info : List (ℕ × ℕ × ℕ)) (bytes : List ℕ) (ds : List (List ℕ))
    → Fits ls info
    → HasRoom ls ds
    → (es : List (List ℕ)) × (write_parts info bytes ds ≡ ok es)
      × HasRoom ls es
      × (write_parts info bytes (fill ls ds) ≡ ok (fill ls es))
unfolding write_parts
write_parts-fill ls [] bytes ds f h = (ds, refl, h, refl)
write_parts-fill ls ((file, offset, n) ∷ info) bytes ds ((l, at_file, inside), f) h =
    let (d, g, short, g') = get-fill ls ds file l h at_file in
    let x = stream_write d offset (take n bytes) in
    let (e, k) =
      stream_write-resize d l offset (take n bytes) short
        (omega (arith, length-take-min n bytes)) in
    let (room, same) = set-fill ls ds file l x h at_file k in
    let (es, w, r, w') = write_parts-fill ls info (drop n bytes) (set ds file x) f room in
    (es, rw g w, r, rw (g', ← e, ← same) w')

split_bytes-Fits :
    (all ls : List ℕ) (current offset len : ℕ) (info : List (ℕ × ℕ × ℕ))
    → ((j l : ℕ) → get_elem? ls j ≡ some l → get_elem? all (current + j) ≡ some l)
    → ((l : ℕ) (rest : List ℕ) → ls ≡ l ∷ rest → offset ≤ l)
    → split_bytes ls current offset len ≡ ok info
    → Fits all info
unfolding split_bytes
split_bytes-Fits all [] current offset zero info at_ls inside e =
    subst (Fits all) (ok-injective e) tt
split_bytes-Fits all [] current offset (suc len) info at_ls inside e =
    let some_left : (suc len == 0) ≡ false = ground arith in absurd (fault-ok (rw some_left at e))
split_bytes-Fits all (l ∷ ls) current offset zero info at_ls inside e =
    subst (Fits all) (ok-injective e) tt
split_bytes-Fits all (l ∷ ls) current offset (suc len) info at_ls inside e =
    let n = min (suc len) (l - offset) in
    let first = at_ls 0 l refl in
    let here : current + 0 ≡ current = omega arith in
    let some_left : (suc len == 0) ≡ false = ground arith in
    elim (Result-cases (split_bytes ls (current + 1) 0 (suc len - n))) [
      | inl (bad, failed) ↦ absurd (fault-ok (rw (some_left, failed) at e))
      | inr (parts, made) ↦
          let whole : (current, offset, n) ∷ parts ≡ info =
            ok-injective (rw (some_left, made) at e) in
          let within = inside l ls refl in
          subst (Fits all) whole (
            (l, rw here at first, omega arith),
            split_bytes-Fits all ls (current + 1) 0 (suc len - n) parts
                (λ j m g.
                  let next : current + suc j ≡ current + 1 + j = omega arith in
                  rw next at (at_ls (suc j) m g))
                (λ m rest q. omega arith) made,
          )
    ]

get-drop :
    (ls : List ℕ) (k j l : ℕ) → get_elem? (drop k ls) j ≡ some l → get_elem? ls (k + j) ≡ some l
get-drop ls zero j l g = let same : 0 + j ≡ j = omega arith in rw same g
get-drop [] (suc k) j l g = ground arith
get-drop (m ∷ ls) (suc k) j l g =
    let same : suc k + j ≡ suc (k + j) = omega arith in rw same (get-drop ls k j l g)

-- With no file longer than it is to be, to write a piece that ends within the torrent returns and keeps
-- that; and read with the zeros behind the end of each, the files have the bytes of the piece from the
-- offset on, and all others as before.
pub write_value-fill :
    (ls : List ℕ) (disk : List (List ℕ)) (offset : ℕ) (bytes : List ℕ)
    → HasRoom ls disk
    → offset < sum ls
    → offset + length bytes ≤ sum ls
    → (after : List (List ℕ)) × (write_value ls (offset, bytes) disk ≡ ok after)
      × HasRoom ls after
      × (concat (fill ls after) ≡ overwrite (concat (fill ls disk)) offset bytes)
write_value-fill [] disk offset bytes h inside within = absurd (omega arith)
write_value-fill (l ∷ ls) [] offset bytes h inside within = absurd h
write_value-fill (l ∷ ls) (d ∷ ds) offset bytes h inside within =
    let all = l ∷ ls in
    let disk = d ∷ ds in
    let full = fill-HasLengths all disk h in
    let (after, e, _, c) =
      write_value-overwrite all (fill all disk) offset bytes full inside within in
    let (pre, rest, off, s, q, hl, o, eq, tot, al) =
      start_file-Found all (fill all disk) 0 offset full inside in
    let k = length pre in
    let (info, _, p, _, _, _) =
      split_bytes-Written (drop k all) pre rest k off bytes refl hl (omega arith) o in
    let fits = split_bytes-Fits all (drop k all) k off (length bytes) info (get-drop all k) o p in
    let (es, w, room, w') = write_parts-fill all info bytes disk fits h in
    let zero_left : 0 + k ≡ k = omega arith in
    let start = s ∙ ap (λ (j : ℕ). ok (j, off)) zero_left in
    let run' =
      write_value-composes all (resize d l 0) (fill ls ds) offset bytes k off info
        (ok (fill all es)) start p w' in
    (
      es,
      write_value-composes all d ds offset bytes k off info (ok es) start p w,
      room,
      ap concat (ok-injective (sym run' ∙ e)) ∙ c,
    )
