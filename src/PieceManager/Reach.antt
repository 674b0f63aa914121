-- ===== src/PieceManager/Reach.antt =====
-- That the files of src/file_manager.cpp have their lengths after a whole download: where every byte
-- belongs to a piece, every byte has been written.
use simpletorrent.Base.{
  ℕ, zero, suc, ◌+◌, ◌-◌, ◌*◌, ◌^◌, ◌≤◌, ◌<◌, ◌≡◌, refl, sym, ap, ◌∙◌, subst, inl, inr, Bool, true,
  some, List, [], ◌∷◌, ◌++◌, map, length, get_elem?, get_elem?-lt, overwrite, length-overwrite,
  length-map, ==→eq, eq→==, if_true, ok, ok-injective, arith,
}
use simpletorrent.FileManager.{file_writer, Turn}
use simpletorrent.FileManager.Layout.{concat, sum, HasLengths, length-concat}
use simpletorrent.FileManager.Fill.{HasRoom, fill, fill-HasLengths}
use simpletorrent.FileManager.Writer.{writes, taken, AllRunning, AllWithin, file_writer-Written}
use simpletorrent.FileManager.Lengths.{
  SameLengths-refl, blank, blank_turn, file_writer-SameLengths, taken-blank, AllRunning-blank,
  map-append, get-map,
}
use simpletorrent.FileManager.Full.{AllOnes, AllOnes-HasLengths, SameLengths-HasLengths, get-part}
use simpletorrent.FileManager.Places.{IsPlaced, AllPlaced, writes-part}
use simpletorrent.PieceManager.{Platform, PieceManager, is_download_complete}
use simpletorrent.PieceManager.Sizes.{Sizes}
use simpletorrent.PieceManager.History.{Good, is_download_complete-IsSaved}
use simpletorrent.PieceManager.Disk.{Fills, saved-IsPlaced, queue-AllPlaced, queue-AllWithin}

-- Every byte belongs to a piece.
abbrev pub Covers : Sizes → ℕ → ℕ → Type 0
Covers sizes n total =
    (p : ℕ)
    → p < total
    → (k : ℕ) × (k < n) × (k * sizes.piece_length ≤ p) × (p < k * sizes.piece_length + sizes.size k)

length-writes : (vs : List (ℕ × List ℕ)) (row : List ℕ) → length (writes vs row) ≡ length row
length-writes [] row = refl
length-writes (v ∷ vs) row = length-writes vs (overwrite row v.0 v.1) ∙ length-overwrite row v.0 v.1

map-get :
    (vs : List (ℕ × List ℕ)) (j : ℕ) (v : ℕ × List ℕ)
    → get_elem? vs j ≡ some v
    → get_elem? (map blank vs) j ≡ some (blank v)
map-get [] j v g = ground arith
map-get (w ∷ vs) zero v g =
    let same : w ≡ v = ground arith in ap (λ (x : ℕ × List ℕ). some (blank x)) same
map-get (w ∷ vs) (suc j) v g = map-get vs j v g

length-blank : (v : ℕ × List ℕ) → length (blank v).1 ≡ length v.1
length-blank v = length-map {B = ℕ} (λ (x : ℕ). 1) v.1

AllWithin-blank : (n : ℕ) (vs : List (ℕ × List ℕ)) → AllWithin n vs → AllWithin n (map blank vs)
AllWithin-blank n [] h = tt
AllWithin-blank n (v ∷ vs) (a, b, h) = (a, omega (arith, b, length-blank v), AllWithin-blank n vs h)

blank_ones : (u v : ℕ × List ℕ) (i b : ℕ) → blank u ≡ v → get_elem? v.1 i ≡ some b → b ≡ 1
blank_ones u v i b e g =
    let same : get_elem? (blank u).1 i ≡ some b = ap (λ (x : ℕ × List ℕ). get_elem? x.1 i) e ∙ g in
    let (_, _, one) = get-map (λ (x : ℕ). 1) u.1 i b same in sym one

module _ (platform : Platform) (n total : ℕ) (sizes : Sizes) (pm : PieceManager)
    (f : Fills sizes n total) (g : Good platform n sizes pm) where
  abbrev queue : List (ℕ × List ℕ)
  queue = map blank pm.file_manager.write_queue

  blank-IsPlaced :
      (v : ℕ × List ℕ) (k : ℕ)
      → IsPlaced sizes.piece_length total sizes.size f.some_bytes f.usual v k
      → IsPlaced sizes.piece_length total sizes.size f.some_bytes f.usual (blank v) k
  blank-IsPlaced v k p = (p.0, length-blank v ∙ p.1, p.2)

  blank-AllPlaced : AllPlaced sizes.piece_length total sizes.size f.some_bytes f.usual queue
  blank-AllPlaced j v h =
      let (u, at_j, e) = get-map blank pm.file_manager.write_queue j v h in
      let (k, p) = queue-AllPlaced platform n total sizes pm f g j u at_j in
      (
        k,
        subst
            (λ (x : ℕ × List ℕ).
              IsPlaced sizes.piece_length total sizes.size f.some_bytes f.usual x k)
            e (blank-IsPlaced u k p),
      )

  row-AllOnes :
      (row : List ℕ)
      → length row ≡ total
      → is_download_complete pm ≡ true
      → Covers sizes n total
      → AllOnes (writes queue row)
  row-AllOnes row len done covers p b at_p =
      let (k, inside, low, high) =
        covers p (omega (arith, get_elem?-lt _ p at_p, length-writes queue row, len)) in
      let i = p - k * sizes.piece_length in
      let place : k * sizes.piece_length + i ≡ p = omega (arith, low) in
      let part_i =
        get-part (writes queue row) (k * sizes.piece_length) (sizes.size k) i b
          (omega (arith, low, high)) (ap (get_elem? (writes queue row)) place ∙ at_p) in
      elim (writes-part sizes.piece_length total sizes.size f.some_bytes f.usual queue row k len
        blank-AllPlaced) [
          | inl (j, v, at_j, _, e) ↦
              let (u, _, same) = get-map blank pm.file_manager.write_queue j v at_j in
              blank_ones u v i b same (ap (λ (x : List ℕ). get_elem? x i) (sym e) ∙ part_i)
          | inr (e, none_) ↦
              let (m, j, v, at_k, at_j, s) =
                is_download_complete-IsSaved platform n sizes pm g done k inside in
              let placed =
                blank-IsPlaced v k (saved-IsPlaced platform n total sizes pm f g k m v at_k s) in
              absurd (none_ j (blank v) (map-get pm.file_manager.write_queue j v at_j) placed)
        ]

  -- Once the writer has taken all of its queue, each file has its length.
  pub file_writer-HasLengths :
      (turns : List Turn) (t : Turn) (more : List Turn) (disk after : List (List ℕ))
      → is_download_complete pm ≡ true
      → AllRunning turns
      → taken turns ≡ pm.file_manager.write_queue
      → HasRoom sizes.files disk
      → sum sizes.files ≡ total
      → n < 2 ^ 32
      → Covers sizes n total
      → file_writer pm.file_manager (turns ++ (t ∷ more)) 0 disk ≡ ok (after, true)
      → HasLengths sizes.files after
  unfolding is_download_complete
  file_writer-HasLengths turns t more disk after done running all room filled small covers ran =
      let fm = pm.file_manager in
      let filled' : sum fm.file_lengths ≡ total = ap sum g.files ∙ filled in
      let room' = subst (λ (ls : List ℕ). HasRoom ls disk) (sym g.files) room in
      let all' : taken (map blank_turn turns) ≡ queue = taken-blank turns ∙ ap (map blank) all in
      let as_many : 0 + length (taken (map blank_turn turns)) ≡ fm.num_pieces = rw all' (
        omega (
          arith,
          length-map blank fm.write_queue,
          g.faithful.as_many,
          ==→eq _ _ done,
          g.many,
          g.num_pieces,
        )) in
      let within : AllWithin (sum fm.file_lengths) (taken (map blank_turn turns)) =
        rw (all', filled')
          (AllWithin-blank total fm.write_queue (queue-AllWithin platform n total sizes pm f g)) in
      let (blanks, e, h, w) =
        file_writer-Written fm (map blank_turn turns) (blank_turn t) (map blank_turn more) 0 disk
          (AllRunning-blank turns running) room' within (omega (arith, as_many))
          (omega (arith, g.num_pieces)) in
      let (shadow, e', s) =
        file_writer-SameLengths fm (turns ++ (t ∷ more)) 0 disk disk after true
          (SameLengths-refl disk) ran in
      let split = map-append blank_turn turns (t ∷ more) in
      let same = ok-injective (
        sym e'
        ∙ ap (λ (ts : List Turn). file_writer fm ts 0 disk) split
        ∙ e
        ∙ if_true _ _ (eq→== _ _ as_many)) in
      let len = length-concat _ _ (fill-HasLengths fm.file_lengths disk room') ∙ filled' in
      let row_eq : concat (fill fm.file_lengths blanks)
          ≡ writes queue (concat (fill fm.file_lengths disk)) =
        w ∙ ap (λ (vs : List (ℕ × List ℕ)). writes vs (concat (fill fm.file_lengths disk))) all' in
      let ones =
        subst AllOnes (sym row_eq)
          (row-AllOnes (concat (fill fm.file_lengths disk)) len done covers) in
      let full = AllOnes-HasLengths fm.file_lengths blanks h ones in
      let shadow_full =
        subst (HasLengths fm.file_lengths) (sym (ap (λ (p : List (List ℕ) × Bool). p.0) same))
          full in
      subst (λ (ls : List ℕ). HasLengths ls after) g.files
        (SameLengths-HasLengths fm.file_lengths after shadow s shadow_full)
