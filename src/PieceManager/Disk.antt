-- ===== src/PieceManager/Disk.antt =====
-- What the files hold once the writer of src/file_manager.cpp has written all that
-- src/piece_manager.cpp has handed to it.
use native.Mathlib.Nat.{mod-eq_of_lt}
use simpletorrent.Base.{
  ℕ, ◌+◌, ◌*◌, ◌%◌, ◌^◌, ◌≤◌, ◌<◌, ◌≡◌, sym, ap, ◌∙◌, subst, inl, inr, true, some, List, length,
  get_elem?, get_elem?-lt, ==→eq, eq→==, if_true, ◌∷◌, ◌++◌, ok, arith,
}
use simpletorrent.Types.{PieceMetadata}
use simpletorrent.Util.Hex.{hex_decode}
use simpletorrent.FileManager.{file_writer, Turn}
use simpletorrent.FileManager.Layout.{concat, sum, length-concat}
use simpletorrent.FileManager.Fill.{HasRoom, fill, fill-HasLengths}
use simpletorrent.FileManager.Writer.{
  writes, taken, AllRunning, AllWithin, AllWithin-get, file_writer-Written,
}
use simpletorrent.FileManager.Places.{part, place_unique, IsPlaced, AllPlaced, writes-part}
use simpletorrent.PieceManager.{Platform, PieceManager, is_download_complete}
use simpletorrent.PieceManager.Run.{IsSaved}
use simpletorrent.PieceManager.Sizes.{Sizes}
use simpletorrent.PieceManager.History.{Good, is_download_complete-IsSaved}

-- The sizes of `n` pieces that fill `total` bytes.
pub record Fills (sizes : Sizes) (n total : ℕ) : Type 0 where
  pub some_bytes : 0 < sizes.piece_length
  pub usual : (k : ℕ) → sizes.size k ≤ sizes.piece_length
  pub inside : (k : ℕ) → k < n → k * sizes.piece_length + sizes.size k ≤ total
  pub begins : (k : ℕ) → k < n → k * sizes.piece_length < 2 ^ 32

-- The bytes of a row at the place of piece `k` have its size and the hash that is named for it.
abbrev pub Holds : Platform → Sizes → List ℕ → ℕ → Type 0
Holds platform sizes row k =
    let bytes = part (k * sizes.piece_length) (sizes.size k) row in
    (h : List ℕ) × (sizes.hash k ≡ some h)
    × (length bytes ≡ sizes.size k)
    × (hex_decode (platform.sha1 bytes) ≡ ok h)

module _ (platform : Platform) (n total : ℕ) (sizes : Sizes) (pm : PieceManager)
    (f : Fills sizes n total) (g : Good platform n sizes pm) where
  pub saved-IsPlaced :
      (k : ℕ) (m : PieceMetadata) (e : ℕ × List ℕ)
      → get_elem? pm.pieces k ≡ some m
      → IsSaved platform pm k m e
      → IsPlaced sizes.piece_length total sizes.size f.some_bytes f.usual e k
  saved-IsPlaced k m e at_k s =
      let inside = get_elem?-lt pm.pieces k at_k in
      let small = f.begins k (omega (arith, g.many)) in
      (
        s.offset ∙ ap (λ (l : ℕ). k * l % 2 ^ 32) g.same_length ∙ mod-eq_of_lt small,
        s.size ∙ (g.suits k m at_k).0,
        f.inside k (omega (arith, g.many)),
      )

  pub queue-AllPlaced :
      AllPlaced sizes.piece_length total sizes.size f.some_bytes f.usual pm.file_manager.write_queue
  queue-AllPlaced j v h =
      let (k, m, at_k, _, s) = g.faithful.sound j v h in (k, saved-IsPlaced k m v at_k s)

  pub queue-AllWithin : AllWithin total pm.file_manager.write_queue
  queue-AllWithin = AllWithin-get total pm.file_manager.write_queue (λ j v h.
      let (k, m, at_k, _, s) = g.faithful.sound j v h in
      let p = saved-IsPlaced k m v at_k s in
      let bytes = (g.inv.shaped k m at_k).some_bytes in
      let sized = (g.suits k m at_k).0 in (omega (arith, p.0, p.2), omega (arith, p.0, p.1, p.2)))

  row-Holds :
      (row : List ℕ)
      → length row ≡ total
      → is_download_complete pm ≡ true
      → (k : ℕ) → k < n
      → Holds platform sizes (writes pm.file_manager.write_queue row) k
  row-Holds row len done k inside =
      let placed = queue-AllPlaced in
      elim (writes-part sizes.piece_length total sizes.size f.some_bytes f.usual
        pm.file_manager.write_queue row k len placed) [
          | inl (j, v, at_j, p, e) ↦
              let (l, m, at_l, _, s) = g.faithful.sound j v at_j in
              let lk : l ≡ k =
                place_unique sizes.piece_length total sizes.size f.some_bytes f.usual v l k
                  (saved-IsPlaced l m v at_l s) p in
              let (size, hash) = g.suits k m (ap (get_elem? pm.pieces) (sym lk) ∙ at_l) in
              (
                m.piece_hash,
                hash,
                ap length e ∙ s.size ∙ size,
                ap (λ (b : List ℕ). hex_decode (platform.sha1 b)) e ∙ s.verified,
              )
          | inr (e, none_) ↦
              let (m, i, v, at_k, at_i, s) =
                is_download_complete-IsSaved platform n sizes pm g done k inside in
              absurd (none_ i v at_i (saved-IsPlaced k m v at_k s))
        ]

  -- In a state that is good, as after any calls, and whose download is complete, with no file longer
  -- than it is to be and the pieces filling them and beginning below 2^32: once the writer has taken
  -- all of its queue without being stopped, it ends by itself at its next turn, and read one after the
  -- other, with the zeros behind the end of each, the files hold at the place of every piece bytes of
  -- its size and with its hash.
  pub file_writer-Holds :
      (turns : List Turn) (t : Turn) (more : List Turn) (disk : List (List ℕ))
      → is_download_complete pm ≡ true
      → AllRunning turns
      → taken turns ≡ pm.file_manager.write_queue
      → HasRoom sizes.files disk
      → sum sizes.files ≡ total
      → n < 2 ^ 32
      → (after : List (List ℕ)) × (file_writer pm.file_manager (turns ++ (t ∷ more)) 0 disk
          ≡ ok (after, true))
        × HasRoom sizes.files after
        × ((k : ℕ) → k < n → Holds platform sizes (concat (fill sizes.files after)) k)
  unfolding is_download_complete
  file_writer-Holds turns t more disk done running all room filled small =
      let filled' : sum pm.file_manager.file_lengths ≡ total = ap sum g.files ∙ filled in
      let room' = subst (λ (ls : List ℕ). HasRoom ls disk) (sym g.files) room in
      let as_many : 0 + length (taken turns) ≡ pm.file_manager.num_pieces =
        rw all (omega (arith, g.faithful.as_many, ==→eq _ _ done, g.many, g.num_pieces)) in
      let within : AllWithin (sum pm.file_manager.file_lengths) (taken turns) =
        rw (all, filled') queue-AllWithin in
      let (after, e, h, w) =
        file_writer-Written pm.file_manager turns t more 0 disk running room' within
          (omega (arith, as_many)) (omega (arith, g.num_pieces)) in
      let row_eq =
        w
        ∙ ap
            (λ (vs : List (ℕ × List ℕ)).
              writes vs (concat (fill pm.file_manager.file_lengths disk)))
            all in
      let len =
        length-concat _ _ (fill-HasLengths pm.file_manager.file_lengths disk room') ∙ filled' in
      (
        after,
        e ∙ if_true _ _ (eq→== _ _ as_many),
        subst (λ (ls : List ℕ). HasRoom ls after) g.files h,
        λ k inside.
            subst (λ (ls : List ℕ). Holds platform sizes (concat (fill ls after)) k) g.files
              (subst (λ (r : List ℕ). Holds platform sizes r k) (sym row_eq)
                (row-Holds (concat (fill pm.file_manager.file_lengths disk)) len done k inside)),
      )
