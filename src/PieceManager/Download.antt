-- ===== src/PieceManager/Download.antt =====
-- A whole download: the constructor of `PieceManager` (src/piece_manager.cpp), any calls, and the
-- writer of src/file_manager.cpp.
use native.Mathlib.Nat.{mod-lt, mod-eq_of_lt, div-add-mod, mul-le-mul_right}
use simpletorrent.Base.{
  ltb, [], ◌∷◌, ◌++◌, map, ℕ, ◌+◌, ◌*◌, ◌/◌, ◌%◌, ◌^◌, ◌≤◌, ◌<◌, ◌≡◌, sym, ap, ◌∙◌, subst, inl, inr,
  ◌⊎◌, true, List, length, ok, arith, ◌==◌, Bool-cases, leb, ==→eq, ok-injective,
}
use simpletorrent.Types.{TorrentMetadata}
use simpletorrent.FileManager.{
  file_writer, Turn, data_file_lengths, create_and_open_file, open_files, open_for_writing,
}
use simpletorrent.FileManager.Fill.{HasRoom}
use simpletorrent.FileManager.Full.{fill-same}
use simpletorrent.PieceManager.Reach.{Covers, file_writer-HasLengths}
use simpletorrent.FileManager.Layout.{concat, sum, HasLengths}
use simpletorrent.FileManager.Places.{next_place}
use simpletorrent.FileManager.Writer.{taken, AllRunning}
use simpletorrent.PieceManager.{Platform, PieceManager, init, make_piece, is_download_complete}
use simpletorrent.PieceManager.Laws.{IsPlatform}
use simpletorrent.PieceManager.Init.{IsTorrent}
use simpletorrent.PieceManager.Run.{Call, run, AllSized}
use simpletorrent.PieceManager.Sizes.{sizes_of}
use simpletorrent.PieceManager.History.{Good, run-init-Good}
use simpletorrent.PieceManager.Disk.{Fills, Holds, file_writer-Holds}

-- The torrent names a hash for each piece of its length, the last of which may be short, no byte lies
-- behind 2^32, and its length is that of its files.
pub record IsCovered (t : TorrentMetadata) : Type 0 where
  pub covers : t.total_length ≤ length t.piece_hashes * t.piece_length
  pub last : length t.piece_hashes * t.piece_length < t.total_length + t.piece_length
  pub small : t.total_length ≤ 2 ^ 32
  pub files : sum (data_file_lengths t) ≡ t.total_length

-- Of a piece that begins within the total, the remainder lies within it, or all of it where there is
-- no remainder.
module _ (pl total k : ℕ) (some_bytes : 0 < pl) (begins : k * pl < total) where
  quotient_bound : k ≤ total / pl
  quotient_bound = elim (Bool-cases (leb k (total / pl))) [
    | inl e ↦ ground arith
    | inr e ↦
        let over = next_place pl (total / pl) k (ground arith) in
        absurd (omega (arith, over, mod-lt total some_bytes, div-add-mod total pl))
  ]

  remainder_inside : k * pl + total % pl ≤ total
  remainder_inside = omega (arith, mul-le-mul_right pl quotient_bound, div-add-mod total pl)

  all_inside : total % pl ≡ 0 → k * pl + pl ≤ total
  all_inside none_left = elim (Bool-cases (k == total / pl)) [
    | inl e ↦
        let same = ap (λ (q : ℕ). q * pl) (==→eq k (total / pl) e) in
        absurd (omega (arith, same, none_left, begins, div-add-mod total pl))
    | inr e ↦
        let less : k < total / pl = ground (arith, quotient_bound) in
        omega (arith, next_place pl k (total / pl) less, div-add-mod total pl)
  ]

module _ (t : TorrentMetadata) (bl : ℕ) (w : IsTorrent t bl) (c : IsCovered t) where
  piece_begins : (k : ℕ) → k < length t.piece_hashes → k * t.piece_length < t.total_length
  piece_begins k h =
      omega (arith, next_place t.piece_length k (length t.piece_hashes) h, c.last, w.piece_pos)

  usual_length : (sizes_of t bl).piece_length ≡ t.piece_length
  unfolding sizes_of
  usual_length = mod-eq_of_lt w.piece_small

  -- The size of a piece, as the constructor computes it: the remainder for the last, if there is one.
  size_lem :
      (k : ℕ)
      → let size = (sizes_of t bl).size k in
        let left = t.total_length % t.piece_length in
        ((k + 1 ≡ length t.piece_hashes) × (size ≡ left) × (0 < left))
        ⊎ ((size ≡ t.piece_length) × (k + 1 ≡ length t.piece_hashes → left ≡ 0))
  unfolding sizes_of make_piece
  size_lem k =
      let below = mod-lt t.total_length w.piece_pos in
      let small : t.piece_length < 2 ^ 32 = w.piece_small in
      elim (Bool-cases (k + 1 == length t.piece_hashes)) [
        | inr e ↦ inr (rw e (omega arith), λ at_end. ground arith)
        | inl e ↦ elim (Bool-cases (t.total_length % t.piece_length == 0)) [
          | inl z ↦ inr (rw (e, z) (omega arith), λ at_end. ==→eq _ _ z)
          | inr z ↦ inl (==→eq _ _ e, rw (e, z) (omega arith), ground arith)
        ]
      ]

  size_usual : (k : ℕ) → (sizes_of t bl).size k ≤ t.piece_length
  size_usual k = elim (size_lem k) [
    | inl (_, e, _) ↦ omega (arith, e, mod-lt t.total_length w.piece_pos)
    | inr (e, _) ↦ omega (arith, e)
  ]

  size_inside :
      (k : ℕ)
      → k < length t.piece_hashes
      → k * t.piece_length + (sizes_of t bl).size k ≤ t.total_length
  size_inside k h =
      let begins = piece_begins k h in
      elim (size_lem k) [
        | inl (_, e, _) ↦
            omega (arith, e, remainder_inside t.piece_length t.total_length k w.piece_pos begins)
        | inr (e, at_end) ↦ elim (Bool-cases (k + 1 == length t.piece_hashes)) [
          | inl last ↦
              let none_left = at_end (==→eq _ _ last) in
              omega
                (arith, e, all_inside t.piece_length t.total_length k w.piece_pos begins none_left)
          | inr more ↦
              let next : k + 1 < length t.piece_hashes = ground (arith, h) in
              omega (arith, e, piece_begins (k + 1) next)
        ]
      ]

  sizes_of-Fills : Fills (sizes_of t bl) (length t.piece_hashes) t.total_length
  sizes_of-Fills = record {
    some_bytes = omega (arith, usual_length, w.piece_pos);
    usual = λ k. rw usual_length (size_usual k);
    inside = λ k h. rw usual_length (size_inside k h);
    begins = λ k h. rw usual_length (omega (arith, piece_begins k h, c.small));
  }

  -- Each byte belongs to a piece.
  sizes_of-Covers : Covers (sizes_of t bl) (length t.piece_hashes) t.total_length
  sizes_of-Covers p h =
      let pl = t.piece_length in
      let n = length t.piece_hashes in
      let k = p / pl in
      let split = div-add-mod p pl in
      let below = mod-lt p w.piece_pos in
      let inside : k < n = elim (Bool-cases (ltb k n)) [
        | inl e ↦ ground arith
        | inr e ↦
            let high : n ≤ k = ground arith in
            absurd (omega (arith, mul-le-mul_right pl high, c.covers, split, h))
      ] in
      let begins = piece_begins k inside in
      let reaches : p < k * pl + (sizes_of t bl).size k = elim (size_lem k) [
        | inr (e, _) ↦ omega (arith, e, split, below)
        | inl (at_end, e, some_left) ↦
            let whole = div-add-mod t.total_length pl in
            let ends : t.total_length ≤ k * pl + pl =
              omega (arith, c.covers, ap (λ (j : ℕ). j * pl) at_end) in
            elim (Bool-cases (k == t.total_length / pl)) [
              | inl q ↦
                  let same = ap (λ (j : ℕ). j * pl) (==→eq k (t.total_length / pl) q) in
                  omega (arith, e, same, whole, h)
              | inr q ↦
                  let bound = quotient_bound pl t.total_length k w.piece_pos begins in
                  let less : k < t.total_length / pl = ground (arith, bound) in
                  absurd (
                    omega
                      (arith, next_place pl k (t.total_length / pl) less, whole, ends, some_left))
            ]
      ] in
      let low : k * (sizes_of t bl).piece_length ≤ p = rw usual_length (omega (arith, split)) in
      let high : p < k * (sizes_of t bl).piece_length + (sizes_of t bl).size k =
        rw usual_length reaches in
      (k, inside, low, high)

-- The files that the constructor has created.
created-HasRoom : (ls : List ℕ) → HasRoom ls (map (create_and_open_file []) ls)
unfolding create_and_open_file open_for_writing
created-HasRoom [] = tt
created-HasRoom (l ∷ ls) = (omega arith, created-HasRoom ls)

open_files-HasRoom : (t : TorrentMetadata) → HasRoom (data_file_lengths t) (open_files t)
unfolding open_files
open_files-HasRoom t = created-HasRoom (data_file_lengths t)

-- For a torrent whose sizes fit 32 bits, that names a hash for each piece of its length and that ends
-- at 2^32 at most, after any calls of the piece manager with a bitfield of the right length for each
-- peer, whatever blocks the peers send, and for files just created, which are empty: once
-- `is_download_complete` holds and the writer has taken all that was queued without being stopped, it
-- ends by itself at its next turn, whatever that finds. Each file has then its length, and read one after
-- the other they hold at `k * piece_length` as many bytes as piece `k` has, and the hash of these is the
-- one that the torrent names for `k`.
pub file_writer-run-init-Holds :
    (platform : Platform)
    → IsPlatform platform
    → (t : TorrentMetadata) (block_length buffer_size : ℕ) (cs : List Call) (pm : PieceManager)
      (turns : List Turn) (next : Turn) (more : List Turn)
    → IsTorrent t block_length
    → IsCovered t
    → AllSized (length t.piece_hashes) cs
    → run platform cs (init t block_length buffer_size) ≡ ok pm
    → is_download_complete pm ≡ true
    → AllRunning turns
    → taken turns ≡ pm.file_manager.write_queue
    → (after : List (List ℕ)) × (file_writer pm.file_manager
          (turns ++ (next ∷ more))
          0
          (open_files t)
        ≡ ok (after, true))
      × HasLengths (data_file_lengths t) after
      × ((k : ℕ)
          → k < length t.piece_hashes
          → Holds platform (sizes_of t block_length) (concat after) k)
unfolding sizes_of
file_writer-run-init-Holds platform law t bl bs cs pm turns next more w c z ran done running all =
    let n = length t.piece_hashes in
    let sizes = sizes_of t bl in
    let (qm, e, good) = run-init-Good platform law t bl bs cs w z in
    let g = subst (Good platform n sizes) (ok-injective (sym e ∙ ran)) good in
    let fills = sizes_of-Fills t bl w c in
    let room = open_files-HasRoom t in
    let (after, ends, _, holds) =
      file_writer-Holds platform n t.total_length sizes pm fills g turns next more (open_files t)
        done running all room c.files w.few in
    let full =
      file_writer-HasLengths platform n t.total_length sizes pm fills g turns next more
        (open_files t) after done running all room c.files w.few (sizes_of-Covers t bl w c) ends in
    (
      after,
      ends,
      full,
      λ k inside.
          subst (λ (disk : List (List ℕ)). Holds platform sizes (concat disk) k)
            (fill-same (data_file_lengths t) after full) (holds k inside),
    )
