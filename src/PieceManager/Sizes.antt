-- ===== src/PieceManager/Sizes.antt =====
-- The sizes of the pieces that the constructor of `PieceManager` sets (src/piece_manager.cpp), and that
-- a call which keeps the pieces keeps.
use simpletorrent.Base.{
  get_elem?-lt, suc, zero, ℕ, ◌+◌, ◌%◌, ◌^◌, ◌≡◌, sym, ap, ◌∙◌, some, Option, subst, List, [], ◌∷◌,
  length, get_elem?, arith, get_elem?-some,
}
use simpletorrent.Types.{PieceMetadata, TorrentMetadata}
use simpletorrent.FileManager.{data_file_lengths}
use simpletorrent.PieceManager.{make_piece, make_pieces, PieceManager}
use simpletorrent.PieceManager.Request.{KeepsPieces}

-- The usual size of a piece, the size and the hash of each, and the lengths of the files.
pub record Sizes : Type 0 where
  pub piece_length : ℕ
  pub size : ℕ → ℕ
  pub hash : ℕ → Option (List ℕ)
  pub files : List ℕ

-- The piece `k` has its size and its hash.
abbrev pub Suits : Sizes → ℕ → PieceMetadata → Type 0
Suits sizes k m = (m.current_piece_length ≡ sizes.size k) × (sizes.hash k ≡ some m.piece_hash)

pub kept-Suits :
    (sizes : Sizes) (pm qm : PieceManager)
    → length qm.pieces ≡ length pm.pieces
    → KeepsPieces pm qm
    → ((k : ℕ) (m : PieceMetadata) → get_elem? pm.pieces k ≡ some m → Suits sizes k m)
    → (k : ℕ) (m : PieceMetadata) → get_elem? qm.pieces k ≡ some m
    → Suits sizes k m
kept-Suits sizes pm qm many kp suits k m g =
    let inside = get_elem?-lt qm.pieces k g in
    let (o, h) = get_elem?-some pm.pieces k (omega arith) in
    let (q, gq, p, c, _) = kp k o h in
    let same : q ≡ m = ground arith in
    let (size, hash) = suits k o h in subst (Suits sizes k) same (c ∙ size, hash ∙ ap some (sym p))

-- The sizes that the constructor gives.
unfoldable pub sizes_of : TorrentMetadata → ℕ → Sizes
sizes_of t block_length = record {
  piece_length = t.piece_length % 2 ^ 32;
  size = λ k. (make_piece t block_length k []).current_piece_length;
  hash = λ k. get_elem? t.piece_hashes k;
  files = data_file_lengths t;
}

make_pieces-sized :
    (t : TorrentMetadata) (block_length : ℕ) (hs : List (List ℕ)) (i k : ℕ) (m : PieceMetadata)
    → get_elem? (make_pieces t block_length i hs) k ≡ some m
    → m.current_piece_length ≡ (make_piece t block_length (i + k) []).current_piece_length
unfolding make_pieces make_piece
make_pieces-sized t bl [] i k m g = ground arith
make_pieces-sized t bl (h ∷ hs) i zero m g =
    let same : make_piece t bl i h ≡ m = ground arith in
    let at_i : i ≡ i + 0 = omega arith in
    ap (λ (x : PieceMetadata). x.current_piece_length) (sym same)
    ∙ ap (λ (j : ℕ). (make_piece t bl j []).current_piece_length) at_i
make_pieces-sized t bl (h ∷ hs) i (suc k) m g =
    let next : i + 1 + k ≡ i + suc k = omega arith in
    make_pieces-sized t bl hs (i + 1) k m g
    ∙ ap (λ (j : ℕ). (make_piece t bl j []).current_piece_length) next

make_pieces-hash :
    (t : TorrentMetadata) (block_length : ℕ) (hs : List (List ℕ)) (i k : ℕ) (m : PieceMetadata)
    → get_elem? (make_pieces t block_length i hs) k ≡ some m
    → get_elem? hs k ≡ some m.piece_hash
unfolding make_pieces make_piece
make_pieces-hash t bl [] i k m g = ground arith
make_pieces-hash t bl (h ∷ hs) i zero m g =
    let same : make_piece t bl i h ≡ m = ground arith in
    ap (λ (x : PieceMetadata). some x.piece_hash) same
make_pieces-hash t bl (h ∷ hs) i (suc k) m g = make_pieces-hash t bl hs (i + 1) k m g

pub start-Suits :
    (t : TorrentMetadata) (block_length k : ℕ) (m : PieceMetadata)
    → get_elem? (make_pieces t block_length 0 t.piece_hashes) k ≡ some m
    → Suits (sizes_of t block_length) k m
unfolding sizes_of
start-Suits t bl k m g =
    let at_k : 0 + k ≡ k = omega arith in
    (
      make_pieces-sized t bl t.piece_hashes 0 k m g
          ∙ ap (λ (j : ℕ). (make_piece t bl j []).current_piece_length) at_k,
      make_pieces-hash t bl t.piece_hashes 0 k m g,
    )
