-- ===== src/PieceManager/Init.antt =====
-- The constructor of `PieceManager` in src/piece_manager.cpp.
use simpletorrent.Base.{
  ℕ, zero, suc, ◌+◌, ◌-◌, ◌/◌, ◌%◌, ◌^◌, ◌<◌, ◌≡◌, refl, ap, subst, inl, inr, Bool, not, ◌&&◌, some,
  List, [], ◌∷◌, length, get_elem?, count_if, ◌==◌, if◌then◌else◌, arith, Bool-cases,
}
use simpletorrent.Base.Division.{ceil-le}
use native.Mathlib.Nat.{mod-eq_of_lt, mod-lt}
use simpletorrent.Base.Maps.{find}
use simpletorrent.Types.{not_started, PieceMetadata, TorrentMetadata}
use simpletorrent.Buffer
use simpletorrent.Buffer.{Buffer, BufferPiece}
use simpletorrent.Buffer.Held.{init-IsValid, held-missing}
use simpletorrent.PieceManager.{init, make_piece, make_pieces}
use simpletorrent.PieceManager.Invariant.{Inv, HasShape, has_completed}

-- What a torrent file and the caller have to give for the sizes to fit 32 bits.
pub record IsTorrent (t : TorrentMetadata) (block_length : ℕ) : Type 0 where
  pub piece_pos : 0 < t.piece_length
  pub piece_small : t.piece_length < 2 ^ 32
  pub block_pos : 0 < block_length
  pub block_small : block_length < 2 ^ 32
  pub few : length t.piece_hashes < 2 ^ 32

module _ (t : TorrentMetadata) (bl : ℕ) (w : IsTorrent t bl) where
  pub length-make_pieces : (hs : List (List ℕ)) (i : ℕ) → length (make_pieces t bl i hs) ≡ length hs
  unfolding make_pieces
  length-make_pieces [] i = refl
  length-make_pieces (h ∷ hs) i = ap suc (length-make_pieces hs (i + 1))

  -- The size of a piece, and the number of its blocks, as the constructor computes them.
  size_bounds :
      (last_piece : Bool)
      → let last = t.total_length % t.piece_length in
        let current = if last_piece && not (last == 0) then last else t.piece_length % 2 ^ 32 in
        (0 < current) × (current < 2 ^ 32)
  size_bounds last_piece =
      let small = mod-lt t.total_length w.piece_pos in
      let p = w.piece_pos in
      let q = w.piece_small in
      elim (Bool-cases (last_piece && not (t.total_length % t.piece_length == 0))) [
        | inl e ↦ rw e (ground arith, omega arith)
        | inr e ↦ rw e (omega arith, omega arith)
      ]

  blocks_count :
      (c : ℕ)
      → 0 < c
      → c < 2 ^ 32
      → (c + bl + (2 ^ 64 - 1)) % 2 ^ 64 / bl % 2 ^ 32 ≡ (c % 2 ^ 32 + bl - 1) / bl
  blocks_count c p q =
      let b = w.block_pos in
      let s = w.block_small in
      let inner : (c + bl + (2 ^ 64 - 1)) % 2 ^ 64 ≡ c + bl - 1 = omega arith in
      let cut : c % 2 ^ 32 ≡ c = omega arith in
      rw (inner, cut) (mod-eq_of_lt (omega (arith, ceil-le c bl b p)))

  make_piece-fresh :
      (i : ℕ) (h : List ℕ)
      → HasShape bl (make_piece t bl i h) × ((make_piece t bl i h).state ≡ not_started)
  unfolding make_piece
  make_piece-fresh i h =
      let (pos, small) = size_bounds (i + 1 == length t.piece_hashes) in
      (
        record { some_bytes = omega arith; small = omega arith; blocks = blocks_count _ pos small },
        refl,
      )

  pub make_pieces-fresh :
      (hs : List (List ℕ)) (i k : ℕ) (m : PieceMetadata)
      → get_elem? (make_pieces t bl i hs) k ≡ some m
      → HasShape bl m × (m.state ≡ not_started)
  unfolding make_pieces
  make_pieces-fresh [] i k m g = ground arith
  make_pieces-fresh (h ∷ hs) i zero m g =
      let same : make_piece t bl i h ≡ m = ground arith in
      subst (λ (x : PieceMetadata). HasShape bl x × (x.state ≡ not_started)) same
        (make_piece-fresh i h)
  make_pieces-fresh (h ∷ hs) i (suc k) m g = make_pieces-fresh hs (i + 1) k m g

  none_completed : (hs : List (List ℕ)) (i : ℕ) → count_if has_completed (make_pieces t bl i hs) ≡ 0
  unfolding make_pieces make_piece
  none_completed [] i = refl
  none_completed (h ∷ hs) i = omega (arith, none_completed hs (i + 1))

  -- The constructor establishes the invariant.
  pub init-Inv : (buffer_size : ℕ) → Inv (init t bl buffer_size)
  unfolding init
  init-Inv n =
      let held_none = λ (k : ℕ).
        held-missing (Buffer.init bl (t.piece_length % 2 ^ 32) n) k
          (unfold Buffer.init find in refl) in
      record {
        buffer_valid = init-IsValid bl (t.piece_length % 2 ^ 32) n;
        block_pos = w.block_pos;
        same_length = unfold Buffer.init in refl;
        few = omega (arith, length-make_pieces t.piece_hashes 0, w.few);
        drawn = omega arith;
        shaped = λ k m g. (make_pieces-fresh t.piece_hashes 0 k m g).0;
        holds = λ k s h. let no_ = held_none k in ground arith;
        kept = λ k m g i. let e = (make_pieces-fresh t.piece_hashes 0 k m g).1 in ground arith;
        affinity = tt;
        bitfields = tt;
        counted = none_completed t.piece_hashes 0;
      }
