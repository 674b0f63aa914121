-- ===== src/PieceManager/Request.antt =====
-- `request_block`, the last part of `select_next_block` in src/piece_manager.cpp: the block that is
-- asked for of a piece in the buffer.
use native.Mathlib.Nat.{le-div_iff_mul-le, div-add-mod', mod-lt}
use simpletorrent.Base.{
  ℕ, suc, ◌+◌, ◌-◌, ◌*◌, ◌/◌, ◌%◌, ◌≤◌, ◌<◌, min, ◌≡◌, ◌≢◌, refl, sym, ap, ◌∙◌, inl, inr, ◌⊎◌, true,
  none, some, List, length, get_elem?, set, first_index, ◌==◌, if◌then◌else◌, ok, arith, Bool-cases,
  Option-cases, ==→eq, length-set, get_elem?-set_self, get_elem?-lt, first_index-zero, ltb,
}
use simpletorrent.Base.Division.{ceil_block_start}
use simpletorrent.Types.{
  PieceState, completed, PieceMetadata, BlockRequest, BlockState, is_dont_have,
}
use simpletorrent.Buffer.{request_first}
use simpletorrent.PieceManager.{PieceManager, calculate_block_length}
use simpletorrent.PieceManager.Invariant.{Inv, is_in_buffer}
use simpletorrent.PieceManager.States.{get_elem?-set_other, get-set-cases}

-- What `request_first` does: it leaves the blocks alone, or marks the first missing one.
pub request_first-cases :
    (blocks : List BlockState)
    → (request_first blocks ≡ (none, blocks))
      ⊎ ((i : ℕ) × (request_first blocks ≡ (some i, set blocks i BlockState.requested))
          × (get_elem? blocks i ≡ some BlockState.dont_have))
unfolding request_first
request_first-cases blocks = elim (Option-cases (first_index is_dont_have blocks 0)) [
  | inl e ↦ inl (rw (e, request_first))
  | inr (i, e) ↦
      let (x, g, d) = first_index-zero is_dont_have blocks i e in
      inr (i, rw (e, request_first), g ∙ ap some (missing x d))
]
  where
    missing : (x : BlockState) → is_dont_have x ≡ true → x ≡ BlockState.dont_have
    missing BlockState.have h = ground arith
    missing BlockState.dont_have h = refl
    missing BlockState.requested h = ground arith

-- The length of block `i` of the last piece.
last_block_length :
    (len block i : ℕ)
    → 0 < block
    → i < (len + block - 1) / block
    → (if ltb i (len / block) then block else len % block) ≡ min block (len - i * block)
last_block_length len block i pos inside = elim (Bool-cases (ltb i (len / block))) [
  | inl e ↦
      let full = (le-div_iff_mul-le {x = suc i} {y = len} pos).0 (ground arith) in
      rw e (omega (arith, full))
  | inr e ↦
      let start = ceil_block_start len block pos i inside in
      let low : len / block ≤ i = ground arith in
      let reached : i ≤ len / block =
        (le-div_iff_mul-le {x = i} {y = len} pos).1 (omega (arith, start)) in
      let same : len / block ≡ i = omega arith in
      rw (e, ← same) (omega (arith, div-add-mod' len block, mod-lt len pos))
]

-- The request for block `i` of piece `k`, which lies within the piece. Its length is a whole block;
-- in the last piece of the torrent it is cut at the end of the piece.
pub record Asks (pm : PieceManager) (k i : ℕ) (r : BlockRequest) : Type 0 where
  pub metadata : PieceMetadata
  pub piece : get_elem? pm.pieces k ≡ some metadata
  pub index : r.piece_index ≡ k
  pub offset : r.block_offset ≡ i * pm.block_length
  pub within : r.block_offset < metadata.current_piece_length
  pub size : r.block_length ≡ (
      if k + 1 == length pm.pieces
      then min pm.block_length (metadata.current_piece_length - r.block_offset)
      else pm.block_length)

-- The metadata of a piece stays, but for its state, and a completed piece stays completed.
abbrev pub KeepsPieces : PieceManager → PieceManager → Type 0
KeepsPieces pm qm =
    (k : ℕ) (m : PieceMetadata)
    → get_elem? pm.pieces k ≡ some m
    → (n : PieceMetadata) × (get_elem? qm.pieces k ≡ some n)
      × (n.piece_hash ≡ m.piece_hash)
      × (n.current_piece_length ≡ m.current_piece_length)
      × (m.state ≡ completed → n.state ≡ completed)

-- No piece becomes completed.
abbrev pub CompletesNone : PieceManager → PieceManager → Type 0
CompletesNone pm qm =
    (k : ℕ) (n : PieceMetadata)
    → get_elem? qm.pieces k ≡ some n
    → n.state ≡ completed
    → (m : PieceMetadata) × (get_elem? pm.pieces k ≡ some m) × (m.state ≡ completed)

-- What a request leaves alone.
pub record SameFiles (pm qm : PieceManager) : Type 0 where
  pub pieces_length : length qm.pieces ≡ length pm.pieces
  pub same_pieces : KeepsPieces pm qm
  pub completes_none : CompletesNone pm qm
  pub piece_length : qm.piece_length ≡ pm.piece_length
  pub block_length : qm.block_length ≡ pm.block_length
  pub files : qm.file_manager ≡ pm.file_manager
  pub completed : qm.num_pieces_completed ≡ pm.num_pieces_completed

pub SameFiles-of :
    (pm qm : PieceManager)
    → qm.pieces ≡ pm.pieces
    → qm.piece_length ≡ pm.piece_length
    → qm.block_length ≡ pm.block_length
    → qm.file_manager ≡ pm.file_manager
    → qm.num_pieces_completed ≡ pm.num_pieces_completed
    → SameFiles pm qm
SameFiles-of pm qm p l b f c = record {
  pieces_length = ap length p;
  same_pieces =
      λ k m g. (m, ap (λ (ps : List PieceMetadata). get_elem? ps k) p ∙ g, refl, refl, λ e. e);
  completes_none = λ k n g d. (n, ap (λ (ps : List PieceMetadata). get_elem? ps k) (sym p) ∙ g, d);
  piece_length = l;
  block_length = b;
  files = f;
  completed = c;
}

-- A piece that is not completed gets another state.
pub set-KeepsPieces :
    (pm qm : PieceManager) (k : ℕ) (m : PieceMetadata) (st : PieceState)
    → get_elem? pm.pieces k ≡ some m
    → (m.state ≡ completed → st ≡ completed)
    → qm.pieces ≡ set pm.pieces k (record m { state = st })
    → KeepsPieces pm qm
set-KeepsPieces pm qm k m st g out p j r e = elim (Bool-cases (k == j)) [
  | inl q ↦
      let kj : k ≡ j = ==→eq k j q in
      let same : m ≡ r = ground arith in
      (
        record m { state = st },
        rw (p, ← kj) (get_elem?-set_self pm.pieces k _ (get_elem?-lt pm.pieces k g)),
        ap (λ (x : PieceMetadata). x.piece_hash) same,
        ap (λ (x : PieceMetadata). x.current_piece_length) same,
        λ d. out (rw same d),
      )
  | inr q ↦ (r, rw p (get_elem?-set_other pm.pieces k j _ q ∙ e), refl, refl, λ d. d)
]

pub set-CompletesNone :
    (pm qm : PieceManager) (k : ℕ) (m : PieceMetadata) (st : PieceState)
    → get_elem? pm.pieces k ≡ some m
    → st ≢ completed
    → qm.pieces ≡ set pm.pieces k (record m { state = st })
    → CompletesNone pm qm
set-CompletesNone pm qm k m st g open_ p j n e d =
    elim (get-set-cases pm.pieces k j m _ n g (rw p at e)) [
      | inl (_, same) ↦ absurd (open_ (ap (λ (x : PieceMetadata). x.state) same ∙ d))
      | inr (_, old) ↦ (n, old, d)
    ]

pub SameFiles-set :
    (pm qm : PieceManager) (k : ℕ) (m : PieceMetadata) (st : PieceState)
    → get_elem? pm.pieces k ≡ some m
    → (m.state ≡ completed → st ≡ completed)
    → st ≢ completed
    → qm.pieces ≡ set pm.pieces k (record m { state = st })
    → qm.piece_length ≡ pm.piece_length
    → qm.block_length ≡ pm.block_length
    → qm.file_manager ≡ pm.file_manager
    → qm.num_pieces_completed ≡ pm.num_pieces_completed
    → SameFiles pm qm
SameFiles-set pm qm k m st g out open_ p l b f c = record {
  pieces_length = ap length p ∙ length-set pm.pieces k _;
  same_pieces = set-KeepsPieces pm qm k m st g out p;
  completes_none = set-CompletesNone pm qm k m st g open_ p;
  piece_length = l;
  block_length = b;
  files = f;
  completed = c;
}

-- A piece in the buffer is not completed.
pub in_buffer-not_completed :
    (st new : PieceState) → is_in_buffer st ≡ true → st ≡ completed → new ≡ completed
in_buffer-not_completed st new h e = ground arith

pub calculate_block_length_lem :
    (pm : PieceManager) (k i : ℕ) (m : PieceMetadata)
    → Inv pm
    → get_elem? pm.pieces k ≡ some m
    → i < m.num_blocks
    → calculate_block_length k i pm
      ≡ ok (
          if k + 1 == length pm.pieces
          then min pm.block_length (m.current_piece_length - i * pm.block_length)
          else pm.block_length)
unfolding calculate_block_length
calculate_block_length_lem pm k i m v g inside = elim (Bool-cases (k + 1 == length pm.pieces)) [
  | inr no_ ↦ rw no_ refl
  | inl last ↦
      let at_end : length pm.pieces - 1 ≡ k = ground arith in
      let sh = v.shaped k m g in
      rw (last, at_end, g)
        (ground (
          arith,
          last_block_length m.current_piece_length pm.block_length i v.block_pos
              (rw (← sh.blocks) inside),
        ))
]
