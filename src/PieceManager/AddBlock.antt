-- ===== src/PieceManager/AddBlock.antt =====
-- `add_block` of src/piece_manager.cpp: for any block that a peer sends.
use simpletorrent.Base.{
  ◌+◌, ◌/◌, ◌≤◌, ◌<◌, ◌≡◌, refl, sym, ap, ◌∙◌, subst, inl, inr, true, some, length, get_elem?, set,
  overwrite, all_of, ◌||◌, ok, arith, Bool-cases, Option-cases, length-set, length-overwrite,
  get_elem?-some,
}
use simpletorrent.Base.Division.{ceil_block_of}
use simpletorrent.Base.Maps.{contains, find_of_contains}
use simpletorrent.Types.{PieceMetadata, Block, BlockState, is_have, is_requested, is_dont_have}
use simpletorrent.Buffer.{Buffer, BufferPiece, should_write_block}
use simpletorrent.Buffer.Held.{held, held_of_find}
use simpletorrent.Buffer.Blocks.{write_block_to_buffer_lem, should_write_block_lem}
use simpletorrent.PieceManager.{Platform, PieceManager, is_valid_block_data, add_block}
use simpletorrent.PieceManager.Laws.{IsPlatform}
use simpletorrent.PieceManager.Invariant.{Inv, Fits, update-Inv}
use simpletorrent.PieceManager.Finish.{nothing, Settled, Settles, finish_piece-Settles}

-- What the test of `is_valid_block_data` says: the block lies within its piece.
pub is_valid_block_data-bounds :
    (block : Block) (pm : PieceManager)
    → is_valid_block_data block pm ≡ true
    → (m : PieceMetadata) × (get_elem? pm.pieces block.piece_index ≡ some m)
      × (block.block_offset + length block.bytes ≤ m.current_piece_length)
      × (block.block_offset < m.current_piece_length)
unfolding is_valid_block_data
is_valid_block_data-bounds block pm h =
    elim (Option-cases (get_elem? pm.pieces block.piece_index)) [
      | inl e ↦ ground arith
      | inr (m, e) ↦ (m, e, ground arith, ground arith)
    ]

module _ (platform : Platform) (law : IsPlatform platform) (pm : PieceManager) (v : Inv pm)
    (block : Block) where
  buffer-Settled :
      (c : Buffer) → Inv (record pm { buffer = c }) → Settled platform pm (record pm { buffer = c })
  buffer-Settled c inv = record {
    inv = inv;
    same_pieces = λ k m g. (m, g, refl, refl, λ e. e);
    same_length = refl;
    pieces_length = refl;
    saves = nothing refl refl (λ k n g d. (n, g, d));
  }

  ignored : Settles platform pm (ok pm)
  ignored = (pm, refl, buffer-Settled pm.buffer v)

  -- A block that the buffer wants is written; the piece may be complete then.
  module _ (m : PieceMetadata) (g : get_elem? pm.pieces block.piece_index ≡ some m)
      (fits : block.block_offset + length block.bytes ≤ m.current_piece_length)
      (inside : block.block_offset < m.current_piece_length) (s : BufferPiece)
      (h : held pm.buffer block.piece_index ≡ some s) where
    shape : Fits m s
    shape =
        let (r, e, _, f) = v.holds block.piece_index s h in
        let same : m ≡ r = ground arith in subst (λ (x : PieceMetadata). Fits x s) (sym same) f

    block_inside : block.block_offset / pm.buffer.block_length < length s.blocks_state
    block_inside =
        let sh = v.shaped block.piece_index m g in
        rw (v.same_length, shape.blocks, sh.blocks)
          (ceil_block_of m.current_piece_length pm.block_length v.block_pos block.block_offset
            inside)

    write_wanted :
        should_write_block block.block_offset block.piece_index pm.buffer ≡ ok true
        → is_valid_block_data block pm ≡ true
        → Settles platform pm (add_block platform block pm)
    unfolding add_block
    write_wanted wanted ok_block =
        let (c, e, u) =
          write_block_to_buffer_lem pm.buffer block.piece_index s v.buffer_valid h block refl
            (omega (arith, fits, shape.size)) block_inside in
        let index = block.block_offset / pm.buffer.block_length in
        let bytes = overwrite s.bytes block.block_offset block.bytes in
        let blocks = set s.blocks_state index BlockState.have in
        elim (Bool-cases (all_of is_have blocks)) [
          | inl done ↦
              rw (ok_block, wanted, e, done)
                (finish_piece-Settles platform law pm v block.piece_index m g s _ c h u
                  (length-overwrite s.bytes block.block_offset block.bytes ∙ shape.size))
          | inr more ↦
              rw (ok_block, wanted, e, more)
                (
                  record pm { buffer = c },
                  refl,
                  buffer-Settled c (
                      update-Inv pm block.piece_index s _ c v h u
                        (length-set s.blocks_state index BlockState.have)
                        (length-overwrite s.bytes block.block_offset block.bytes) more),
                )
        ]

    write_held :
        is_valid_block_data block pm ≡ true → Settles platform pm (add_block platform block pm)
    unfolding add_block
    write_held ok_block =
        let (state, e) = get_elem?-some s.blocks_state _ block_inside in
        let asked =
          should_write_block_lem pm.buffer block.piece_index s v.buffer_valid h block.block_offset
            state e in
        elim (Bool-cases (is_requested state || is_dont_have state)) [
          | inl yes_ ↦ write_wanted (asked ∙ ap ok yes_) ok_block
          | inr no_ ↦ rw (ok_block, asked, no_) ignored
        ]

  -- Where the invariant holds and a digest is hexadecimal text, `add_block` never throws nor leaves
  -- the bounds of a table, whatever block a peer sends; it keeps the invariant, and it hands a piece to
  -- the writer only if it is one that was not completed and its bytes have the length and the hash of
  -- that piece, which it then marks as completed and counts; the offset that goes with them is that of
  -- the piece, cut to 32 bits.
  pub add_block-Settles : Settles platform pm (add_block platform block pm)
  unfolding add_block should_write_block
  add_block-Settles = elim (Bool-cases (is_valid_block_data block pm)) [
    | inr bad ↦ rw bad ignored
    | inl good ↦
        let (m, g, fits, inside) = is_valid_block_data-bounds block pm good in
        elim (Bool-cases (contains block.piece_index pm.buffer.piece_buffer_map)) [
          | inr absent ↦ rw (good, absent) ignored
          | inl present ↦
              let (i, e) = find_of_contains block.piece_index pm.buffer.piece_buffer_map present in
              let (s, h, _, _, _) = held_of_find pm.buffer block.piece_index i v.buffer_valid e in
              write_held m g fits inside s h good
        ]
  ]
