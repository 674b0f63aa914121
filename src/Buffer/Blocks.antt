-- ===== src/Buffer/Blocks.antt =====
-- The blocks of a held piece: `get_block_index_to_retrieve`, `write_block_to_buffer`,
-- `should_write_block` and `clear_all_requested` of src/buffer.cpp against the map of held pieces.
use simpletorrent.Base.{
  ℕ, ◌+◌, ◌/◌, ◌<◌, ◌≤◌, ◌≡◌, refl, false, some, map, ◌||◌, length, get_elem?, set, all_of,
  overwrite, ◌==◌, if◌then◌else◌, ok, arith, undefined, out_of_range, le→leb, lt→ltb,
}
use simpletorrent.Base.Maps.{find}
use simpletorrent.Types.{BlockState, Block, is_have, is_requested, is_dont_have}
use simpletorrent.Buffer.{
  Buffer, BufferPiece, request_first, is_requested_or_have, reopen, get_block_index_to_retrieve,
  write_block_to_buffer, should_write_block, clear_all_requested,
}
use simpletorrent.Buffer.Held.{
  held, IsValid, held-slot, contains-held, slot_of-held, held-update, update-IsValid,
}

-- The new buffer holds `t` under `k`, all else as `b`, and stays valid.
pub record Updates (b : Buffer) (k : ℕ) (t : BufferPiece) (c : Buffer) : Type 0 where
  pub holds : (j : ℕ) → held c j ≡ (if k == j then some t else held b j)
  pub valid : IsValid c
  pub same_length : c.block_length ≡ b.block_length

update-Updates :
    (b : Buffer) (k i : ℕ) (s t : BufferPiece)
    → IsValid b
    → find k b.piece_buffer_map ≡ some i
    → get_elem? b.slots i ≡ some s
    → t.empty ≡ s.empty
    → t.piece_index ≡ s.piece_index
    → Updates b k t (record b { slots = set b.slots i t })
update-Updates b k i s t v e g p q =
    let (r, g', u, w) = v.mapped k i e in
    let used : t.empty ≡ false = ground arith in
    let same : t.piece_index ≡ k = ground arith in
    record {
      holds = held-update b k i s t v e g used same;
      valid = update-IsValid b k i s t v e g used same;
      same_length = refl;
    }

module _ (b : Buffer) (k : ℕ) (s : BufferPiece) (v : IsValid b) (h : held b k ≡ some s) where
  -- The value and the buffer that `get_block_index_to_retrieve` computes for a held piece.
  pub get_block_index_to_retrieve_lem :
      let (chosen, blocks) = request_first s.blocks_state in
      (c : Buffer) × (get_block_index_to_retrieve k b
        ≡ ok ((all_of is_requested_or_have blocks, chosen), c))
      × Updates b k (record s { blocks_state = blocks }) c
  unfolding get_block_index_to_retrieve
  get_block_index_to_retrieve_lem =
      let (i, e, g) = held-slot b k s h in
      (
        _,
        rw (contains-held b k s h, slot_of-held out_of_range b k i s e g) refl,
        update-Updates b k i s (record s { blocks_state = (request_first s.blocks_state).1 }) v e g
            refl refl,
      )

  -- A block that lies within a held piece is copied to its place and marked as there; the result
  -- says whether the piece is complete, with its bytes.
  pub write_block_to_buffer_lem :
      (block : Block)
      → block.piece_index ≡ k
      → block.block_offset + length block.bytes ≤ length s.bytes
      → block.block_offset / b.block_length < length s.blocks_state
      → let bytes = overwrite s.bytes block.block_offset block.bytes in
        let blocks = set s.blocks_state (block.block_offset / b.block_length) BlockState.have in
        (c : Buffer) × (write_block_to_buffer block b ≡ ok ((all_of is_have blocks, bytes), c))
        × Updates b k (record s { bytes = bytes; blocks_state = blocks }) c
  unfolding write_block_to_buffer
  write_block_to_buffer_lem block p fits inside =
      let (i, e, g) = held-slot b k s h in
      (
        _,
        rw (p, slot_of-held undefined b k i s e g, le→leb _ _ fits, lt→ltb _ _ inside) refl,
        update-Updates b k i s _ v e g refl refl,
      )

  -- `should_write_block` reads the state of the block at the offset.
  pub should_write_block_lem :
      (offset : ℕ) (state : BlockState)
      → get_elem? s.blocks_state (offset / b.block_length) ≡ some state
      → should_write_block offset k b ≡ ok (is_requested state || is_dont_have state)
  unfolding should_write_block
  should_write_block_lem offset state p =
      let (i, e, g) = held-slot b k s h in
      rw (contains-held b k s h, slot_of-held out_of_range b k i s e g) (rw p refl)

  -- `clear_all_requested` opens the blocks that were asked for again, and keeps those that are there.
  pub clear_all_requested_lem :
      (c : Buffer) × (clear_all_requested k b ≡ ok c)
      × Updates b k (record s { blocks_state = map reopen s.blocks_state }) c
  unfolding clear_all_requested
  clear_all_requested_lem =
      let (i, e, g) = held-slot b k s h in
      (
        _,
        rw (contains-held b k s h, slot_of-held undefined b k i s e g) refl,
        update-Updates b k i s _ v e g refl refl,
      )
