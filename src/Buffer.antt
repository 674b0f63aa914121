-- ===== src/Buffer.antt =====
-- src/buffer.cpp and include/simpletorrent/Buffer.h: the pieces under download, in a fixed number
-- of slots. A method returns its result and the new buffer.
pub mod Held
pub mod Slots
pub mod Blocks
pub mod Retrieve
use simpletorrent.Base.{
  ℕ, ◌+◌, ◌/◌, Bool, true, false, ◌||◌, Option, none, some, List, [], ◌∷◌, map, length, get_elem?,
  set, replicate, resize, overwrite, all_of, first_index, ltb, leb, ◌==◌, if◌then◌else◌, Result,
  Fault, ok, ◌>>=◌, ◌>>◌, guard, or_fault, at, out_of_range, assertion, undefined,
}
use simpletorrent.Base.Maps.{find, insert, erase, contains, keys}
use simpletorrent.Types.{BlockState, is_have, is_dont_have, is_requested, Block}

pub record BufferPiece : Type 0 where
  pub piece_index : ℕ
  pub bytes : List ℕ
  pub blocks_state : List BlockState
  pub empty : Bool

-- `slots` is `buffer_`.
pub record Buffer : Type 0 where
  pub slots : List BufferPiece
  pub piece_buffer_map : List (ℕ × ℕ)
  pub block_length : ℕ
  pub normal_piece_length : ℕ

-- The constructor of `BufferPiece`.
unfoldable pub new_piece : ℕ → ℕ → BufferPiece
new_piece num_blocks piece_length = record {
  piece_index = 0;
  bytes = replicate piece_length 0;
  blocks_state = replicate num_blocks BlockState.dont_have;
  empty = true;
}

-- The constructor of `Buffer`.
unfoldable pub init : ℕ → ℕ → ℕ → Buffer
init block_length piece_length buffer_size = record {
  slots = replicate buffer_size (new_piece (piece_length / block_length) piece_length);
  piece_buffer_map = [];
  block_length = block_length;
  normal_piece_length = piece_length;
}

-- The order in which an unordered map is iterated is the library's choice, `order`.
unfoldable pub get_pieces_in_buffer : (List ℕ → List ℕ) → Buffer → List ℕ
get_pieces_in_buffer order b = order (keys b.piece_buffer_map)

unfoldable pub is_full : Buffer → Bool
is_full b = length b.piece_buffer_map == length b.slots

-- The slot `piece` after `add_piece_to_buffer` has set it up.
unfoldable pub set_up : ℕ → ℕ → ℕ → BufferPiece → BufferPiece
set_up piece_index num_blocks piece_length piece = record {
  piece_index = piece_index;
  bytes = resize piece.bytes piece_length 0;
  blocks_state =
      map (λ _. BlockState.dont_have) (resize piece.blocks_state num_blocks BlockState.have);
  empty = false;
}

-- If no slot is empty, `empty_idx` stays -1 and `buffer_[-1]` is undefined.
unfoldable pub add_piece_to_buffer : ℕ → ℕ → ℕ → Buffer → Result (Bool × Buffer)
add_piece_to_buffer piece_index num_blocks piece_length b = if is_full b then ok (false, b) else do
  empty_idx ← or_fault (first_index (λ s. s.empty) b.slots 0) undefined
  piece ← or_fault (get_elem? b.slots empty_idx) undefined
  ok (
    true,
    record b {
      slots = set b.slots empty_idx (set_up piece_index num_blocks piece_length piece);
      piece_buffer_map = insert piece_index empty_idx b.piece_buffer_map;
    },
  )

-- The slot of a piece: `piece_buffer_map_.at(piece_index)`, and then the slot at that index, which
-- is read by `.at()` (a bad index throws) or by `[]` (a bad index is undefined).
unfoldable pub slot_of : Fault → ℕ → Buffer → Result (ℕ × BufferPiece)
slot_of bad piece_index b = do
  buffer_index ← or_fault (find piece_index b.piece_buffer_map) out_of_range
  piece ← or_fault (get_elem? b.slots buffer_index) bad
  ok (buffer_index, piece)

-- The first block that is not yet wanted, and the blocks with it marked.
unfoldable pub request_first : List BlockState → Option ℕ × List BlockState
request_first blocks = elim (first_index is_dont_have blocks 0) [
  | none ↦ (none, blocks)
  | some i ↦ (some i, set blocks i BlockState.requested)
]

unfoldable pub is_requested_or_have : BlockState → Bool
is_requested_or_have s = is_requested s || is_have s

-- The first part of the result is `all_requested_or_completed`.
unfoldable pub get_block_index_to_retrieve : ℕ → Buffer → Result ((Bool × Option ℕ) × Buffer)
get_block_index_to_retrieve piece_index b = do
  guard (contains piece_index b.piece_buffer_map) assertion
  (buffer_index, piece) ← slot_of out_of_range piece_index b
  let (chosen, blocks) = request_first piece.blocks_state
  ok (
    (all_of is_requested_or_have blocks, chosen),
    record b { slots = set b.slots buffer_index (record piece { blocks_state = blocks }) },
  )

-- A copy past the end of the piece and a write past its blocks are undefined.
unfoldable pub write_block_to_buffer : Block → Buffer → Result ((Bool × List ℕ) × Buffer)
write_block_to_buffer block b = do
  let block_index = block.block_offset / b.block_length
  (buffer_index, piece) ← slot_of undefined block.piece_index b
  guard (leb (block.block_offset + length block.bytes) (length piece.bytes)) undefined
  let bytes = overwrite piece.bytes block.block_offset block.bytes
  guard (ltb block_index (length piece.blocks_state)) undefined
  let blocks = set piece.blocks_state block_index BlockState.have
  ok (
    (all_of is_have blocks, bytes),
    record b {
      slots = set b.slots buffer_index (record piece { bytes = bytes; blocks_state = blocks });
    },
  )

unfoldable pub should_write_block : ℕ → ℕ → Buffer → Result Bool
should_write_block block_offset piece_index b =
    if contains piece_index b.piece_buffer_map
    then (do
      (_, piece) ← slot_of out_of_range piece_index b
      state ← at piece.blocks_state (block_offset / b.block_length)
      ok (is_requested state || is_dont_have state))
    else ok false

unfoldable pub remove_piece_from_buffer : ℕ → Buffer → Result Buffer
remove_piece_from_buffer piece_index b = do
  guard (contains piece_index b.piece_buffer_map) assertion
  (buffer_index, piece) ← slot_of undefined piece_index b
  ok (record b {
    slots = set b.slots buffer_index (record piece { empty = true });
    piece_buffer_map = erase piece_index b.piece_buffer_map;
  })

-- A block that was asked for is open again.
unfoldable pub reopen : BlockState → BlockState
reopen s = if is_requested s then BlockState.dont_have else s

unfoldable pub clear_all_requested : ℕ → Buffer → Result Buffer
clear_all_requested piece_index b = do
  guard (contains piece_index b.piece_buffer_map) assertion
  (buffer_index, piece) ← slot_of undefined piece_index b
  ok (record b {
    slots =
        set b.slots buffer_index (record piece { blocks_state = map reopen piece.blocks_state });
  })

unfoldable pub get_block_state : ℕ → Buffer → Result (List BlockState)
get_block_state piece_index b = do
  (_, piece) ← slot_of undefined piece_index b
  ok piece.blocks_state
