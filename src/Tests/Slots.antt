-- ===== src/Tests/Slots.antt =====
-- src/buffer.cpp at concrete inputs: two slots for pieces of two blocks of two bytes.
use simpletorrent.Base.{
  Bool, Option, List, ℕ, ◌/◌, ◌≡◌, refl, sym, inl, inr, Bool-cases, true, false, none, some, [],
  ◌∷◌, set, all_of, overwrite, ◌==◌, if◌then◌else◌, ok, arith,
}
use simpletorrent.Base.Maps.{find, contains}
use simpletorrent.Types.{BlockState, Block, is_have}
use simpletorrent.Buffer.{
  Buffer, BufferPiece, is_full, add_piece_to_buffer, get_block_index_to_retrieve,
  write_block_to_buffer, remove_piece_from_buffer,
}
use simpletorrent.Buffer.Held.{held, IsValid}
use simpletorrent.Buffer.Slots.{Adds, add_piece_to_buffer-Adds, remove_piece_from_buffer_lem}
use simpletorrent.Buffer.Retrieve.{Chooses, Tells, get_block_index_to_retrieve-Chooses}
use simpletorrent.Buffer.Blocks.{Updates, write_block_to_buffer_lem}

-- Piece 5 with its first block asked for.
abbrev piece_5 : BufferPiece
piece_5 = record {
  piece_index = 5;
  bytes = 0 ∷ 0 ∷ 0 ∷ 0 ∷ [];
  blocks_state = BlockState.requested ∷ BlockState.dont_have ∷ [];
  empty = false;
}

abbrev one_piece : Buffer
one_piece = record {
  slots =
      piece_5 ∷ (record { piece_index = 0; bytes = 0 ∷ []; blocks_state = []; empty = true }) ∷ [];
  piece_buffer_map = (5, 0) ∷ [];
  block_length = 2;
  normal_piece_length = 4;
}

only_5 : (k i : ℕ) → find k one_piece.piece_buffer_map ≡ some i → (k ≡ 5) × (i ≡ 0)
unfolding find
only_5 k i h = elim (Bool-cases (5 == k)) [
  | inl e ↦ (ground arith, ground arith)
  | inr e ↦ ground arith
]

one_piece-IsValid : IsValid one_piece
unfolding contains
one_piece-IsValid = record {
  unique = (refl, tt);
  counted = refl;
  mapped = λ k i h. let (at_5, at_0) = only_5 k i h in (piece_5, rw at_0 refl, refl, sym at_5);
}

holds_5 : held one_piece 5 ≡ some piece_5
unfolding held find
holds_5 = refl

add_piece_to_buffer-Adds_example :
    (c : Buffer) × (add_piece_to_buffer 9 2 4 one_piece ≡ ok (true, c)) × Adds one_piece 9 2 4 c
add_piece_to_buffer-Adds_example =
    add_piece_to_buffer-Adds one_piece 9 2 4 one_piece-IsValid (unfold held find in refl)
      (unfold is_full in refl)

remove_piece_from_buffer_lem_example :
    (c : Buffer) × (remove_piece_from_buffer 5 one_piece ≡ ok c)
    × ((j : ℕ) → held c j ≡ (if 5 == j then none else held one_piece j))
    × IsValid c
    × (c.block_length ≡ one_piece.block_length)
    × (is_full c ≡ false)
remove_piece_from_buffer_lem_example =
    remove_piece_from_buffer_lem one_piece 5 piece_5 one_piece-IsValid holds_5

get_block_index_to_retrieve-Chooses_example :
    (all : Bool) × (chosen : Option ℕ) × (blocks : List BlockState) × (c : Buffer)
    × (get_block_index_to_retrieve 5 one_piece ≡ ok ((all, chosen), c))
    × Chooses piece_5.blocks_state blocks chosen
    × Tells blocks all
    × Updates one_piece 5 (record piece_5 { blocks_state = blocks }) c
get_block_index_to_retrieve-Chooses_example =
    get_block_index_to_retrieve-Chooses one_piece 5 piece_5 one_piece-IsValid holds_5

abbrev second_block : Block
second_block = record { piece_index = 5; block_offset = 2; bytes = 7 ∷ 8 ∷ [] }

write_block_to_buffer_lem_example :
    let bytes = overwrite piece_5.bytes second_block.block_offset second_block.bytes in
    let blocks =
      set piece_5.blocks_state
        (second_block.block_offset / one_piece.block_length)
        BlockState.have in
    (c : Buffer) × (write_block_to_buffer second_block one_piece
      ≡ ok ((all_of is_have blocks, bytes), c))
    × Updates one_piece 5 (record piece_5 { bytes = bytes; blocks_state = blocks }) c
write_block_to_buffer_lem_example =
    write_block_to_buffer_lem one_piece 5 piece_5 one_piece-IsValid holds_5 second_block refl
      (omega arith) (omega arith)
