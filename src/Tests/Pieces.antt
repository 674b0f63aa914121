-- ===== src/Tests/Pieces.antt =====
-- src/piece_manager.cpp at a torrent of two pieces of two blocks.
use simpletorrent.FileManager.{Turn, file_writer}
use simpletorrent.Base.{
  ℕ, zero, suc, ◌<◌, ◌≡◌, refl, true, Option, none, some, List, [], ◌∷◌, length, get_elem?, all_of,
  ok, fault, arith, ◌⊎◌, inl, inr, if◌then◌else◌, ◌==◌, Bool-cases,
}
use simpletorrent.PieceManager.Run.{step}
use simpletorrent.Base.Maps.{contains, insert, find, erase, erase_if, keys}
use simpletorrent.PieceManager.{
  update_piece_frequencies, choose_piece, choose_own, handle_buffer_not_full_case, find_startable,
  make_pieces, make_piece, calculate_block_length, drop_piece, finish_piece,
  handle_buffer_full_or_no_piece_to_add, is_valid_block_data, is_verified_piece, mark_all_requested,
  peer_piece_state, remove_affinity, remove_peer, request_chosen, set_state, start_piece, take_up,
}
use simpletorrent.Buffer.{
  is_full, add_piece_to_buffer, clear_all_requested, get_block_index_to_retrieve,
  get_pieces_in_buffer, is_requested_or_have, new_piece, remove_piece_from_buffer, reopen,
  request_first, set_up, should_write_block, slot_of, write_block_to_buffer,
}
use simpletorrent.FastRandom.{draw, next_state}
use simpletorrent.FileManager.{data_file_lengths}
use simpletorrent.Util.Hex.{from_chars, hex_decode, hex_value}
use simpletorrent.Buffer.Held.{held}
use simpletorrent.Buffer
use simpletorrent.FileManager
use simpletorrent.PieceManager
use simpletorrent.Types.{TorrentMetadata, Block, BlockRequest, have, dont_have, PeerPieceState}
use simpletorrent.Util.Hex.{is_hex_digit, hex_value}
use simpletorrent.PieceManager.{
  Platform, PieceManager, init, add_block, select_next_block, pick_from, request_block,
  is_download_complete,
}
use simpletorrent.PieceManager.Laws.{IsPlatform}
use simpletorrent.PieceManager.Invariant.{Inv, IsHeld}
use simpletorrent.PieceManager.Finish.{Settles}
use simpletorrent.PieceManager.AddBlock.{add_block-Settles}
use simpletorrent.PieceManager.Pick.{pick_from-Picks}
use simpletorrent.PieceManager.Select.{Selects, select_next_block-Selects}
use simpletorrent.PieceManager.Init.{IsTorrent, init-Inv}
use simpletorrent.PieceManager.Run.{Call, select, add, register, remove, run, AllSized}
use simpletorrent.PieceManager.Sizes.{sizes_of}
use simpletorrent.PieceManager.History.{Good, run-init-Good}

-- A digest that tells whether the first byte is 9: "01" or "00".
abbrev first_is_9 : List ℕ → List ℕ
first_is_9 [] = 48 ∷ 48 ∷ []
first_is_9 (b ∷ bs) = 48 ∷ (if b == 9 then 49 else 48) ∷ []

abbrev pub platform : Platform
platform = record { order = λ ks. ks; sha1 = first_is_9 }

digest_digits : (bytes : List ℕ) → all_of is_hex_digit (first_is_9 bytes) ≡ true
unfolding is_hex_digit hex_value
digest_digits [] = refl
digest_digits (b ∷ bs) = elim (Bool-cases (b == 9)) [ inl e ↦ rw e refl | inr e ↦ rw e refl ]

pub platform_law : IsPlatform platform
platform_law = record { meets = λ ks i k h. (i, h); meets_all = λ ks. refl; digest = digest_digits }

-- The second piece has three bytes.
abbrev pub torrent : TorrentMetadata
torrent = record {
  tracker_url_list = [];
  piece_hashes = (1 ∷ []) ∷ (0 ∷ []) ∷ [];
  piece_length = 4;
  total_length = 7;
  output_path = [];
  info_hash = [];
  files = [];
}

pub torrent-IsTorrent : IsTorrent torrent 2
torrent-IsTorrent = record {
  piece_pos = omega arith;
  piece_small = omega arith;
  block_pos = omega arith;
  block_small = omega arith;
  few = omega arith;
}

started-Inv : Inv (init torrent 2 1)
started-Inv = init-Inv torrent 2 torrent-IsTorrent 1

abbrev block : ℕ → ℕ → List ℕ → Block
block k offset bytes = record { piece_index = k; block_offset = offset; bytes = bytes }

-- A peer with both pieces gives both, in a buffer with one slot. The first time, the first piece
-- comes with a wrong byte, and one block lies outside its piece.
abbrev pub whole_download : List Call
whole_download =
    register (1 ∷ 1 ∷ []) 7
    ∷ select 7
    ∷ add (block 0 0 (8 ∷ 5 ∷ []))
    ∷ select 7
    ∷ add (block 0 2 (5 ∷ 5 ∷ 5 ∷ []))
    ∷ add (block 0 2 (5 ∷ 5 ∷ []))
    ∷ select 7
    ∷ select 7
    ∷ add (block 0 2 (5 ∷ 6 ∷ []))
    ∷ add (block 0 0 (9 ∷ 5 ∷ []))
    ∷ select 7
    ∷ add (block 1 0 (1 ∷ 2 ∷ []))
    ∷ select 7
    ∷ add (block 1 2 (3 ∷ []))
    ∷ remove 7
    ∷ []

pub whole_download-AllSized : AllSized 2 whole_download
whole_download-AllSized = (refl, tt)

run-init-Good_example :
    (qm : PieceManager) × (run platform whole_download (init torrent 2 1) ≡ ok qm)
    × Good platform 2 (sizes_of torrent 2) qm
run-init-Good_example =
    run-init-Good platform platform_law torrent 2 1 whole_download torrent-IsTorrent
      whole_download-AllSized

-- The state after some calls.
abbrev pub state_after : List Call → PieceManager
state_after cs = elim (run platform cs (init torrent 2 1)) [
  | ok qm ↦ qm
  | fault _ ↦ init torrent 2 1
]

state_after-Good :
    (cs : List Call) → AllSized 2 cs → Good platform 2 (sizes_of torrent 2) (state_after cs)
state_after-Good cs z =
    let (qm, e, g) = run-init-Good platform platform_law torrent 2 1 cs torrent-IsTorrent z in
    rw (e, state_after) g

abbrev first_calls : List Call
first_calls = register (1 ∷ 1 ∷ []) 7 ∷ select 7 ∷ []

-- The first block of the first piece is asked for.
abbrev pub waiting : PieceManager
waiting = state_after first_calls

pub waiting-Good : Good platform 2 (sizes_of torrent 2) waiting
waiting-Good = state_after-Good first_calls (refl, tt)

waiting-Inv : Inv waiting
waiting-Inv = waiting-Good.inv

-- The last of the calls completes the download, and the queue holds the two pieces.
pub whole_download-ends :
    (is_download_complete (state_after whole_download) ≡ true)
    × ((state_after whole_download).file_manager.write_queue
        ≡ (0, 9 ∷ 5 ∷ 5 ∷ 6 ∷ []) ∷ (4, 1 ∷ 2 ∷ 3 ∷ []) ∷ [])
unfolding is_download_complete run step select_next_block contains update_piece_frequencies insert
    init choose_piece choose_own find is_full simpletorrent.Buffer.init handle_buffer_not_full_case
    find_startable make_pieces make_piece erase erase_if keys add_piece_to_buffer
    clear_all_requested get_block_index_to_retrieve get_pieces_in_buffer is_requested_or_have
    new_piece remove_piece_from_buffer reopen request_first set_up should_write_block slot_of
    write_block_to_buffer draw next_state data_file_lengths simpletorrent.FileManager.init
    simpletorrent.FileManager.save_piece add_block calculate_block_length drop_piece finish_piece
    handle_buffer_full_or_no_piece_to_add is_valid_block_data is_verified_piece mark_all_requested
    peer_piece_state pick_from remove_affinity remove_peer request_block request_chosen
    simpletorrent.PieceManager.save_piece set_state start_piece take_up from_chars hex_decode
    hex_value held
whole_download-ends = (refl, refl)

pub whole_download-ran :
    run platform whole_download (init torrent 2 1) ≡ ok (state_after whole_download)
whole_download-ran =
    let (qm, e, _) =
      run-init-Good platform platform_law torrent 2 1 whole_download torrent-IsTorrent
        whole_download-AllSized in
    rw (e, state_after) refl

waiting-IsHeld : IsHeld waiting.buffer 0
unfolding is_download_complete run step select_next_block contains update_piece_frequencies insert
    init choose_piece choose_own find is_full simpletorrent.Buffer.init handle_buffer_not_full_case
    find_startable make_pieces make_piece erase erase_if keys add_piece_to_buffer
    clear_all_requested get_block_index_to_retrieve get_pieces_in_buffer is_requested_or_have
    new_piece remove_piece_from_buffer reopen request_first set_up should_write_block slot_of
    write_block_to_buffer draw next_state data_file_lengths simpletorrent.FileManager.init
    simpletorrent.FileManager.save_piece add_block calculate_block_length drop_piece finish_piece
    handle_buffer_full_or_no_piece_to_add is_valid_block_data is_verified_piece mark_all_requested
    peer_piece_state pick_from remove_affinity remove_peer request_block request_chosen
    simpletorrent.PieceManager.save_piece set_state start_piece take_up from_chars hex_decode
    hex_value held
waiting-IsHeld = (_, refl)

add_block-Settles_example :
    Settles platform waiting (add_block platform (block 0 0 (8 ∷ 5 ∷ [])) waiting)
add_block-Settles_example =
    add_block-Settles platform platform_law waiting waiting-Inv (block 0 0 (8 ∷ 5 ∷ []))

select_next_block-Selects_example :
    (r : Option BlockRequest) × (qm : PieceManager) × (select_next_block platform 7 waiting
      ≡ ok (r, qm))
    × Selects waiting qm r
select_next_block-Selects_example =
    select_next_block-Selects platform platform_law 7 waiting waiting-Inv

abbrev bitfield : List PeerPieceState
bitfield = have ∷ dont_have ∷ []

bitfield_bounds : (i k : ℕ) → get_elem? (1 ∷ 0 ∷ []) i ≡ some k → k < length bitfield
bitfield_bounds zero k h = ground arith
bitfield_bounds (suc zero) k h = ground arith
bitfield_bounds (suc (suc i)) k h = ground arith

pick_from-Picks_example :
    ((k : ℕ) × (j : ℕ) × (pick_from 2 (1 ∷ 0 ∷ []) bitfield 0 0 ≡ ok (some k))
      × (get_elem? (1 ∷ 0 ∷ []) j ≡ some k)
      × (get_elem? bitfield k ≡ some have))
    ⊎ ((pick_from 2 (1 ∷ 0 ∷ []) bitfield 0 0 ≡ ok none)
        × ((j k : ℕ) → get_elem? (1 ∷ 0 ∷ []) j ≡ some k → get_elem? bitfield k ≡ some dont_have))
pick_from-Picks_example = pick_from-Picks (1 ∷ 0 ∷ []) bitfield 0 (omega arith) bitfield_bounds
