-- ===== src/PieceManager.antt =====
-- src/piece_manager.cpp and include/simpletorrent/PieceManager.h: which block to ask a peer for,
-- and what to do with a block that arrives. A method returns its result and the new state.
pub mod Invariant
pub mod States
pub mod Laws
pub mod Finish
pub mod AddBlock
pub mod Request
pub mod Requests
pub mod Choose
pub mod Pick
pub mod Chosen
pub mod Select
pub mod Init
pub mod Run
pub mod Saved
pub mod Sizes
pub mod History
pub mod Disk
pub mod Reach
pub mod Download
use mathlib.Core.List.{reverse}
use simpletorrent.Base.{
  ℕ, zero, suc, ◌+◌, ◌-◌, ◌*◌, ◌/◌, ◌%◌, ◌^◌, Bool, true, false, not, ◌&&◌, Option, none, some,
  List, [], ◌∷◌, map, length, get_elem?, set, ltb, leb, ◌==◌, list_eq, if◌then◌else◌, Result, Fault,
  ok, fault, ◌>>=◌, ◌>>◌, at, or_fault, out_of_range, diverged,
}
use simpletorrent.Base.Maps.{find, insert, erase, contains, erase_if}
use simpletorrent.Types.{
  PieceState, not_started, all_requested, buffered, completed, PeerPieceState, TorrentMetadata,
  PieceMetadata, Block, BlockRequest, peer_has, is_not_started, is_all_requested,
}
use simpletorrent.FastRandom.{draw, initial_state}
use simpletorrent.Util.Hex.{hex_decode}
use simpletorrent.Buffer.{
  Buffer, is_full, get_pieces_in_buffer, add_piece_to_buffer, get_block_index_to_retrieve,
  write_block_to_buffer, should_write_block, remove_piece_from_buffer, clear_all_requested,
}
use simpletorrent.Buffer
use simpletorrent.FileManager.{FileManager}
use simpletorrent.FileManager

-- What the code takes from elsewhere: the order in which an unordered map is iterated, and
-- `SHA1::final()` of external/include/sha1.hpp on the bytes of a piece.
pub record Platform : Type 0 where
  pub order : List ℕ → List ℕ
  pub sha1 : List ℕ → List ℕ

-- `pieces_completed` is `completed_pieces_` of the `Statistics` object, which the class updates.
pub record PieceManager : Type 0 where
  pub piece_length : ℕ
  pub block_length : ℕ
  pub pieces : List PieceMetadata
  pub buffer : Buffer
  pub rng : ℕ
  pub peer_piece_affinity_map : List (ℕ × ℕ)
  pub peers_bitfield_map : List (ℕ × List PeerPieceState)
  pub num_pieces_completed : ℕ
  pub file_manager : FileManager
  pub pieces_completed : ℕ

-- The body of the loop of the constructor, at piece `i`. The casts cut to 32 bits.
unfoldable pub make_piece : TorrentMetadata → ℕ → ℕ → List ℕ → PieceMetadata
make_piece t block_length i h =
    let last = t.total_length % t.piece_length in
    let current =
      if (i + 1 == length t.piece_hashes) && not (last == 0)
      then last
      else t.piece_length % 2 ^ 32 in
    record {
      piece_hash = h;
      current_piece_length = current % 2 ^ 32;
      num_blocks = (current + block_length + (2 ^ 64 - 1)) % 2 ^ 64 / block_length % 2 ^ 32;
      state = not_started;
    }

-- The loop itself.
unfoldable pub make_pieces : TorrentMetadata → ℕ → ℕ → List (List ℕ) → List PieceMetadata
make_pieces t block_length i [] = []
make_pieces t block_length i (h ∷ hs) =
    make_piece t block_length i h ∷ make_pieces t block_length (i + 1) hs

-- The constructor. `pieces_completed` is what the statistics object has counted so far.
unfoldable pub init : TorrentMetadata → ℕ → ℕ → PieceManager
init t block_length buffer_size = record {
  piece_length = t.piece_length % 2 ^ 32;
  block_length = block_length;
  pieces = make_pieces t block_length 0 t.piece_hashes;
  buffer = Buffer.init block_length (t.piece_length % 2 ^ 32) buffer_size;
  rng = initial_state;
  peer_piece_affinity_map = [];
  peers_bitfield_map = [];
  num_pieces_completed = 0;
  file_manager = FileManager.init t;
  pieces_completed = 0;
}

-- `pieces_.at(piece_index).state = state`.
unfoldable pub set_state : ℕ → PieceState → PieceManager → Result PieceManager
set_state piece_index state pm = do
  p ← at pm.pieces piece_index
  ok (record pm { pieces = set pm.pieces piece_index (record p { state = state }) })

unfoldable pub remove_affinity : ℕ → PieceManager → PieceManager
remove_affinity piece_index pm = record pm {
  peer_piece_affinity_map = erase_if (λ k. k == piece_index) pm.peer_piece_affinity_map;
}

-- The search of `handle_buffer_not_full_case`: `i` runs over the bitfield, and `pieces_.at(i)`
-- throws if the bitfield is longer than the list of pieces.
unfoldable pub find_startable : List PeerPieceState → List PieceMetadata → ℕ → Result (Option ℕ)
find_startable [] ps i = ok none
find_startable (b ∷ bs) [] i = fault out_of_range
find_startable (b ∷ bs) (p ∷ ps) i =
    let next = find_startable bs ps (i + 1) in
    if is_not_started p.state && peer_has b then ok (some i) else next

-- A piece that was found goes into the buffer, and the peer gets it as its affinity piece.
unfoldable pub start_piece : ℕ → ℕ → PieceManager → Result PieceManager
start_piece peer_id piece_index pm = do
  p ← at pm.pieces piece_index
  (_, buffer) ← add_piece_to_buffer piece_index p.num_blocks p.current_piece_length pm.buffer
  started ← set_state piece_index buffered (record pm { buffer = buffer })
  ok (record started {
    peer_piece_affinity_map = insert peer_id piece_index started.peer_piece_affinity_map;
  })

unfoldable pub handle_buffer_not_full_case : ℕ → PieceManager → Result (Option ℕ × PieceManager)
handle_buffer_not_full_case peer_id pm = do
  bitfield ← or_fault (find peer_id pm.peers_bitfield_map) out_of_range
  chosen ← find_startable bitfield pm.pieces 0
  elim chosen [
    | none ↦ ok (none, pm)
    | some piece_index ↦ do
      started ← start_piece peer_id piece_index pm
      ok (some piece_index, started)
  ]

-- The `do` loop of `handle_buffer_full_or_no_piece_to_add`: round the list from `start`, until a
-- piece is found that the peer has or the start comes again.
unfoldable pub pick_from : ℕ → List ℕ → List PeerPieceState → ℕ → ℕ → Result (Option ℕ)
pick_from zero ps bitfield start i = fault diverged
pick_from (suc fuel) ps bitfield start i =
    let next = pick_from fuel ps bitfield start ((i + 1) % length ps) in
    do
      piece_index ← at ps i
      b ← at bitfield piece_index
      if peer_has b
          then ok (some piece_index)
          else if (i + 1) % length ps == start
          then ok none
          else next

-- The body of that loop for the piece on which it breaks off.
unfoldable pub take_up : ℕ → ℕ → PieceManager → Result PieceManager
take_up peer_id piece_index pm = do
  let assigned = record pm {
    peer_piece_affinity_map = insert peer_id piece_index pm.peer_piece_affinity_map;
  }
  p ← at pm.pieces piece_index
  if is_all_requested p.state
      then (do
        buffer ← clear_all_requested piece_index assigned.buffer
        set_state piece_index buffered (record assigned { buffer = buffer }))
      else ok assigned

unfoldable pub handle_buffer_full_or_no_piece_to_add :
    Platform → ℕ → PieceManager → Result (Option ℕ × PieceManager)
handle_buffer_full_or_no_piece_to_add platform peer_id pm = do
  bitfield ← or_fault (find peer_id pm.peers_bitfield_map) out_of_range
  let pieces_in_buffer = get_pieces_in_buffer platform.order pm.buffer
  let n = length pieces_in_buffer
  if ltb 0 n
      then (do
        let (rng, start) = draw n pm.rng
        chosen ← pick_from n pieces_in_buffer bitfield start start
        elim chosen [
          | none ↦ ok (none, record pm { rng = rng })
          | some piece_index ↦ do
            taken ← take_up peer_id piece_index (record pm { rng = rng })
            ok (some piece_index, taken)
        ])
      else ok (none, pm)

unfoldable pub calculate_block_length : ℕ → ℕ → PieceManager → Result ℕ
calculate_block_length piece_index block_idx pm =
    if piece_index + 1 == length pm.pieces
    then (do
      last ← at pm.pieces (length pm.pieces - 1)
      if ltb block_idx (last.current_piece_length / pm.block_length)
          then ok pm.block_length
          else ok (last.current_piece_length % pm.block_length))
    else ok pm.block_length

-- The first two ways of `select_next_block` to choose a piece: the affinity piece, or else, with
-- room in the buffer, a new one.
unfoldable pub choose_own : ℕ → PieceManager → Result (Option ℕ × PieceManager)
choose_own peer_id pm = elim (find peer_id pm.peer_piece_affinity_map) [
  | some piece_index ↦ ok (some piece_index, pm)
  | none ↦ if is_full pm.buffer then ok (none, pm) else handle_buffer_not_full_case peer_id pm
]

-- The third way, if there is still no piece.
unfoldable pub choose_piece : Platform → ℕ → PieceManager → Result (Option ℕ × PieceManager)
choose_piece platform peer_id pm = do
  (chosen, own) ← choose_own peer_id pm
  elim chosen [
    | some piece_index ↦ ok (some piece_index, own)
    | none ↦ handle_buffer_full_or_no_piece_to_add platform peer_id own
  ]

-- After the query of the buffer: a piece with no block left is nobody's affinity piece.
unfoldable pub mark_all_requested : Bool → ℕ → PieceManager → Result PieceManager
mark_all_requested all piece_index pm =
    if all
    then (do
      marked ← set_state piece_index all_requested pm
      ok (remove_affinity piece_index marked))
    else ok pm

-- The rest of `select_next_block` for the chosen piece.
unfoldable pub request_block : ℕ → PieceManager → Result (Option BlockRequest × PieceManager)
request_block piece_index pm = do
  ((all, chosen), buffer) ← get_block_index_to_retrieve piece_index pm.buffer
  marked ← mark_all_requested all piece_index (record pm { buffer = buffer })
  elim chosen [
    | none ↦ ok (none, marked)
    | some block_idx ↦ do
      block_len ← calculate_block_length piece_index block_idx marked
      ok (
        some (record {
          piece_index = piece_index;
          block_offset = block_idx * marked.block_length % 2 ^ 32;
          block_length = block_len;
        }),
        marked,
      )
  ]

-- With no piece there is no request.
unfoldable pub request_chosen :
    Option ℕ → PieceManager → Result (Option BlockRequest × PieceManager)
request_chosen none pm = ok (none, pm)
request_chosen (some piece_index) pm = request_block piece_index pm

unfoldable pub select_next_block :
    Platform → ℕ → PieceManager → Result (Option BlockRequest × PieceManager)
select_next_block platform peer_id pm =
    if contains peer_id pm.peers_bitfield_map
    then (do (chosen, ready) ← choose_piece platform peer_id pm; request_chosen chosen ready)
    else ok (none, pm)

unfoldable pub is_valid_block_data : Block → PieceManager → Bool
is_valid_block_data block pm = elim (get_elem? pm.pieces block.piece_index) [
  | none ↦ false
  | some p ↦
      if leb p.current_piece_length block.block_offset
      then false
      else leb (length block.bytes) (p.current_piece_length - block.block_offset)
]

unfoldable pub is_verified_piece : Platform → ℕ → List ℕ → PieceManager → Result Bool
is_verified_piece platform piece_index bytes pm = do
  p ← at pm.pieces piece_index
  digest ← hex_decode (platform.sha1 bytes)
  ok (list_eq digest p.piece_hash)

-- `save_piece`, with the count of the statistics object.
unfoldable pub save_piece : ℕ → List ℕ → PieceManager → PieceManager
save_piece piece_index bytes pm = record pm {
  pieces_completed = (pm.pieces_completed + 1) % 2 ^ 32;
  file_manager = FileManager.save_piece (piece_index * pm.piece_length) bytes pm.file_manager;
}

unfoldable pub drop_piece : ℕ → PieceManager → Result PieceManager
drop_piece piece_index pm = do
  let free = remove_affinity piece_index pm
  buffer ← remove_piece_from_buffer piece_index free.buffer
  ok (record free { buffer = buffer })

-- The branch of `add_block` for a piece that is complete.
unfoldable pub finish_piece : Platform → ℕ → List ℕ → PieceManager → Result PieceManager
finish_piece platform piece_index bytes pm = do
  verified ← is_verified_piece platform piece_index bytes pm
  settled ←
      (if verified
        then (do
          done ← set_state piece_index completed (save_piece piece_index bytes pm)
          ok (record done { num_pieces_completed = (done.num_pieces_completed + 1) % 2 ^ 32 }))
        else set_state piece_index not_started pm)
  drop_piece piece_index settled

-- `peer_id` is not used by the code.
unfoldable pub add_block : Platform → Block → PieceManager → Result PieceManager
add_block platform block pm =
    if is_valid_block_data block pm
    then (do
      wanted ← should_write_block block.block_offset block.piece_index pm.buffer
      if wanted
          then (do
            ((done, bytes), buffer) ← write_block_to_buffer block pm.buffer
            let written = record pm { buffer = buffer }
            if done then finish_piece platform block.piece_index bytes written else ok written)
          else ok pm)
    else ok pm

unfoldable pub remove_peer : ℕ → PieceManager → PieceManager
remove_peer peer_id pm = record pm {
  peer_piece_affinity_map = erase peer_id pm.peer_piece_affinity_map;
  peers_bitfield_map = erase peer_id pm.peers_bitfield_map;
}

unfoldable pub is_download_complete : PieceManager → Bool
is_download_complete pm = pm.num_pieces_completed == length pm.pieces

-- `stopped` is `globalstate::is_stop_download()`.
unfoldable pub continue_download : Bool → PieceManager → Bool
continue_download stopped pm = not stopped && not (is_download_complete pm)

unfoldable pub peer_piece_state : ℕ → PeerPieceState
peer_piece_state b = if b == 1 then PeerPieceState.have else PeerPieceState.dont_have

unfoldable pub update_piece_frequencies : List ℕ → ℕ → PieceManager → PieceManager
update_piece_frequencies bitfield peer_id pm = record pm {
  peers_bitfield_map = insert peer_id (map peer_piece_state bitfield) pm.peers_bitfield_map;
}
