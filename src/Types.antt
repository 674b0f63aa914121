-- ===== src/Types.antt =====
-- include/simpletorrent/Constant.h and include/simpletorrent/Metadata.h: the enumerations and the
-- plain data that the components exchange. A byte string is a list of numbers below 256.
use simpletorrent.Base.{ℕ, List, Bool, true, false}

pub data PieceState : Type 0 where
  not_started all_requested buffered completed : PieceState

pub data PeerPieceState : Type 0 where
  have dont_have : PeerPieceState

pub data BlockState : Type 0 where
  have dont_have requested : BlockState

pub data PeerState : Type 0 where
  not_connected connected_1 connected_2 disconnected_1 disconnected_2 : PeerState

pub record FileMetadata : Type 0 where
  pub file_length : ℕ
  pub paths : List (List ℕ)

pub record TorrentMetadata : Type 0 where
  pub tracker_url_list : List (List ℕ)
  pub piece_hashes : List (List ℕ)
  pub piece_length : ℕ
  pub total_length : ℕ
  pub output_path : List ℕ
  pub info_hash : List ℕ
  pub files : List FileMetadata

pub record BlockRequest : Type 0 where
  pub piece_index : ℕ
  pub block_offset : ℕ
  pub block_length : ℕ

-- The bytes from `data_begin` to `data_end` are `bytes`.
pub record Block : Type 0 where
  pub piece_index : ℕ
  pub block_offset : ℕ
  pub bytes : List ℕ

pub record PieceMetadata : Type 0 where
  pub piece_hash : List ℕ
  pub current_piece_length : ℕ
  pub num_blocks : ℕ
  pub state : PieceState

-- The comparisons of the code with one enumerator.
abbrev pub is_have : BlockState → Bool
is_have have = true
is_have dont_have = false
is_have requested = false

abbrev pub is_dont_have : BlockState → Bool
is_dont_have have = false
is_dont_have dont_have = true
is_dont_have requested = false

abbrev pub is_requested : BlockState → Bool
is_requested have = false
is_requested dont_have = false
is_requested requested = true

abbrev pub peer_has : PeerPieceState → Bool
peer_has have = true
peer_has dont_have = false

abbrev pub is_not_started : PieceState → Bool
is_not_started not_started = true
is_not_started _ = false

abbrev pub is_all_requested : PieceState → Bool
is_all_requested all_requested = true
is_all_requested _ = false

abbrev pub is_completed : PieceState → Bool
is_completed completed = true
is_completed _ = false
