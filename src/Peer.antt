-- ===== src/Peer.antt =====
-- src/peer.cpp: a peer, what it sends, and what it does with a message that has arrived whole.
-- `Connection` has the two routines that call these.
pub mod Handlers
pub mod Connection
pub mod Sound
pub mod Run
pub mod Rank
pub mod Ends
use simpletorrent.Base.{
  ℕ, ◌+◌, ◌%◌, Bool, true, false, ◌&&◌, Option, none, some, List, [], ◌∷◌, length, get_elem?, drop,
  replicate, all_of, ltb, ◌==◌, if◌then◌else◌, Result, ok, fault, thrown, ◌>>=◌,
}
use simpletorrent.Types.{Block}
use simpletorrent.Util.Hex.{hex_decode}
use simpletorrent.Util.ByteOrder.{Endian}
use simpletorrent.Message.{
  MessageType, choke, unchoke, interested, not_interested, have, bitfield, request, piece, cancel,
  get_peer_bitfield, retrieve_piece_index_and_block_offset, create_handshake, construct_message,
  parse_handshake_response,
}
use simpletorrent.PieceManager.{Platform, PieceManager, add_block, update_piece_frequencies}

-- The piece manager that all peers share is an argument of what uses it; the socket and its context
-- are no part of the state.
pub record Peer : Type 0 where
  pub info_hash : List ℕ
  pub our_id : List ℕ
  pub ip_address : List ℕ
  pub port : ℕ
  pub peer_id : List ℕ
  pub num_in_flight : ℕ
  pub peer_num_id : ℕ
  pub is_choked : Bool
  pub num_pieces : ℕ
  pub continue_connection : Bool
  pub main_routine_has_exited : Bool
  pub spawned_routine_has_exited : Bool

abbrev pub max_in_flight : ℕ
max_in_flight = 5

-- The constructor.
unfoldable pub init : List ℕ → List ℕ → List ℕ → ℕ → ℕ → ℕ → Peer
init info_hash our_id ip_address port peer_num_id num_pieces = record {
  info_hash = info_hash;
  our_id = our_id;
  ip_address = ip_address;
  port = port;
  peer_id = [];
  num_in_flight = 0;
  peer_num_id = peer_num_id;
  is_choked = true;
  num_pieces = num_pieces;
  continue_connection = true;
  main_routine_has_exited = false;
  spawned_routine_has_exited = true;
}

unfoldable pub has_exited : Peer → Bool
has_exited peer = peer.main_routine_has_exited && peer.spawned_routine_has_exited

-- What `send_handshake` and `send_interested` write to the socket.
unfoldable pub send_handshake : Peer → Result (List ℕ)
send_handshake peer = do
  binary_info_hash ← hex_decode peer.info_hash
  ok (create_handshake (replicate 8 0) binary_info_hash peer.our_id)

unfoldable pub send_interested : Endian → List ℕ
send_interested e = construct_message e interested []

-- What follows the read of the 68 bytes `handshake_response`.
unfoldable pub receive_handshake_response : List ℕ → Peer → Result Peer
receive_handshake_response handshake_response peer = do
  peer_id_op ← parse_handshake_response handshake_response peer.info_hash
  elim peer_id_op [ none ↦ fault thrown | some id ↦ ok (record peer { peer_id = id }) ]

unfoldable pub handle_bitfield_message : List ℕ → Peer → PieceManager → Result PieceManager
handle_bitfield_message payload peer pm =
    let peer_bitfield = get_peer_bitfield payload peer.num_pieces in
    if all_of (λ value. value == 0) peer_bitfield
    then fault thrown
    else ok (update_piece_frequencies peer_bitfield peer.peer_num_id pm)

-- The counter of one byte goes from 0 to 255.
unfoldable pub handle_piece_message :
    Platform → Endian → List ℕ → Peer → PieceManager → Result (Peer × PieceManager)
handle_piece_message platform e payload peer pm =
    if ltb (length payload) 9 then ok (peer, pm) else do
      (piece_index, block_offset) ← retrieve_piece_index_and_block_offset e payload
      added ←
          add_block platform
            (record {
              piece_index = piece_index;
              block_offset = block_offset;
              bytes = drop 8 payload;
            })
            pm
      ok (record peer { num_in_flight = (peer.num_in_flight + 255) % 256 }, added)

-- All other types, also those without a name, are passed over.
unfoldable pub handle_message :
    Platform → Endian → MessageType → List ℕ → Peer → PieceManager → Result (Peer × PieceManager)
handle_message platform e choke payload peer pm = ok (record peer { is_choked = true }, pm)
handle_message platform e unchoke payload peer pm = ok (record peer { is_choked = false }, pm)
handle_message platform e bitfield payload peer pm = do
  registered ← handle_bitfield_message payload peer pm
  ok (peer, registered)
handle_message platform e piece payload peer pm = handle_piece_message platform e payload peer pm
handle_message platform e _ payload peer pm = ok (peer, pm)

-- `static_cast<MessageType>` of a byte: none for a type without a name.
unfoldable pub message_type : ℕ → Option MessageType
message_type code =
    get_elem?
      (choke ∷ unchoke ∷ interested ∷ not_interested ∷ have ∷ bitfield ∷ request ∷ piece ∷ cancel
        ∷ MessageType.port ∷ [])
      code

-- `handle_message` of a type that is given by its byte; the default case passes over it.
unfoldable pub handle_typed :
    Platform
    → Endian
    → Option MessageType
    → List ℕ
    → Peer
    → PieceManager
    → Result (Peer × PieceManager)
handle_typed platform e none payload peer pm = ok (peer, pm)
handle_typed platform e (some type) payload peer pm = handle_message platform e type payload peer pm
