-- ===== src/Tests/Wire.antt =====
-- include/simpletorrent/MessageUtil.h at concrete inputs.
use simpletorrent.Base.{
  ℕ, ◌/◌, ◌%◌, ◌≡◌, refl, ◌⊎◌, none, some, List, [], ◌∷◌, get_elem?, take, drop, replicate, list_eq,
  if◌then◌else◌, ok, arith,
}
use simpletorrent.Types.{BlockRequest}
use simpletorrent.Util.Hex.{to_hex_string}
use simpletorrent.Util.ByteOrder.{little, big}
use simpletorrent.Message.{
  have, construct_message, construct_request_message, get_header_length,
  retrieve_piece_index_and_block_offset, create_handshake, parse_handshake_response,
  get_peer_bitfield, read_bytes, read_byte, has_piece,
}
use simpletorrent.Message.Layout.{
  get_header_length-construct_message, retrieve-construct_request_message,
}
use simpletorrent.Message.Handshake.{
  Sized, Accepted, parse_handshake_response-create_handshake, parse_handshake_response-Accepted,
}
use simpletorrent.Message.Bitfield.{read_bit, get_peer_bitfield-get}

abbrev block_request : BlockRequest
block_request = record { piece_index = 258; block_offset = 16384; block_length = 16384 }

-- 1010 0000 for five pieces.
highest_first : get_peer_bitfield (160 ∷ []) 5 ≡ 1 ∷ 0 ∷ 1 ∷ 0 ∷ 0 ∷ []
unfolding get_peer_bitfield read_bytes read_byte has_piece
highest_first = refl

get_header_length-construct_message_example :
    get_header_length big (take 4 (construct_message little have (0 ∷ 0 ∷ 0 ∷ 5 ∷ []))) ≡ ok 5
get_header_length-construct_message_example =
    get_header_length-construct_message little big have (0 ∷ 0 ∷ 0 ∷ 5 ∷ []) (omega arith)

retrieve-construct_request_message_example :
    retrieve_piece_index_and_block_offset big
      (drop 5 (construct_request_message little block_request))
    ≡ ok (258, 16384)
retrieve-construct_request_message_example =
    retrieve-construct_request_message little big block_request (omega arith) (omega arith)

abbrev zeros : ℕ → List ℕ
zeros n = replicate n 0

sizes : Sized (zeros 8) (zeros 20) (zeros 20)
sizes = record { reserved_size = refl; info_size = refl; id_size = refl }

parse_handshake_response-create_handshake_example :
    parse_handshake_response (create_handshake (zeros 8) (zeros 20) (zeros 20)) (zeros 40)
    ≡ ok (
        if list_eq (to_hex_string (zeros 20)) (zeros 40)
        then some (to_hex_string (zeros 20))
        else none)
parse_handshake_response-create_handshake_example =
    parse_handshake_response-create_handshake (zeros 8) (zeros 20) (zeros 20) sizes (zeros 40)

-- A response that gives a name of 200 bytes.
abbrev long_name : List ℕ
long_name = 200 ∷ zeros 67

parse_handshake_response-Accepted_example :
    Accepted long_name (zeros 40) ⊎ (parse_handshake_response long_name (zeros 40) ≡ ok none)
parse_handshake_response-Accepted_example =
    parse_handshake_response-Accepted long_name (zeros 40) refl

get_peer_bitfield-get_example :
    get_elem? (get_peer_bitfield (160 ∷ []) 5) 2
    ≡ read_bit 5 (get_elem? (160 ∷ []) (2 / 8)) (2 % 8) (some 0)
get_peer_bitfield-get_example = get_peer_bitfield-get 5 (160 ∷ []) (omega arith) 2 (omega arith)
