-- ===== src/Message.antt =====
-- include/simpletorrent/MessageUtil.h: the messages on the wire. A byte is a number below 256.
pub mod Handshake
pub mod Layout
pub mod Bitfield
use Prim.Native.Nat.{bit_and}
use simpletorrent.Base.{
  ℕ, zero, suc, ◌+◌, ◌*◌, ◌/◌, ◌%◌, ◌^◌, Option, none, some, List, [], ◌∷◌, ◌++◌, length, get_elem?,
  set, take, drop, replicate, overwrite, ltb, leb, ◌==◌, list_eq, if◌then◌else◌, Result, ok, fault,
  ◌>>=◌, or_fault, undefined,
}
use simpletorrent.Types.{BlockRequest}
use simpletorrent.Util.Hex.{to_hex_string}
use simpletorrent.Util.ByteOrder.{Endian, convert_bo, to_memory, of_memory}

pub data MessageType : Type 0 where
  choke unchoke interested not_interested have bitfield request piece cancel port : MessageType

unfoldable pub type_code : MessageType → ℕ
type_code choke = 0
type_code unchoke = 1
type_code interested = 2
type_code not_interested = 3
type_code have = 4
type_code bitfield = 5
type_code request = 6
type_code piece = 7
type_code cancel = 8
type_code port = 9

-- "BitTorrent protocol".
abbrev pub protocol_identifier : List ℕ
protocol_identifier =
    66 ∷ 105 ∷ 116 ∷ 84 ∷ 111 ∷ 114 ∷ 114 ∷ 101 ∷ 110 ∷ 116 ∷ 32 ∷ 112 ∷ 114 ∷ 111 ∷ 116 ∷ 111 ∷ 99
    ∷ 111 ∷ 108 ∷ []

-- `std::copy` and `memcpy` of `n` bytes; behind the end they are undefined.
unfoldable pub slice : ℕ → ℕ → List ℕ → Result (List ℕ)
slice start n bytes =
    if leb (start + n) (length bytes) then ok (take n (drop start bytes)) else fault undefined

-- After the name: the reserved bytes are passed over, the hash is compared, the id is the result.
unfoldable pub parse_identity : ℕ → List ℕ → List ℕ → Result (Option (List ℕ))
parse_identity idx handshake_response info_hash = do
  reserved_bytes ← slice idx 8 handshake_response
  binary_info_hash ← slice (idx + 8) 20 handshake_response
  if list_eq (to_hex_string binary_info_hash) info_hash
      then (do
        binary_peer_id ← slice (idx + 28) 20 handshake_response
        ok (some (to_hex_string binary_peer_id)))
      else ok none

unfoldable pub parse_handshake_response : List ℕ → List ℕ → Result (Option (List ℕ))
parse_handshake_response handshake_response info_hash = do
  protocol_name_length ← or_fault (get_elem? handshake_response 0) undefined
  let protocol_name = take protocol_name_length (drop 1 handshake_response)
  if ltb (length handshake_response) (1 + protocol_name_length)
      then ok none
      else if list_eq protocol_name protocol_identifier
      then parse_identity (1 + protocol_name_length) handshake_response info_hash
      else ok none

unfoldable pub create_handshake : List ℕ → List ℕ → List ℕ → List ℕ
create_handshake reserved_bytes binary_info_hash our_id =
    (length protocol_identifier % 256)
    ∷ (protocol_identifier ++ (reserved_bytes ++ (binary_info_hash ++ our_id)))

unfoldable pub construct_message : Endian → MessageType → List ℕ → List ℕ
construct_message e type payload =
    to_memory e 4 (convert_bo e 4 ((length payload + 1) % 2 ^ 32)) ++ (type_code type ∷ payload)

unfoldable pub construct_request_message : Endian → BlockRequest → List ℕ
construct_request_message e r =
    let payload_0 = overwrite (replicate 12 0) 0 (to_memory e 4 (convert_bo e 4 r.piece_index)) in
    let payload_4 = overwrite payload_0 4 (to_memory e 4 (convert_bo e 4 r.block_offset)) in
    let payload_8 = overwrite payload_4 8 (to_memory e 4 (convert_bo e 4 r.block_length)) in
    construct_message e request payload_8

unfoldable pub get_header_length : Endian → List ℕ → Result ℕ
get_header_length e header = do
  header_length ← slice 0 4 header
  ok (convert_bo e 4 (of_memory e header_length))

unfoldable pub retrieve_piece_index_and_block_offset : Endian → List ℕ → Result (ℕ × ℕ)
retrieve_piece_index_and_block_offset e payload = do
  piece_index ← slice 0 4 payload
  block_offset ← slice 4 4 payload
  ok (convert_bo e 4 (of_memory e piece_index), convert_bo e 4 (of_memory e block_offset))

-- `(payload[i] & (0x80 >> j)) != 0`, as 0 or 1.
unfoldable pub has_piece : ℕ → ℕ → ℕ
has_piece byte j = if bit_and byte (128 / 2 ^ j) == 0 then 0 else 1

-- The inner loop of `get_peer_bitfield`, with `count` rounds to go.
unfoldable pub read_byte : ℕ → ℕ → ℕ → ℕ → ℕ → List ℕ → List ℕ
read_byte zero j i byte num_pieces peer_bitfield = peer_bitfield
read_byte (suc count) j i byte num_pieces peer_bitfield =
    let piece_index = (i * 8 + j) % 2 ^ 32 in
    read_byte count (j + 1) i byte num_pieces (
      if ltb piece_index num_pieces
      then set peer_bitfield piece_index (has_piece byte j)
      else peer_bitfield)

-- The outer loop, on the payload from `i` on.
unfoldable pub read_bytes : List ℕ → ℕ → ℕ → List ℕ → List ℕ
read_bytes [] i num_pieces peer_bitfield = peer_bitfield
read_bytes (byte ∷ rest) i num_pieces peer_bitfield =
    read_bytes rest (i + 1) num_pieces (read_byte 8 0 i byte num_pieces peer_bitfield)

unfoldable pub get_peer_bitfield : List ℕ → ℕ → List ℕ
get_peer_bitfield payload num_pieces = read_bytes payload 0 num_pieces (replicate num_pieces 0)
