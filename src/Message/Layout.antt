-- ===== src/Message/Layout.antt =====
-- Where the numbers of a message of include/simpletorrent/MessageUtil.h stand, and that they are
-- read back.
use simpletorrent.Base.{
  ℕ, ◌+◌, ◌%◌, ◌^◌, ◌<◌, ◌≡◌, refl, ap, List, ◌∷◌, ◌++◌, length, take, drop, ok,
}
use native.Mathlib.Nat.{mod-eq_of_lt}
use simpletorrent.Types.{BlockRequest}
use simpletorrent.Util.ByteOrder.{Endian, network_bytes, to_memory-convert_bo, convert_bo-of_memory}
use simpletorrent.Message.{
  MessageType, request, type_code, slice, construct_message, construct_request_message,
  get_header_length, retrieve_piece_index_and_block_offset,
}

-- On a machine of either byte order, a message begins with its length in network order.
construct_message-network :
    (e : Endian) (t : MessageType) (payload : List ℕ)
    → construct_message e t payload
      ≡ network_bytes 4 ((length payload + 1) % 2 ^ 32) ++ (type_code t ∷ payload)
unfolding construct_message
construct_message-network e t payload =
    ap (λ (h : List ℕ). h ++ (type_code t ∷ payload))
      (to_memory-convert_bo e 4 ((length payload + 1) % 2 ^ 32))

-- On a machine of either byte order a request is the length 13, the code 6 and the three numbers in
-- network order.
pub construct_request_message-network :
    (e : Endian) (r : BlockRequest)
    → construct_request_message e r
      ≡ network_bytes 4 13
        ++ (6
            ∷ (network_bytes 4 r.piece_index
                ++ (network_bytes 4 r.block_offset ++ network_bytes 4 r.block_length)))
unfolding construct_request_message network_bytes type_code
construct_request_message-network e r =
    rw
      (
        to_memory-convert_bo e 4 r.piece_index,
        to_memory-convert_bo e 4 r.block_offset,
        to_memory-convert_bo e 4 r.block_length,
      )
      (construct_message-network e request _)

-- The receiver of a message of less than 2^32 bytes, whatever its byte order and that of the sender,
-- reads from the first four bytes the length of what follows.
pub get_header_length-construct_message :
    (sender receiver : Endian) (t : MessageType) (payload : List ℕ)
    → length payload + 1 < 2 ^ 32
    → get_header_length receiver (take 4 (construct_message sender t payload))
      ≡ ok (length payload + 1)
unfolding get_header_length network_bytes slice
get_header_length-construct_message sender receiver t payload h =
    let n = length payload + 1 in
    let same : n % 2 ^ 32 ≡ n = mod-eq_of_lt h in
    rw (construct_message-network sender t payload, same)
      (ap ok (convert_bo-of_memory receiver 4 n h))

-- The receiver of a request, whatever its byte order and that of the sender, reads from what follows
-- the code the piece index and the block offset, if they are below 2^32.
pub retrieve-construct_request_message :
    (sender receiver : Endian) (r : BlockRequest)
    → r.piece_index < 2 ^ 32
    → r.block_offset < 2 ^ 32
    → retrieve_piece_index_and_block_offset receiver (drop 5 (construct_request_message sender r))
      ≡ ok (r.piece_index, r.block_offset)
unfolding retrieve_piece_index_and_block_offset network_bytes slice
retrieve-construct_request_message sender receiver r h k =
    rw
      (
        construct_request_message-network sender r,
        convert_bo-of_memory receiver 4 r.piece_index h,
        convert_bo-of_memory receiver 4 r.block_offset k,
      )
      refl
