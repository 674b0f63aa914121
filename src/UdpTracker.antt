-- ===== src/UdpTracker.antt =====
-- src/udp_tracker.cpp and include/simpletorrent/UdpTracker.h: a tracker that is asked in datagrams.
pub mod Url
pub mod Packets
pub mod Peers
pub mod Errors
pub mod Answers
use simpletorrent.Base.{
  ℕ, zero, suc, ◌+◌, ◌-◌, ◌*◌, ◌/◌, ◌%◌, ◌^◌, min, Bool, true, false, ◌&&◌, Option, none, some,
  List, [], ◌∷◌, ◌++◌, length, take, drop, replicate, resize, overwrite, ◌==◌, if◌then◌else◌,
  Result, ok, fault, thrown, ◌>>=◌, or_fault, or_else, guard,
}
use simpletorrent.Text.{find_from, find_text, substr, substr_from}
use simpletorrent.Util.Hex.{hex_decode}
use simpletorrent.Util.ByteOrder.{Endian, convert_bo, to_memory, of_memory}
use simpletorrent.Message.{slice}
use simpletorrent.PeerList.{peer_at, insert}

-- Without the socket; the set of peers is an argument of what uses it.
pub record UdpTracker : Type 0 where
  pub tracker_url : List ℕ
  pub info_hash : List ℕ
  pub our_id : List ℕ

-- "://".
abbrev pub scheme_end : List ℕ
scheme_end = 58 ∷ 47 ∷ 47 ∷ []

-- Up to `host_end`, or to the end where there is none.
unfoldable pub up_to : ℕ → Option ℕ → List ℕ → Result (List ℕ)
up_to start none url = substr_from start url
up_to start (some end) url = substr start (end - start) url

unfoldable pub extract_host : List ℕ → Result (List ℕ)
extract_host announce_url = do
  found ← or_fault (find_text scheme_end announce_url 0) thrown
  let host_start = found + 3
  let colon = find_from 58 host_start announce_url
  let slash = find_from 47 host_start announce_url
  up_to host_start (elim colon [ none ↦ slash | some host_end ↦ some host_end ]) announce_url

-- Where "://" is missing, `npos + 3` wraps around to 2.
unfoldable pub extract_port : List ℕ → Result (List ℕ)
extract_port announce_url = do
  let from : ℕ = elim (find_text scheme_end announce_url 0) [ none ↦ 2 | some found ↦ found + 3 ]
  colon ← or_fault (find_from 58 from announce_url) thrown
  up_to (colon + 1) (find_from 47 (colon + 1) announce_url) announce_url

abbrev pub initial_connection_id : ℕ
initial_connection_id = 4497486125440

-- The integer of `n` bytes is copied to its place in the packet.
unfoldable pub put : Endian → ℕ → ℕ → ℕ → List ℕ → List ℕ
put e n pos x packet = overwrite packet pos (to_memory e n (convert_bo e n x))

-- The three copies of `send_connect_request` fill all of the array.
unfoldable pub connect_request : Endian → ℕ → List ℕ
connect_request e transaction_id =
    put e 4 12 transaction_id (put e 4 8 0 (put e 8 0 initial_connection_id (replicate 16 0)))

-- An integer of `n` bytes at a place of the response.
unfoldable pub get : Endian → ℕ → ℕ → List ℕ → Result ℕ
get e n pos response = do bytes ← slice pos n response; ok (convert_bo e n (of_memory e bytes))

-- The action and the transaction of a response are those of the request.
unfoldable pub check_response : Endian → ℕ → ℕ → List ℕ → Result (Unit {0})
check_response e action transaction_id response = do
  received_action ← get e 4 0 response
  received_transaction_id ← get e 4 4 response
  if (received_action == action) && (received_transaction_id == transaction_id)
      then ok tt
      else fault thrown

-- The rest of `send_connect_request`: no datagram is an error or a timeout; a short one leaves the
-- rest of the array as it was, here zero.
unfoldable pub receive_connection_id : Endian → ℕ → Option (List ℕ) → Result ℕ
receive_connection_id e transaction_id datagram = do
  bytes ← or_fault datagram thrown
  let connect_response = resize bytes 16 0
  checked ← check_response e 0 transaction_id connect_response
  get e 8 8 connect_response

-- The copies of `send_announce_request`, into an array that was not set before. The hash and the id
-- are copied as 20 bytes, whatever their length.
unfoldable pub announce_request : Endian → ℕ → ℕ → List ℕ → List ℕ → List ℕ → Result (List ℕ)
announce_request e connection_id transaction_id info_hash our_id unset = do
  binary_info_hash ← hex_decode info_hash
  hash ← slice 0 20 binary_info_hash
  id ← slice 0 20 our_id
  let ids = put e 4 12 transaction_id (put e 4 8 1 (put e 8 0 connection_id unset))
  let named = overwrite (overwrite ids 16 hash) 36 id
  let zero_64 = to_memory e 8 0
  let zero_32 = to_memory e 4 0
  let counted = overwrite (overwrite (overwrite named 56 zero_64) 64 zero_64) 72 zero_64
  let zeroed = overwrite (overwrite counted 80 zero_32) 84 zero_32
  ok (put e 2 92 80 (put e 4 88 200 zeroed))

-- The loop over the peers of a response, from peer `i` on with `count` to go.
unfoldable pub add_responses :
    (List ℕ → List ℕ) → Endian → ℕ → ℕ → List ℕ → List (List ℕ) → Result (List (List ℕ))
add_responses address_text e zero i announce_response peer_set = ok peer_set
add_responses address_text e (suc count) i announce_response peer_set = do
  conn_str ← peer_at address_text e (20 + i * 6) announce_response
  add_responses address_text e count (i + 1) announce_response (insert conn_str peer_set)

-- The rest of `send_announce_request`. The number of peers is computed in 64 bits without a sign.
unfoldable pub receive_peers :
    (List ℕ → List ℕ) → Endian → ℕ → Option (List ℕ) → List (List ℕ) → Result (List (List ℕ))
receive_peers address_text e transaction_id datagram peer_set = do
  bytes ← or_fault datagram thrown
  let announce_response = resize bytes 2048 0
  let bytes_received = min (length bytes) 2048
  checked ← check_response e 1 transaction_id announce_response
  let num_peers = (bytes_received + 2 ^ 64 - 20) % 2 ^ 64 / 6
  add_responses address_text e num_peers 0 announce_response peer_set

-- What comes from outside in one run: the numbers drawn, what was in the array before, whether the
-- host is resolved, and the datagrams.
pub record Exchange : Type 0 where
  pub connect_transaction : ℕ
  pub announce_transaction : ℕ
  pub unset : List ℕ
  pub resolves : Bool
  pub connect_answer : Option (List ℕ)
  pub announce_answer : Option (List ℕ)

-- The body of the `try` block of `add_peers`.
unfoldable pub contact :
    (List ℕ → List ℕ) → Endian → Exchange → UdpTracker → List (List ℕ) → Result (List (List ℕ))
contact address_text e x t peer_set = do
  host ← extract_host t.tracker_url
  port ← extract_port t.tracker_url
  resolved ← guard x.resolves thrown
  connection_id ← receive_connection_id e x.connect_transaction x.connect_answer
  request ← announce_request e connection_id x.announce_transaction t.info_hash t.our_id x.unset
  receive_peers address_text e x.announce_transaction x.announce_answer peer_set

-- Nothing is inserted before an exception.
unfoldable pub add_peers :
    (List ℕ → List ℕ) → Endian → Exchange → UdpTracker → List (List ℕ) → Result (List (List ℕ))
add_peers address_text e x t peer_set = or_else (contact address_text e x t peer_set) peer_set
