-- ===== src/HttpTracker.antt =====
-- src/http_tracker.cpp and include/simpletorrent/HttpTracker.h: a tracker that is asked over HTTP.
pub mod Peers
pub mod Errors
use simpletorrent.Base.{
  ℕ, zero, suc, ◌+◌, Option, none, some, List, [], ◌∷◌, ◌++◌, length, ltb, ◌==◌, if◌then◌else◌,
  Result, ok, fault, thrown, diverged, ◌>>=◌, or_fault, or_else,
}
use simpletorrent.Text.{to_string}
use simpletorrent.Util.Hex.{hex_decode}
use simpletorrent.Util.ByteOrder.{Endian}
use simpletorrent.Bencode.{
  ℤ, pos, negsuc, Data, integer, string, list, dict, Items, end, item, get_integer, get_string,
  get_dict, dict_at,
}
use simpletorrent.PeerList.{peer_at, insert}

-- Without the set of peers, which is an argument of what uses it.
pub record HttpTracker : Type 0 where
  pub tracker_url : List ℕ
  pub info_hash : List ℕ
  pub our_id : List ℕ

-- What is used of `cpr::Response`.
pub record Response : Type 0 where
  pub status_code : ℕ
  pub text : List ℕ

-- The keys of the parameters and of the dictionaries.
abbrev pub info_hash_key : List ℕ
info_hash_key = b'i' ∷ b'n' ∷ b'f' ∷ b'o' ∷ b'_' ∷ b'h' ∷ b'a' ∷ b's' ∷ b'h' ∷ []

abbrev pub peer_id_key : List ℕ
peer_id_key = b'p' ∷ b'e' ∷ b'e' ∷ b'r' ∷ b'_' ∷ b'i' ∷ b'd' ∷ []

abbrev pub port_key : List ℕ
port_key = b'p' ∷ b'o' ∷ b'r' ∷ b't' ∷ []

abbrev pub compact_key : List ℕ
compact_key = b'c' ∷ b'o' ∷ b'm' ∷ b'p' ∷ b'a' ∷ b'c' ∷ b't' ∷ []

abbrev pub numwant_key : List ℕ
numwant_key = b'n' ∷ b'u' ∷ b'm' ∷ b'w' ∷ b'a' ∷ b'n' ∷ b't' ∷ []

abbrev pub peers_key : List ℕ
peers_key = b'p' ∷ b'e' ∷ b'e' ∷ b'r' ∷ b's' ∷ []

abbrev pub ip_key : List ℕ
ip_key = b'i' ∷ b'p' ∷ []

unfoldable pub request_parameters : HttpTracker → Result (List (List ℕ × List ℕ))
request_parameters t = do
  binary_info_hash ← hex_decode t.info_hash
  ok (
      (info_hash_key, binary_info_hash)
      ∷ (peer_id_key, t.our_id)
      ∷ (port_key, to_string 8080)
      ∷ (compact_key, b'1' ∷ [])
      ∷ (numwant_key, b'2' ∷ b'0' ∷ b'0' ∷ [])
      ∷ [])

-- `http_get` is `cpr::Get` of an address with parameters, and `decode` is `bencode::decode`.
unfoldable pub send_request :
    (List ℕ → List (List ℕ × List ℕ) → Response)
    → (List ℕ → Option Data)
    → HttpTracker
    → Result (Option Data)
send_request http_get decode t = do
  parameters ← request_parameters t
  let response = http_get t.tracker_url parameters
  if response.status_code == 200
      then (do answer ← or_fault (decode response.text) thrown; ok (some answer))
      else ok none

-- `std::to_string` of a `long long`.
unfoldable pub long_to_string : ℤ → List ℕ
long_to_string (pos n) = to_string n
long_to_string (negsuc n) = b'-' ∷ to_string (n + 1)

-- A peer in list form as a text.
unfoldable pub listed_peer : Data → Result (List ℕ)
listed_peer peer = do
  peer_map ← get_dict peer
  ip_value ← dict_at ip_key peer_map
  ip ← get_string ip_value
  port_value ← dict_at port_key peer_map
  port ← get_integer port_value
  ok (ip ++ (58 ∷ long_to_string port))

-- The loop over the list: the set that it leaves, and how it ends. An exception leaves the peers that
-- were inserted before it.
unfoldable pub add_listed : Items → List (List ℕ) → List (List ℕ) × Result (Unit {0})
add_listed end peer_set = (peer_set, ok tt)
add_listed (item peer rest) peer_set = elim (listed_peer peer) [
  | fault bad ↦ (peer_set, fault bad)
  | ok conn_str ↦ add_listed rest (insert conn_str peer_set)
]

-- The loop over the string from `i` on. Behind the last character stands a terminator.
unfoldable pub add_compact :
    (List ℕ → List ℕ) → Endian → ℕ → ℕ → List ℕ → List (List ℕ) → List (List ℕ) × Result (Unit {0})
add_compact address_text e zero i peers_string peer_set =
    (peer_set, (if ltb i (length peers_string) then fault diverged else ok tt))
add_compact address_text e (suc fuel) i peers_string peer_set =
    if ltb i (length peers_string)
    then elim (peer_at address_text e i (peers_string ++ (0 ∷ []))) [
      | fault bad ↦ (peer_set, fault bad)
      | ok conn_str ↦
          add_compact address_text e fuel (i + 6) peers_string (insert conn_str peer_set)
    ]
    else (peer_set, ok tt)

-- The three cases for what stands under the key of the peers.
unfoldable pub add_peer_data :
    (List ℕ → List ℕ) → Endian → Data → List (List ℕ) → List (List ℕ) × Result (Unit {0})
add_peer_data address_text e (list peer_list) peer_set = add_listed peer_list peer_set
add_peer_data address_text e (string peers_string) peer_set =
    add_compact address_text e (length peers_string) 0 peers_string peer_set
add_peer_data address_text e (integer n) peer_set = (peer_set, ok tt)
add_peer_data address_text e (dict entries) peer_set = (peer_set, ok tt)

unfoldable pub parse_tracker_response :
    (List ℕ → List ℕ) → Endian → Data → List (List ℕ) → List (List ℕ) × Result (Unit {0})
parse_tracker_response address_text e response peer_set =
    elim (do response_dict ← get_dict response; dict_at peers_key response_dict) [
      | fault bad ↦ (peer_set, fault bad)
      | ok peer_data ↦ add_peer_data address_text e peer_data peer_set
    ]

-- Only what `parse_tracker_response` throws is caught.
unfoldable pub add_peers :
    (List ℕ → List ℕ)
    → Endian
    → (List ℕ → List (List ℕ × List ℕ) → Response)
    → (List ℕ → Option Data)
    → HttpTracker
    → List (List ℕ)
    → Result (List (List ℕ))
add_peers address_text e http_get decode t peer_set = do
  response ← send_request http_get decode t
  elim response [
    | none ↦ ok peer_set
    | some answer ↦
        let (after, end_) = parse_tracker_response address_text e answer peer_set in
        or_else end_ tt >>= λ done. ok after
  ]
