-- ===== src/Tests/Trackers.antt =====
-- src/udp_tracker.cpp, src/http_tracker.cpp and src/tracker.cpp with two peers.
use simpletorrent.Base.{
  ℕ, ◌+◌, ◌%◌, ◌≡◌, refl, ◌⊎◌, true, Option, none, some, List, [], ◌∷◌, ◌++◌, map, drop, replicate,
  ok, fault, thrown, undefined, arith,
}
use simpletorrent.Util.Hex.{hex_decode, from_chars, hex_value}
use simpletorrent.Util.ByteOrder.{
  little, big, network_bytes, convert_bo, of_memory, of_le, to_memory, le_bytes,
}
use simpletorrent.Bencode.{Data, string, dict, Entries, empty, entry, dict_at}
use simpletorrent.PeerList.{insert, peer_at}
use simpletorrent.PeerList.Compact.{Address, AllAddresses, compact, insert_all}
use simpletorrent.PeerList.Members.{Grows}
use simpletorrent.UdpTracker
use simpletorrent.UdpTracker.{
  UdpTracker, Exchange, extract_host, extract_port, announce_request, check_response, get,
  receive_peers, add_responses,
}
use simpletorrent.UdpTracker.Url.{url_of, extract-url}
use simpletorrent.UdpTracker.Packets.{announce_fields, join, announce_request-fields}
use simpletorrent.UdpTracker.Answers.{IsTracker, answers, add_peers-answers}
use simpletorrent.UdpTracker.Errors.{add_peers-Grows}
use simpletorrent.HttpTracker
use simpletorrent.HttpTracker.{
  HttpTracker, Response, peers_key, request_parameters, info_hash_key, peer_id_key, port_key,
  compact_key, numwant_key,
}
use simpletorrent.HttpTracker.Peers.{add_peers-compact}
use simpletorrent.HttpTracker.Errors.{add_peers-GrowsOrThrows}
use simpletorrent.Tracker.{Tracker, get_peers}
use simpletorrent.Tracker.Peers.{conn_info, conn_strings, get_peers-conn_strings}
use simpletorrent.Text.{to_string, decimal}
use simpletorrent.Message.{slice}

-- Addresses are written with a digit for each byte.
abbrev pub digits : List ℕ → List ℕ
digits bytes = map (λ b. 48 + b % 10) bytes

abbrev pub two_peers : List Address
two_peers =
    (record { ip_bytes = 10 ∷ 0 ∷ 0 ∷ 1 ∷ []; port = 6881 })
    ∷ (record { ip_bytes = 10 ∷ 0 ∷ 0 ∷ 2 ∷ []; port = 80 })
    ∷ []

two_peers-AllAddresses : AllAddresses two_peers
two_peers-AllAddresses = (refl, omega arith, (refl, omega arith, tt))

-- udp://a:80/x.
abbrev scheme : List ℕ
scheme = b'u' ∷ b'd' ∷ b'p' ∷ []

abbrev host : List ℕ
host = b'a' ∷ []

abbrev port : List ℕ
port = b'8' ∷ b'0' ∷ []

abbrev path : List ℕ
path = b'/' ∷ b'x' ∷ []

extract-url_example :
    (extract_host (url_of scheme host port path) ≡ ok host)
    × (extract_port (url_of scheme host port path) ≡ ok port)
extract-url_example = extract-url scheme host port path refl refl refl refl

abbrev info_hash : List ℕ
info_hash = replicate 40 b'0'

abbrev hash : List ℕ
hash = replicate 20 0

abbrev our_id : List ℕ
our_id = replicate 20 b'i'

abbrev unset : List ℕ
unset = replicate 98 255

info_hash-decoded : hex_decode info_hash ≡ ok hash
unfolding hex_decode from_chars hex_value
info_hash-decoded = refl

announce_request-fields_example :
    announce_request little 7 8 info_hash our_id unset
    ≡ ok (join (announce_fields 7 8 hash our_id) ++ drop 94 unset)
announce_request-fields_example =
    announce_request-fields little 7 8 info_hash our_id unset hash info_hash-decoded refl refl refl

abbrev tracker_known : IsTracker scheme host port path info_hash our_id hash
tracker_known = record {
  scheme_plain = refl;
  host_plain = refl;
  port_plain = refl;
  path_slash = refl;
  decoded = info_hash-decoded;
  hash_size = refl;
  id_size = refl;
}

abbrev udp_tracker : UdpTracker
udp_tracker = record {
  tracker_url = url_of scheme host port path;
  info_hash = info_hash;
  our_id = our_id;
}

add_peers-answers_example :
    UdpTracker.add_peers digits big (answers 1 2 3 unset (replicate 12 0) two_peers) udp_tracker []
    ≡ ok (insert_all digits two_peers [])
add_peers-answers_example =
    add_peers-answers digits big scheme host port path info_hash our_id hash tracker_known 1 2 3
      unset (replicate 12 0) two_peers [] (omega arith) (omega arith) (omega arith) refl refl
      (omega arith) two_peers-AllAddresses

-- A first answer that is too short.
abbrev silence : Exchange
silence = record {
  connect_transaction = 1;
  announce_transaction = 2;
  unset = unset;
  resolves = true;
  connect_answer = some (0 ∷ []);
  announce_answer = none;
}

add_peers-Grows_example :
    (after : List (List ℕ)) × (UdpTracker.add_peers digits little silence udp_tracker (host ∷ [])
      ≡ ok after)
    × Grows (host ∷ []) after
add_peers-Grows_example =
    add_peers-Grows digits little silence udp_tracker hash (host ∷ []) info_hash-decoded refl refl
      tt

-- An answer of eight bytes: the number of peers wraps around, and the loop runs out of the array.
short_answer :
    receive_peers digits big 2 (some (network_bytes 4 1 ++ network_bytes 4 2)) [] ≡ fault undefined
unfolding receive_peers check_response get slice network_bytes convert_bo of_memory of_le to_memory
    le_bytes add_responses peer_at insert
short_answer = refl

abbrev http_tracker : HttpTracker
http_tracker = record { tracker_url = host; info_hash = info_hash; our_id = our_id }

abbrev parameters : List (List ℕ × List ℕ)
parameters =
    (info_hash_key, hash)
    ∷ (peer_id_key, our_id)
    ∷ (port_key, b'8' ∷ b'0' ∷ b'8' ∷ b'0' ∷ [])
    ∷ (compact_key, b'1' ∷ [])
    ∷ (numwant_key, b'2' ∷ b'0' ∷ b'0' ∷ [])
    ∷ []

requested : request_parameters http_tracker ≡ ok parameters
unfolding request_parameters hex_decode from_chars hex_value to_string decimal
requested = refl

abbrev fine : List ℕ → List (List ℕ × List ℕ) → Response
fine url ps = record { status_code = 200; text = [] }

abbrev entries : Entries
entries = entry peers_key (string (compact two_peers)) empty

found : dict_at peers_key entries ≡ ok (string (compact two_peers))
unfolding dict_at
found = refl

add_peers-compact_example :
    HttpTracker.add_peers digits little fine (λ text. some (dict entries)) http_tracker []
    ≡ ok (insert_all digits two_peers [])
add_peers-compact_example =
    add_peers-compact digits little fine (λ text. some (dict entries)) http_tracker parameters
      entries two_peers [] requested refl refl found two_peers-AllAddresses

-- A text that cannot be decoded.
add_peers-GrowsOrThrows_example :
    ((after : List (List ℕ)) × (HttpTracker.add_peers digits little fine
          (λ text. none)
          http_tracker
          []
        ≡ ok after)
      × Grows [] after)
    ⊎ ((HttpTracker.add_peers digits little fine (λ text. none) http_tracker [] ≡ fault thrown)
        × ((fine host parameters).status_code ≡ 200)
        × (◌≡◌ {A = Option Data} none none))
add_peers-GrowsOrThrows_example =
    add_peers-GrowsOrThrows digits little fine (λ text. none) http_tracker parameters [] requested
      (λ d h. ground arith)

abbrev tracker : Tracker
tracker = record {
  tracker_url_list = [];
  info_hash = info_hash;
  our_id = our_id;
  peer_set = conn_strings digits two_peers;
}

get_peers-conn_strings_example : get_peers (λ s. s) tracker ≡ ok (map (conn_info digits) two_peers)
get_peers-conn_strings_example =
    get_peers-conn_strings digits (λ s. s) tracker two_peers refl
      ((refl, omega arith), ((refl, omega arith), tt))
