-- ===== src/Tests/Torrents.antt =====
-- src/parser.cpp, src/torrent_client.cpp and src/main.cpp with a torrent of two files.
use simpletorrent.Base.{
  ◌+◌, ◌-◌, ◌/◌, ◌≤◌, ℕ, ◌≡◌, refl, ◌⊎◌, true, none, some, List, [], ◌∷◌, ◌++◌, length, all_of,
  replicate, ok, fault, parse_exception, arith,
}
use simpletorrent.Types.{TorrentMetadata}
use simpletorrent.Util.Hex.{hex_decode, from_chars, hex_value}
use simpletorrent.Util.ByteOrder.{
  little, convert_bo, of_memory, of_le, to_memory, le_bytes, network_bytes,
}
use simpletorrent.Text.{
  to_string, decimal, starts_with, find_from, substr, substr_from, stoi, read_sign, skip_spaces,
  is_space, is_digit, leading_digits, digits_value,
}
use simpletorrent.Message.{slice}
use simpletorrent.Bencode.{
  pos, Data, integer, string, list, dict, end, item, empty, entry, dict_at, has_key, get_dict,
  get_list, get_string, get_integer,
}
use simpletorrent.Parser.{
  Library, parse_torrent_file, parse_torrent, rethrow, pieces_key, info_key, announce_key,
  length_key, files_key, path_key, name_key, piece_length_key, hashes_from, parse_piece_hash,
  calc_info_hash, strings, add_trackers, read_file, read_files, add_files, to_uint64,
}
use simpletorrent.Parser.Parsed.{IsParsed, parse_torrent_file-IsParsed}
use simpletorrent.PeerList.{conn_string, contains, insert, peer_at}
use simpletorrent.PeerList.Compact.{compact}
use simpletorrent.HttpTracker
use simpletorrent.HttpTracker.{
  Response, peers_key, request_parameters, send_request, parse_tracker_response, add_peer_data,
  add_compact,
}
use simpletorrent.Tracker
use simpletorrent.Tracker.{
  Tracker, Network, add_udp, add_http, split_conn_string, split_all, get_peers,
}
use simpletorrent.PieceManager.Init.{IsTorrent}
use simpletorrent.Program.{get_filename, generate_random_client_id}
use simpletorrent.Program.Names.{
  is_alphanumeric, get_filename-name, generate_random_client_id-alphanumeric,
}
use simpletorrent.Tests.Trackers.{digits, two_peers}

abbrev name : List ℕ
name = b'd' ∷ []

abbrev url : List ℕ
url = b'h' ∷ b't' ∷ b't' ∷ b'p' ∷ []

abbrev file_entry : ℕ → Data
file_entry n =
    dict (entry length_key (integer (pos n)) (entry path_key (list (item (string name) end)) empty))

abbrev info : Data
info = dict (
    entry files_key (list (item (file_entry 3) (item (file_entry 4) end))) (
      entry name_key (string name) (
        entry piece_length_key (integer (pos 4))
          (entry pieces_key (string (replicate 40 1)) empty))))

abbrev library : Library
library = record {
  decode = λ text. some (dict (entry announce_key (string url) (entry info_key info empty)));
  encode = λ d. [];
  sha1 = λ bytes. replicate 40 b'0';
}

parse_torrent_file-IsParsed_example :
    ((t : TorrentMetadata) × (parse_torrent_file library (some []) ≡ ok t) × IsParsed t)
    ⊎ (parse_torrent_file library (some []) ≡ fault parse_exception)
parse_torrent_file-IsParsed_example = parse_torrent_file-IsParsed library (some [])

abbrev torrent : TorrentMetadata
torrent = record {
  tracker_url_list = url ∷ [];
  piece_hashes = replicate 20 1 ∷ replicate 20 1 ∷ [];
  piece_length = 4;
  total_length = 7;
  output_path = name;
  info_hash = replicate 40 b'0';
  files =
      (record { file_length = 3; paths = name ∷ name ∷ [] })
      ∷ (record { file_length = 4; paths = name ∷ name ∷ [] })
      ∷ [];
}

torrent-parsed : parse_torrent_file library (some []) ≡ ok torrent
unfolding parse_torrent_file parse_torrent get_dict get_list get_string get_integer dict_at has_key
    parse_piece_hash hashes_from substr add_trackers calc_info_hash add_files read_files read_file
    strings to_uint64
torrent-parsed = refl

-- A file that could not be opened.
not_opened : parse_torrent_file library none ≡ fault parse_exception
unfolding parse_torrent_file parse_torrent rethrow
not_opened = refl

torrent-IsTorrent : IsTorrent torrent 16384
torrent-IsTorrent = record {
  piece_pos = omega arith;
  piece_small = omega arith;
  block_pos = omega arith;
  block_small = omega arith;
  few = omega arith;
}

-- A tracker over HTTP that knows two peers.
abbrev net : Network
net = record {
  address_text = digits;
  exchange = λ u. record {
    connect_transaction = 0;
    announce_transaction = 0;
    unset = [];
    resolves = true;
    connect_answer = none;
    announce_answer = none;
  };
  http_get = λ u ps. record { status_code = 200; text = [] };
  decode = λ text. some (dict (entry peers_key (string (compact two_peers)) empty));
}

abbrev asked : Tracker
asked = record {
  tracker_url_list = url ∷ [];
  info_hash = replicate 40 b'0';
  our_id = [];
  peer_set =
      (digits (10 ∷ 0 ∷ 0 ∷ 1 ∷ []) ++ (58 ∷ b'6' ∷ b'8' ∷ b'8' ∷ b'1' ∷ []))
      ∷ (digits (10 ∷ 0 ∷ 0 ∷ 2 ∷ []) ++ (58 ∷ b'8' ∷ b'0' ∷ []))
      ∷ [];
}

abbrev peers : List (List ℕ × ℕ)
peers = (digits (10 ∷ 0 ∷ 0 ∷ 1 ∷ []), 6881) ∷ (digits (10 ∷ 0 ∷ 0 ∷ 2 ∷ []), 80) ∷ []

tracker-asked :
    Tracker.add_peers net little (Tracker.init torrent.tracker_url_list torrent.info_hash [])
    ≡ ok asked
unfolding Tracker.add_peers Tracker.init add_udp add_http starts_with HttpTracker.add_peers
    send_request request_parameters hex_decode from_chars hex_value parse_tracker_response get_dict
    dict_at add_peer_data add_compact compact network_bytes peer_at slice convert_bo of_memory of_le
    to_memory le_bytes conn_string to_string decimal insert contains
tracker-asked = refl

peers-split : get_peers (λ s. s) asked ≡ ok peers
unfolding get_peers split_all split_conn_string find_from substr substr_from stoi read_sign
    skip_spaces is_space is_digit leading_digits digits_value
peers-split = refl

get_filename-name_example :
    (get_filename (name ++ (b'/' ∷ url)) ≡ ok url) × (get_filename url ≡ ok url)
get_filename-name_example = get_filename-name name url refl

-- A distribution that gives the middle of its range.
abbrev middle : ℕ → ℕ → ℕ → ℕ
middle a b i = a + (b - a) / 2

middle_bounds : (a b i : ℕ) → a ≤ b → (a ≤ middle a b i) × (middle a b i ≤ b)
middle_bounds a b i h = omega arith

generate_random_client_id-alphanumeric_example :
    (id : List ℕ) × (generate_random_client_id middle 20 ≡ ok id)
    × (length id ≡ 20)
    × (all_of is_alphanumeric id ≡ true)
generate_random_client_id-alphanumeric_example =
    generate_random_client_id-alphanumeric middle middle_bounds 20
