-- ===== src/Parser.antt =====
-- src/parser.cpp and include/simpletorrent/Parser.h: what a torrent file says.
pub mod Hashes
pub mod Parsed
use simpletorrent.Base.{
  ℕ, zero, suc, ◌+◌, ◌-◌, ◌%◌, ◌^◌, Bool, true, false, Option, none, some, List, [], ◌∷◌, ◌++◌,
  length, ltb, ◌==◌, if◌then◌else◌, Result, ok, fault, Fault, parse_exception, thrown, diverged,
  is_exception, ◌>>=◌, or_fault, guard, not,
}
use simpletorrent.Types.{FileMetadata, TorrentMetadata}
use simpletorrent.Text.{substr}
use simpletorrent.Bencode.{
  ℤ, pos, negsuc, Data, Items, end, item, Entries, get_integer, get_string, get_list, get_dict,
  dict_at, has_key,
}

-- What other libraries do: `bencode::decode`, which throws on a text that is none, `bencode::encode`,
-- and the digest `SHA1`.
pub record Library : Type 0 where
  pub decode : List ℕ → Option Data
  pub encode : Data → List ℕ
  pub sha1 : List ℕ → List ℕ

-- The keys of the dictionaries.
abbrev pub pieces_key : List ℕ
pieces_key = b'p' ∷ b'i' ∷ b'e' ∷ b'c' ∷ b'e' ∷ b's' ∷ []

abbrev pub info_key : List ℕ
info_key = b'i' ∷ b'n' ∷ b'f' ∷ b'o' ∷ []

abbrev pub announce_key : List ℕ
announce_key = b'a' ∷ b'n' ∷ b'n' ∷ b'o' ∷ b'u' ∷ b'n' ∷ b'c' ∷ b'e' ∷ []

abbrev pub announce_list_key : List ℕ
announce_list_key = announce_key ++ (b'-' ∷ b'l' ∷ b'i' ∷ b's' ∷ b't' ∷ [])

abbrev pub length_key : List ℕ
length_key = b'l' ∷ b'e' ∷ b'n' ∷ b'g' ∷ b't' ∷ b'h' ∷ []

abbrev pub files_key : List ℕ
files_key = b'f' ∷ b'i' ∷ b'l' ∷ b'e' ∷ b's' ∷ []

abbrev pub path_key : List ℕ
path_key = b'p' ∷ b'a' ∷ b't' ∷ b'h' ∷ []

abbrev pub name_key : List ℕ
name_key = b'n' ∷ b'a' ∷ b'm' ∷ b'e' ∷ []

abbrev pub piece_length_key : List ℕ
piece_length_key = b'p' ∷ b'i' ∷ b'e' ∷ b'c' ∷ b'e' ∷ b' ' ∷ length_key

-- A `long long` as a `uint64_t`.
unfoldable pub to_uint64 : ℤ → ℕ
to_uint64 (pos n) = n % 2 ^ 64
to_uint64 (negsuc n) = (2 ^ 64 - 1 - n) % 2 ^ 64

-- The loop of `parse_piece_hash` from `i` on.
unfoldable pub hashes_from : ℕ → ℕ → List ℕ → Result (List (List ℕ))
hashes_from zero i pieces = if ltb i (length pieces) then fault diverged else ok []
hashes_from (suc fuel) i pieces =
    if ltb i (length pieces)
    then (do hash ← substr i 20 pieces; rest ← hashes_from fuel (i + 20) pieces; ok (hash ∷ rest))
    else ok []

unfoldable pub parse_piece_hash : Entries → Result (List (List ℕ))
parse_piece_hash info_dict = do
  value ← dict_at pieces_key info_dict
  pieces ← get_string value
  hashes_from (length pieces) 0 pieces

unfoldable pub calc_info_hash : Library → Entries → Result (List ℕ)
calc_info_hash library data_dict = do
  info ← dict_at info_key data_dict
  ok (library.sha1 (library.encode info))

-- The strings of a list: the inner loop of `add_trackers`, and the one over a path.
unfoldable pub strings : Items → Result (List (List ℕ))
strings end = ok []
strings (item value rest) = do s ← get_string value; more ← strings rest; ok (s ∷ more)

unfoldable pub tiers : Items → Result (List (List ℕ))
tiers end = ok []
tiers (item value rest) = do
  tier ← get_list value
  urls ← strings tier
  more ← tiers rest
  ok (urls ++ more)

-- What `add_trackers` appends to the empty list of trackers.
unfoldable pub add_trackers : Entries → Result (List (List ℕ))
add_trackers torrent_data_dict =
    if has_key announce_list_key torrent_data_dict
    then (do
      value ← dict_at announce_list_key torrent_data_dict
      announce_list ← get_list value
      tiers announce_list)
    else (do
      value ← dict_at announce_key torrent_data_dict
      announce_url ← get_string value
      ok (announce_url ∷ []))

-- The body of the loop of `add_files`.
unfoldable pub read_file : List ℕ → Data → Result FileMetadata
read_file output_path f = do
  f_dict ← get_dict f
  length_value ← dict_at length_key f_dict
  file_length ← get_integer length_value
  path_value ← dict_at path_key f_dict
  p_list ← get_list path_value
  paths ← strings p_list
  ok (record { file_length = to_uint64 file_length; paths = output_path ∷ paths })

-- The loop, with the total length so far.
unfoldable pub read_files : List ℕ → Items → ℕ → Result (ℕ × List FileMetadata)
read_files output_path end total_length = ok (total_length, [])
read_files output_path (item f rest) total_length = do
  file ← read_file output_path f
  (total, files) ← read_files output_path rest ((total_length + file.file_length) % 2 ^ 64)
  ok (total, file ∷ files)

-- The total length and the files; a single file is not listed.
unfoldable pub add_files : List ℕ → Entries → Result (ℕ × List FileMetadata)
add_files output_path info_dict =
    if has_key length_key info_dict
    then (do
      value ← dict_at length_key info_dict
      total_length ← get_integer value
      ok (to_uint64 total_length, []))
    else (do
      value ← dict_at files_key info_dict
      file_list ← get_list value
      read_files output_path file_list 0)

-- The body of the `try` block of `parse_torrent_file`, for a file that could be opened or not.
unfoldable pub parse_torrent : Library → Option (List ℕ) → Result TorrentMetadata
parse_torrent library file = do
  input ← or_fault file parse_exception
  decoded ← or_fault (library.decode input) thrown
  torrent_data_dict ← get_dict decoded
  info ← dict_at info_key torrent_data_dict
  info_dict ← get_dict info
  piece_hashes ← parse_piece_hash info_dict
  tracker_url_list ← add_trackers torrent_data_dict
  checked ← guard (not (length tracker_url_list == 0)) parse_exception
  name ← dict_at name_key info_dict
  output_path ← get_string name
  info_hash ← calc_info_hash library torrent_data_dict
  piece_length_value ← dict_at piece_length_key info_dict
  piece_length ← get_integer piece_length_value
  (total_length, files) ← add_files output_path info_dict
  ok (record {
    tracker_url_list = tracker_url_list;
    piece_hashes = piece_hashes;
    piece_length = to_uint64 piece_length;
    total_length = total_length;
    output_path = output_path;
    info_hash = info_hash;
    files = files;
  })

-- The `catch (const std::exception&)` of `parse_torrent_file`: every exception becomes a
-- `ParseException`.
unfoldable pub rethrow : Fault → Fault
rethrow bad = if is_exception bad then parse_exception else bad

unfoldable pub parse_torrent_file : Library → Option (List ℕ) → Result TorrentMetadata
parse_torrent_file library file = elim (parse_torrent library file) [
  | ok metadata ↦ ok metadata
  | fault bad ↦ fault (rethrow bad)
]
