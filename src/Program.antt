-- ===== src/Program.antt =====
-- src/main.cpp and src/torrent_client.cpp: what is prepared before the download starts.
pub mod Names
use simpletorrent.Base.{
  ℕ, zero, suc, ◌+◌, ◌-◌, ◌%◌, ◌^◌, Bool, true, false, Option, none, some, List, [], ◌∷◌, ◌++◌,
  length, drop, get_elem?, ◌==◌, if◌then◌else◌, Result, ok, ◌>>=◌, or_fault, undefined,
}
use simpletorrent.Types.{TorrentMetadata}
use simpletorrent.Text.{substr_from}
use simpletorrent.Util.ByteOrder.{Endian}
use simpletorrent.Parser.{Library, parse_torrent_file}
use simpletorrent.Tracker
use simpletorrent.Tracker.{Tracker, Network, get_peers}
use simpletorrent.PieceManager
use simpletorrent.PieceManager.{PieceManager}
use simpletorrent.PeerManager
use simpletorrent.PeerManager.{PeerManager}
use simpletorrent.Statistics
use simpletorrent.Statistics.{Statistics}

-- `find_last_of` one character, in a text that begins at position `i`.
unfoldable pub find_last : ℕ → List ℕ → ℕ → Option ℕ
find_last c [] i = none
find_last c (x ∷ s) i = elim (find_last c s (i + 1)) [
  | some pos ↦ some pos
  | none ↦ if x == c then some i else none
]

unfoldable pub get_filename : List ℕ → Result (List ℕ)
get_filename torrent_file = elim (find_last b'/' torrent_file 0) [
  | some pos ↦ substr_from (pos + 1) torrent_file
  | none ↦ ok torrent_file
]

-- "0123456789ABCDEFGHIJKLMNOPQRSTUVWXYZabcdefghijklmnopqrstuvwxyz", from the code of the first of
-- each row.
abbrev pub row : ℕ → ℕ → List ℕ
row first zero = []
row first (suc n) = first ∷ row (first + 1) n

abbrev pub alphanum : List ℕ
alphanum = row 48 10 ++ (row 65 26 ++ row 97 26)

-- The loop of `generate_random_client_id`, `length` characters from draw `i` on. `dist a b i` is what
-- the `i`-th draw from the uniform distribution on `a` to `b` gives.
unfoldable pub client_id_from : (ℕ → ℕ → ℕ → ℕ) → ℕ → ℕ → Result (List ℕ)
client_id_from dist i zero = ok []
client_id_from dist i (suc n) = do
  c ← or_fault (get_elem? alphanum (dist 0 (length alphanum - 1) i)) undefined
  rest ← client_id_from dist (i + 1) n
  ok (c ∷ rest)

unfoldable pub generate_random_client_id : (ℕ → ℕ → ℕ → ℕ) → ℕ → Result (List ℕ)
generate_random_client_id dist n = client_id_from dist 0 n

-- `start_download` up to the call of `peer_manager.start()`: what it hands to the peers, and the
-- counters. `order` is the order in which the set of peers is iterated.
unfoldable pub prepare :
    Library
    → Network
    → Endian
    → (List (List ℕ) → List (List ℕ))
    → List ℕ
    → Option (List ℕ)
    → Statistics
    → Result (TorrentMetadata × PeerManager × Statistics)
prepare library net e order our_id file stats = do
  metadata ← parse_torrent_file library file
  tracker ←
      Tracker.add_peers net e (Tracker.init metadata.tracker_url_list metadata.info_hash our_id)
  peer_conn_info ← get_peers order tracker
  let piece_manager = PieceManager.init metadata 16384 32
  ok (
    metadata,
    PeerManager.init piece_manager (length peer_conn_info),
    Statistics.init (length metadata.piece_hashes) metadata.piece_length metadata.total_length
        stats,
  )
