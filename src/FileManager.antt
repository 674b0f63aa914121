-- ===== src/FileManager.antt =====
-- src/file_manager.cpp and include/simpletorrent/FileManager.h: the queue of finished pieces, and
-- the writer thread that spreads each of them over the files of the torrent.
pub mod Layout
pub mod Write
pub mod Fill
pub mod Writer
pub mod Lengths
pub mod Places
pub mod Full
use simpletorrent.Base.{
  ℕ, zero, suc, ◌+◌, ◌-◌, ◌%◌, ◌^◌, ◌≤◌, ◌<◌, ◌≡◌, min, Bool, true, false, Option, none, some, List,
  [], ◌∷◌, ◌++◌, map, length, get_elem?, set, take, drop, leb, ◌==◌, ◌||◌, if◌then◌else◌, Result,
  ok, fault, ◌>>=◌, or_fault, undefined, replicate, resize,
}
use simpletorrent.Types.{TorrentMetadata, FileMetadata}

-- `write_queue` is what has been enqueued, oldest first.
pub record FileManager : Type 0 where
  pub num_pieces : ℕ
  pub file_lengths : List ℕ
  pub write_queue : List (ℕ × List ℕ)

unfoldable pub data_file_lengths : TorrentMetadata → List ℕ
data_file_lengths t = elim t.files [
  | [] ↦ t.total_length ∷ []
  | f ∷ fs ↦ map (λ (g : FileMetadata). g.file_length) (f ∷ fs)
]

-- A stream that is opened with `ios::out`, and neither `ios::in` nor `ios::app`, leaves nothing of what
-- the file held.
unfoldable pub open_for_writing : List ℕ → List ℕ
open_for_writing content = []

-- What `create_and_open_file` leaves of a file that held `before`: it is created, resized, and opened
-- again.
unfoldable pub create_and_open_file : List ℕ → ℕ → List ℕ
create_and_open_file before total_length =
    open_for_writing (resize (open_for_writing before) total_length 0)

-- The files that the constructor creates, each at a path of its own.
unfoldable pub open_files : TorrentMetadata → List (List ℕ)
open_files t = map (create_and_open_file []) (data_file_lengths t)

-- The rest of the constructor.
unfoldable pub init : TorrentMetadata → FileManager
init t = record {
  num_pieces = length t.piece_hashes % 2 ^ 32;
  file_lengths = data_file_lengths t;
  write_queue = [];
}

-- The element type of `write_queue_` is a pair with a `uint32_t`, so the `size_t` offset is cut.
unfoldable pub save_piece : ℕ → List ℕ → FileManager → FileManager
save_piece file_offset bytes fm = record fm {
  write_queue = fm.write_queue ++ ((file_offset % 2 ^ 32, bytes) ∷ []);
}

-- The first loop of `calculate_files_write_info`, at file `current` whose length heads the list.
-- `file_lengths_[current_file]` behind the last file is undefined.
unfoldable pub start_file : List ℕ → ℕ → ℕ → Result (ℕ × ℕ)
start_file [] current offset = fault undefined
start_file (l ∷ ls) current offset =
    let next = start_file ls (current + 1) (offset - l) in
    if leb l offset then next else ok (current, offset)

-- The second loop: file, offset in the file, number of bytes.
unfoldable pub split_bytes : List ℕ → ℕ → ℕ → ℕ → Result (List (ℕ × ℕ × ℕ))
split_bytes [] current file_offset remaining = if remaining == 0 then ok [] else fault undefined
split_bytes (l ∷ ls) current file_offset remaining =
    let bytes_to_write = min remaining (l - file_offset) in
    let rest = split_bytes ls (current + 1) 0 (remaining - bytes_to_write) in
    if remaining == 0
    then ok []
    else do info ← rest; ok ((current, file_offset, bytes_to_write) ∷ info)

unfoldable pub calculate_files_write_info : List ℕ → ℕ → ℕ → Result (List (ℕ × ℕ × ℕ))
calculate_files_write_info lengths offset piece_length = do
  (current, file_offset) ← start_file lengths 0 offset
  split_bytes (drop current lengths) current file_offset piece_length

-- `seekp(offset)` and `write` on a stream: what lies behind the end is filled with zeros.
unfoldable pub stream_write : List ℕ → ℕ → List ℕ → List ℕ
stream_write [] zero ys = ys
stream_write [] (suc i) ys = 0 ∷ stream_write [] i ys
stream_write (x ∷ xs) zero [] = x ∷ xs
stream_write (x ∷ xs) zero (y ∷ ys) = y ∷ stream_write xs zero ys
stream_write (x ∷ xs) (suc i) ys = x ∷ stream_write xs i ys

-- The loop over `file_write_vec`; the list of bytes is the rest of the piece.
unfoldable pub write_parts : List (ℕ × ℕ × ℕ) → List ℕ → List (List ℕ) → Result (List (List ℕ))
write_parts [] bytes disk = ok disk
write_parts ((file, offset, n) ∷ parts) bytes disk = do
  content ← or_fault (get_elem? disk file) undefined
  write_parts parts (drop n bytes) (set disk file (stream_write content offset (take n bytes)))

-- What the writer does with a value that it dequeues. The first branch of the code is taken only
-- with no open file, and then reads `open_files_[0]`.
unfoldable pub write_value : List ℕ → ℕ × List ℕ → List (List ℕ) → Result (List (List ℕ))
write_value lengths (offset, bytes) disk = if length disk == 0 then fault undefined else do
  info ← calculate_files_write_info lengths offset (length bytes)
  write_parts info bytes disk

-- One turn of the writer's loop: whether it finds the download stopped, and what `try_dequeue` gives.
pub record Turn : Type 0 where
  pub stopped : Bool
  pub dequeued : Option (ℕ × List ℕ)

-- `file_writer`, with the files that it leaves, and whether it has ended by itself or has used up the
-- turns.
unfoldable pub file_writer :
    FileManager → List Turn → ℕ → List (List ℕ) → Result (List (List ℕ) × Bool)
file_writer fm [] write_count disk = ok (disk, false)
file_writer fm (t ∷ turns) write_count disk =
    let idle = file_writer fm turns write_count disk in
    let wrote = λ (d : List (List ℕ)). file_writer fm turns ((write_count + 1) % 2 ^ 32) d in
    if t.stopped || write_count == fm.num_pieces then ok (disk, true) else elim t.dequeued [
      | none ↦ idle
      | some v ↦ (do d ← write_value fm.file_lengths v disk; wrote d)
    ]
