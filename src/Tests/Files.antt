-- ===== src/Tests/Files.antt =====
-- src/file_manager.cpp at concrete inputs: three files of two, no and three bytes.
use simpletorrent.Base.{false, none, some, ℕ, ◌≡◌, refl, List, [], ◌∷◌, ok, arith, overwrite, map}
use simpletorrent.FileManager.Writer.{Written, file_writer-Written}
use simpletorrent.FileManager.{
  FileManager, Turn, start_file, split_bytes, calculate_files_write_info, stream_write, write_parts,
  write_value, create_and_open_file, open_for_writing,
}
use simpletorrent.FileManager.Fill.{HasRoom}
use simpletorrent.FileManager.Layout.{concat, HasLengths}
use simpletorrent.FileManager.Write.{write_value-overwrite}

abbrev lengths : List ℕ
lengths = 2 ∷ 0 ∷ 3 ∷ []

abbrev disk : List (List ℕ)
disk = (0 ∷ 0 ∷ []) ∷ [] ∷ (0 ∷ 0 ∷ 0 ∷ []) ∷ []

spreads_piece :
    write_value lengths (1, 7 ∷ 8 ∷ 9 ∷ []) disk ≡ ok ((0 ∷ 7 ∷ []) ∷ [] ∷ (8 ∷ 9 ∷ 0 ∷ []) ∷ [])
unfolding write_value calculate_files_write_info start_file split_bytes stream_write write_parts
spreads_piece = refl

write_value-overwrite_example :
    (after : List (List ℕ)) × (write_value lengths (1, 7 ∷ 8 ∷ 9 ∷ []) disk ≡ ok after)
    × HasLengths lengths after
    × (concat after ≡ overwrite (concat disk) 1 (7 ∷ 8 ∷ 9 ∷ []))
write_value-overwrite_example =
    write_value-overwrite lengths disk 1 (7 ∷ 8 ∷ 9 ∷ []) (refl, (refl, (refl, tt))) (omega arith)
      (omega arith)

-- A writer that finds nothing on the queue at first, and then a piece over the border of two files.
abbrev two_turns : List Turn
two_turns =
    (record { stopped = false; dequeued = none })
    ∷ (record { stopped = false; dequeued = some (1, 7 ∷ 8 ∷ 9 ∷ []) })
    ∷ []

abbrev writer : FileManager
writer = record { num_pieces = 1; file_lengths = lengths; write_queue = [] }

-- The files as they are created, and a turn that finds the queue empty.
abbrev created : List (List ℕ)
created = map (create_and_open_file []) lengths

created-HasRoom : HasRoom lengths created
unfolding create_and_open_file open_for_writing
created-HasRoom = (omega arith, (omega arith, (omega arith, tt)))

abbrev idle : Turn
idle = record { stopped = false; dequeued = none }

file_writer-Written_example : Written writer two_turns idle [] 0 created
file_writer-Written_example =
    file_writer-Written writer two_turns idle [] 0 created (refl, (refl, tt)) created-HasRoom
      (omega arith, omega arith, tt) (omega arith) (omega arith)
