-- ===== src/Tests/Downloads.antt =====
-- The theorem on a whole download, at a small one.
use simpletorrent.Base.{
  ◌<◌, ◌≡◌, refl, sym, false, none, some, ℕ, List, [], ◌∷◌, ◌++◌, true, ok, arith,
}
use simpletorrent.FileManager.{Turn, file_writer, data_file_lengths, open_files}
use simpletorrent.FileManager.Layout.{concat, HasLengths}
use simpletorrent.FileManager.Writer.{taken}
use simpletorrent.PieceManager.Sizes.{sizes_of}
use simpletorrent.PieceManager.Disk.{Holds}
use simpletorrent.PieceManager.Download.{IsCovered, file_writer-run-init-Holds}
use simpletorrent.Tests.Pieces.{
  platform, platform_law, torrent, torrent-IsTorrent, whole_download, whole_download-AllSized,
  whole_download-ends, whole_download-ran, state_after,
}

torrent-IsCovered : IsCovered torrent
unfolding data_file_lengths
torrent-IsCovered = record {
  covers = omega arith;
  last = omega arith;
  small = omega arith;
  files = refl;
}

abbrev turns : List Turn
turns =
    (record { stopped = false; dequeued = some (0, 9 ∷ 5 ∷ 5 ∷ 6 ∷ []) })
    ∷ (record { stopped = false; dequeued = none })
    ∷ (record { stopped = false; dequeued = some (4, 1 ∷ 2 ∷ 3 ∷ []) })
    ∷ []

takes_all : taken turns ≡ (state_after whole_download).file_manager.write_queue
takes_all = sym (whole_download-ends.1)

-- The writer sleeps, and then finds that it is done.
abbrev idle : Turn
idle = record { stopped = false; dequeued = none }

file_writer-run-init-Holds_example :
    (after : List (List ℕ)) × (file_writer
        (state_after whole_download).file_manager
        (turns ++ (idle ∷ []))
        0
        (open_files torrent)
      ≡ ok (after, true))
    × HasLengths (data_file_lengths torrent) after
    × ((k : ℕ) → k < 2 → Holds platform (sizes_of torrent 2) (concat after) k)
file_writer-run-init-Holds_example =
    file_writer-run-init-Holds platform platform_law torrent 2 1 whole_download
      (state_after whole_download) turns idle [] torrent-IsTorrent torrent-IsCovered
      whole_download-AllSized whole_download-ran (whole_download-ends.0) (refl, (refl, (refl, tt)))
      takes_all
