-- ===== src/Statistics.antt =====
-- src/statistics.cpp and include/simpletorrent/Statistics.h: the counters behind the progress bar. What
-- the thread draws with floating-point numbers is not part of it.
use simpletorrent.Base.{
  ℕ, ◌+◌, ◌-◌, ◌*◌, ◌/◌, ◌%◌, ◌^◌, ◌&&◌, List, [], ◌∷◌, ◌++◌, ltb, if◌then◌else◌,
}
use simpletorrent.Text.{to_string}

pub record Statistics : Type 0 where
  pub total_pieces : ℕ
  pub piece_length : ℕ
  pub total_length : ℕ
  pub completed_pieces : ℕ
  pub connected_peers : ℕ

-- The instance is static, and so its counters begin at zero.
abbrev pub instance_start : Statistics
instance_start = record {
  total_pieces = 0;
  piece_length = 0;
  total_length = 0;
  completed_pieces = 0;
  connected_peers = 0;
}

unfoldable pub update_num_peers : ℕ → Statistics → Statistics
update_num_peers num_peers s = record s { connected_peers = num_peers % 2 ^ 32 }

unfoldable pub update_piece_completed : Statistics → Statistics
update_piece_completed s = record s { completed_pieces = (s.completed_pieces + 1) % 2 ^ 32 }

-- The arguments of the caller are 64 bits wide, the first two parameters 32.
unfoldable pub init : ℕ → ℕ → ℕ → Statistics → Statistics
init num_pieces piece_length total_length s = record s {
  total_pieces = num_pieces % 2 ^ 32;
  piece_length = piece_length % 2 ^ 32;
  total_length = total_length % 2 ^ 64;
}

-- What `draw_progress` takes for the bytes that are there, and for those that are missing.
unfoldable pub total_bytes_downloaded : Statistics → ℕ
total_bytes_downloaded s = s.piece_length * s.completed_pieces % 2 ^ 64

unfoldable pub remaining_length : Statistics → ℕ
remaining_length s = (s.total_length + 2 ^ 64 - total_bytes_downloaded s) % 2 ^ 64

-- `hours` is an `int`; above 2^31 it is negative, and neither test holds.
unfoldable pub format_duration : ℕ → List ℕ
format_duration total_seconds =
    let hours = total_seconds / 3600 % 2 ^ 32 in
    let minutes = total_seconds % 3600 / 60 in
    let seconds = total_seconds % 60 in
    let positive = ltb 0 hours && ltb hours (2 ^ 31) in
    if positive && ltb 23 hours
    then b'>' ∷ b'1' ∷ b' ' ∷ b'd' ∷ b'a' ∷ b'y' ∷ []
    else (if positive then to_string hours ++ (b'h' ∷ b' ' ∷ []) else [])
      ++ ((if ltb 0 minutes then to_string minutes ++ (b'm' ∷ b' ' ∷ []) else [])
          ++ (to_string seconds ++ (b's' ∷ [])))
