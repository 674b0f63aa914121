-- ===== src/PieceManager/Laws.antt =====
-- What the proofs about src/piece_manager.cpp rely on of code from elsewhere.
use simpletorrent.Base.{ℕ, ◌≡◌, true, some, List, length, get_elem?, all_of}
use simpletorrent.Util.Hex.{is_hex_digit}
use simpletorrent.PieceManager.{Platform}

-- The iteration of a map meets as many keys as there are, and no others; a digest is text in
-- hexadecimal digits.
pub record IsPlatform (p : Platform) : Type 0 where
  pub meets :
      (ks : List ℕ) (i k : ℕ)
      → get_elem? (p.order ks) i ≡ some k
      → (j : ℕ) × (get_elem? ks j ≡ some k)
  pub meets_all : (ks : List ℕ) → length (p.order ks) ≡ length ks
  pub digest : (bytes : List ℕ) → all_of is_hex_digit (p.sha1 bytes) ≡ true
