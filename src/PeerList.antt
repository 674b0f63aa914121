-- ===== src/PeerList.antt =====
-- The addresses of peers in src/udp_tracker.cpp and src/http_tracker.cpp: the compact form of six
-- bytes, and the set of texts that collects them.
pub mod Compact
pub mod Members
use simpletorrent.Base.{
  ℕ, ◌+◌, Bool, true, false, ◌||◌, List, [], ◌∷◌, ◌++◌, list_eq, if◌then◌else◌, Result, ok, ◌>>=◌,
}
use simpletorrent.Text.{to_string}
use simpletorrent.Util.ByteOrder.{Endian, convert_bo, of_memory}
use simpletorrent.Message.{slice}

-- The address and the port of a peer as a text; `address_text` is `asio::ip::address_v4::to_string`.
unfoldable pub conn_string : (List ℕ → List ℕ) → List ℕ → ℕ → List ℕ
conn_string address_text ip_bytes port = address_text ip_bytes ++ (58 ∷ to_string port)

-- What the two loops read at a position.
unfoldable pub peer_at : (List ℕ → List ℕ) → Endian → ℕ → List ℕ → Result (List ℕ)
peer_at address_text e pos bytes = do
  ip_bytes ← slice pos 4 bytes
  port ← slice (pos + 4) 2 bytes
  ok (conn_string address_text ip_bytes (convert_bo e 2 (of_memory e port)))

unfoldable pub contains : List ℕ → List (List ℕ) → Bool
contains s [] = false
contains s (t ∷ ts) = list_eq s t || contains s ts

-- `peer_set_.insert`. Nothing depends on the order of the set.
unfoldable pub insert : List ℕ → List (List ℕ) → List (List ℕ)
insert s peer_set = if contains s peer_set then peer_set else peer_set ++ (s ∷ [])
