-- ===== src/PeerList/Compact.antt =====
-- What is read from the compact form of the addresses of peers in src/udp_tracker.cpp and
-- src/http_tracker.cpp.
use simpletorrent.Base.{
  ℕ, ◌+◌, ◌*◌, ◌^◌, ◌<◌, ◌≡◌, refl, sym, ap, ◌∙◌, List, [], ◌∷◌, ◌++◌, length, ok, arith,
  length-append,
}
use mathlib.Core.List.{append_assoc}
use simpletorrent.Util.ByteOrder.{Endian, network_bytes, length-network_bytes, convert_bo-of_memory}
use simpletorrent.Message.{slice}
use simpletorrent.Message.Handshake.{slice-middle}
use simpletorrent.PeerList.{conn_string, peer_at, insert}

-- A peer as a tracker knows it.
pub record Address : Type 0 where
  pub ip_bytes : List ℕ
  pub port : ℕ

abbrev pub AllAddresses : List Address → Type 0
AllAddresses [] = Unit {0}
AllAddresses (a ∷ rest) = (length a.ip_bytes ≡ 4) × (a.port < 2 ^ 16) × AllAddresses rest

-- The six bytes of each peer, in network order.
unfoldable pub compact : List Address → List ℕ
compact [] = []
compact (a ∷ rest) = a.ip_bytes ++ (network_bytes 2 a.port ++ compact rest)

-- The set with the texts of these peers inserted one after the other.
unfoldable pub insert_all : (List ℕ → List ℕ) → List Address → List (List ℕ) → List (List ℕ)
insert_all address_text [] peer_set = peer_set
insert_all address_text (a ∷ rest) peer_set =
    insert_all address_text rest (insert (conn_string address_text a.ip_bytes a.port) peer_set)

module _ (address_text : List ℕ → List ℕ) (e : Endian) where
  pub peer_at-compact :
      (front rest : List ℕ) (a : Address) (pos : ℕ)
      → length front ≡ pos
      → length a.ip_bytes ≡ 4
      → a.port < 2 ^ 16
      → peer_at address_text e pos (front ++ (a.ip_bytes ++ (network_bytes 2 a.port ++ rest)))
        ≡ ok (conn_string address_text a.ip_bytes a.port)
  unfolding peer_at
  peer_at-compact front rest a pos p q small =
      let first = slice-middle front a.ip_bytes (network_bytes 2 a.port ++ rest) pos 4 p q in
      let both : length (front ++ a.ip_bytes) ≡ pos + 4 =
        omega (arith, length-append front a.ip_bytes) in
      let port_bytes = network_bytes 2 a.port in
      let second : slice (pos + 4) 2 (front ++ (a.ip_bytes ++ (port_bytes ++ rest)))
          ≡ ok port_bytes =
        ap (slice (pos + 4) 2) (sym (append_assoc front a.ip_bytes (port_bytes ++ rest)))
        ∙ slice-middle (front ++ a.ip_bytes) port_bytes rest (pos + 4) 2 both
            (length-network_bytes 2 a.port) in
      rw (first, second, convert_bo-of_memory e 2 a.port small) refl

-- The first peer of several, and what stands behind it, in a row of bytes.
pub compact_first :
    (front tail : List ℕ) (a : Address) (rest : List Address)
    → front ++ (compact (a ∷ rest) ++ tail)
      ≡ front ++ (a.ip_bytes ++ (network_bytes 2 a.port ++ (compact rest ++ tail)))
unfolding compact
compact_first front tail a rest = ap (◌++◌ front) (
    append_assoc a.ip_bytes (network_bytes 2 a.port ++ compact rest) tail
    ∙ ap (◌++◌ a.ip_bytes) (append_assoc (network_bytes 2 a.port) (compact rest) tail))

pub compact_behind :
    (front tail : List ℕ) (a : Address) (rest : List Address)
    → front ++ (compact (a ∷ rest) ++ tail)
      ≡ (front ++ (a.ip_bytes ++ network_bytes 2 a.port)) ++ (compact rest ++ tail)
compact_behind front tail a rest =
    compact_first front tail a rest
    ∙ sym (
        append_assoc front (a.ip_bytes ++ network_bytes 2 a.port) (compact rest ++ tail)
        ∙ ap (◌++◌ front) (append_assoc a.ip_bytes (network_bytes 2 a.port) (compact rest ++ tail)))

pub length-behind :
    (front : List ℕ) (a : Address)
    → length a.ip_bytes ≡ 4
    → length (front ++ (a.ip_bytes ++ network_bytes 2 a.port)) ≡ length front + 6
length-behind front a p = omega (
  arith,
  length-append front (a.ip_bytes ++ network_bytes 2 a.port),
  length-append a.ip_bytes (network_bytes 2 a.port),
  length-network_bytes 2 a.port,
)

pub length-compact : (ps : List Address) → AllAddresses ps → length (compact ps) ≡ 6 * length ps
unfolding compact
length-compact [] h = omega arith
length-compact (a ∷ rest) (p, q, h) = omega (
  arith,
  length-append a.ip_bytes (network_bytes 2 a.port ++ compact rest),
  length-append (network_bytes 2 a.port) (compact rest),
  length-network_bytes 2 a.port,
  length-compact rest h,
)
