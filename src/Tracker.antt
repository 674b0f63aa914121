-- ===== src/Tracker.antt =====
-- src/tracker.cpp and include/simpletorrent/Tracker.h: the peers of all trackers of a torrent.
pub mod Peers
use simpletorrent.Base.{
  ℕ, ◌+◌, ◌^◌, ◌<◌, Bool, true, false, ◌&&◌, ◌||◌, Option, none, some, List, [], ◌∷◌, length, ltb,
  leb, if◌then◌else◌, Result, ok, fault, out_of_range, ◌>>=◌,
}
use simpletorrent.Text.{find_from, starts_with, substr, substr_from, stoi}
use simpletorrent.Util.ByteOrder.{Endian}
use simpletorrent.Bencode.{Data}
use simpletorrent.UdpTracker
use simpletorrent.UdpTracker.{UdpTracker, Exchange}
use simpletorrent.HttpTracker
use simpletorrent.HttpTracker.{HttpTracker, Response}

pub record Tracker : Type 0 where
  pub tracker_url_list : List (List ℕ)
  pub info_hash : List ℕ
  pub our_id : List ℕ
  pub peer_set : List (List ℕ)

unfoldable pub init : List (List ℕ) → List ℕ → List ℕ → Tracker
init tracker_url_list info_hash our_id = record {
  tracker_url_list = tracker_url_list;
  info_hash = info_hash;
  our_id = our_id;
  peer_set = [];
}

-- What comes from outside: what each tracker on datagrams answers, and the library for HTTP.
pub record Network : Type 0 where
  pub address_text : List ℕ → List ℕ
  pub exchange : List ℕ → Exchange
  pub http_get : List ℕ → List (List ℕ × List ℕ) → Response
  pub decode : List ℕ → Option Data

abbrev pub udp_prefix : List ℕ
udp_prefix = b'u' ∷ b'd' ∷ b'p' ∷ []

abbrev pub http_prefix : List ℕ
http_prefix = b'h' ∷ b't' ∷ b't' ∷ b'p' ∷ []

-- The trackers on datagrams. They run at the same time, but each one inserts its peers without a
-- pause, so that only the order of the set depends on which comes first.
unfoldable pub add_udp :
    Network → Endian → Tracker → List (List ℕ) → List (List ℕ) → Result (List (List ℕ))
add_udp net e t [] peer_set = ok peer_set
add_udp net e t (url ∷ urls) peer_set =
    if starts_with udp_prefix url
    then (do
      after ←
          UdpTracker.add_peers net.address_text e (net.exchange url)
            (record { tracker_url = url; info_hash = t.info_hash; our_id = t.our_id }) peer_set
      add_udp net e t urls after)
    else add_udp net e t urls peer_set

unfoldable pub add_http :
    Network → Endian → Tracker → List (List ℕ) → List (List ℕ) → Result (List (List ℕ))
add_http net e t [] peer_set = ok peer_set
add_http net e t (url ∷ urls) peer_set =
    if starts_with http_prefix url
    then (do
      after ←
          HttpTracker.add_peers net.address_text e net.http_get net.decode
            (record { tracker_url = url; info_hash = t.info_hash; our_id = t.our_id }) peer_set
      add_http net e t urls after)
    else add_http net e t urls peer_set

unfoldable pub add_peers : Network → Endian → Tracker → Result Tracker
add_peers net e t = do
  by_udp ← add_udp net e t t.tracker_url_list t.peer_set
  if ltb 0 (length by_udp) then ok (record t { peer_set = by_udp }) else (do
    by_http ← add_http net e t t.tracker_url_list by_udp
    ok (record t { peer_set = by_http }))

-- Where there is no colon, `npos + 1` is 0, and the whole text is both the address and the port.
unfoldable pub split_conn_string : List ℕ → Result (List ℕ × ℕ)
split_conn_string conn_string = do
  let colon_pos = find_from 58 0 conn_string
  ip ← elim colon_pos [ none ↦ ok conn_string | some colon ↦ substr 0 colon conn_string ]
  port_str ← elim colon_pos [
    | none ↦ ok conn_string
    | some colon ↦ substr_from (colon + 1) conn_string
  ]
  (negative, int_port) ← stoi port_str
  if (negative && ltb 0 int_port) || ltb 65535 int_port
      then fault out_of_range
      else ok (ip, int_port)

unfoldable pub split_all : List (List ℕ) → Result (List (List ℕ × ℕ))
split_all [] = ok []
split_all (s ∷ rest) = do first ← split_conn_string s; others ← split_all rest; ok (first ∷ others)

-- `order` is the order in which the set is iterated.
unfoldable pub get_peers : (List (List ℕ) → List (List ℕ)) → Tracker → Result (List (List ℕ × ℕ))
get_peers order t = split_all (order t.peer_set)
