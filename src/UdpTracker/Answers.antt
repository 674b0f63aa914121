-- ===== src/UdpTracker/Answers.antt =====
-- A run of src/udp_tracker.cpp against a tracker that answers.
use simpletorrent.Base.{ℕ, ◌+◌, ◌*◌, ◌^◌, ◌≤◌, ◌<◌, ◌≡◌, refl, true, some, List, ◌++◌, length, ok}
use simpletorrent.Text.Find.{lacks}
use simpletorrent.Util.ByteOrder.{Endian, network_bytes}
use simpletorrent.Util.Hex.{hex_decode}
use simpletorrent.PeerList.Compact.{Address, AllAddresses, compact, insert_all}
use simpletorrent.UdpTracker.{Exchange, contact, add_peers}
use simpletorrent.UdpTracker.Url.{IsPath, url_of, extract-url}
use simpletorrent.UdpTracker.Packets.{announce_request-fields}
use simpletorrent.UdpTracker.Peers.{receive_connection_id-network, receive_peers-network}

-- The address of a tracker that is taken apart, and what is known of the torrent.
pub record IsTracker (scheme host port path info_hash our_id hash : List ℕ) : Type 0 where
  pub scheme_plain : lacks 58 scheme ≡ true
  pub host_plain : lacks 58 host ≡ true
  pub port_plain : lacks 47 port ≡ true
  pub path_slash : IsPath path
  pub decoded : hex_decode info_hash ≡ ok hash
  pub hash_size : length hash ≡ 20
  pub id_size : length our_id ≡ 20

-- The answers of a tracker to transactions of these numbers.
abbrev pub answers : ℕ → ℕ → ℕ → List ℕ → List ℕ → List Address → Exchange
answers connect_transaction announce_transaction connection_id unset counts ps = record {
  connect_transaction = connect_transaction;
  announce_transaction = announce_transaction;
  unset = unset;
  resolves = true;
  connect_answer =
      some (
        network_bytes 4 0
        ++ (network_bytes 4 connect_transaction ++ network_bytes 8 connection_id));
  announce_answer =
      some (network_bytes 4 1 ++ (network_bytes 4 announce_transaction ++ (counts ++ compact ps)));
}

-- On a machine of either byte order, for a tracker at `scheme://host:port` with a path or without,
-- whose name is resolved and which answers both transactions with their numbers, the second one with
-- twelve bytes of counts and at most 338 peers in compact form, all in network order: `add_peers`
-- returns with just these peers inserted, each as its address, a colon and its port.
pub add_peers-answers :
    (address_text : List ℕ → List ℕ) (e : Endian)
    (scheme host port path info_hash our_id hash : List ℕ)
    → IsTracker scheme host port path info_hash our_id hash
    → (connect_transaction announce_transaction connection_id : ℕ) (unset counts : List ℕ)
      (ps : List Address) (peer_set : List (List ℕ))
    → connect_transaction < 2 ^ 32
    → announce_transaction < 2 ^ 32
    → connection_id < 2 ^ 64
    → length unset ≡ 98
    → length counts ≡ 12
    → 20 + 6 * length ps ≤ 2048
    → AllAddresses ps
    → add_peers address_text e
        (answers connect_transaction announce_transaction connection_id unset counts ps)
        (record {
          tracker_url = url_of scheme host port path;
          info_hash = info_hash;
          our_id = our_id;
        })
        peer_set
      ≡ ok (insert_all address_text ps peer_set)
unfolding add_peers contact
add_peers-answers address_text e scheme host port path info_hash our_id hash w tid tid2 cid unset
      counts ps peer_set a b c u k fits h =
    let (host_is, port_is) =
      extract-url scheme host port path w.scheme_plain w.host_plain w.port_plain w.path_slash in
    let connected = receive_connection_id-network address_text e tid cid a c in
    let request =
      announce_request-fields e cid tid2 info_hash our_id unset hash w.decoded w.hash_size w.id_size
        u in
    let received = receive_peers-network address_text e tid2 counts ps peer_set b k fits h in
    rw (host_is, port_is, connected, request, received) refl
