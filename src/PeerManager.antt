-- ===== src/PeerManager.antt =====
-- src/peer_manager.cpp, include/simpletorrent/PeerManager.h and include/simpletorrent/
-- StateTransition.h: which peers are connected. A peer is known by its id, its index among the
-- addresses.
pub mod Live
pub mod Opens
pub mod Steps
pub mod Loop
use simpletorrent.Base.{
  ℕ, ◌+◌, Bool, true, false, not, ◌||◌, List, [], ◌∷◌, ◌++◌, length, get_elem?, set, replicate, leb,
  ◌==◌, if◌then◌else◌, Result, ok, fault, thrown, ◌>>=◌, at,
}
use simpletorrent.Types.{
  PeerState, not_connected, connected_1, connected_2, disconnected_1, disconnected_2,
}
use simpletorrent.PieceManager
use simpletorrent.PieceManager.{PieceManager}

unfoldable pub get_next_peer_state : PeerState → Result PeerState
get_next_peer_state not_connected = ok connected_1
get_next_peer_state connected_1 = ok disconnected_1
get_next_peer_state disconnected_1 = ok connected_2
get_next_peer_state connected_2 = ok disconnected_2
get_next_peer_state disconnected_2 = fault thrown

abbrev pub max_num_connected_peers : ℕ
max_num_connected_peers = 60

-- `peers` has the id of each peer.
pub record PeerManager : Type 0 where
  pub piece_manager : PieceManager
  pub peers : List ℕ
  pub peers_state : List PeerState

-- The loop of the constructor from address `i` on: the peers it makes, and the states after it.
unfoldable pub connect_first : List PeerState → ℕ → List ℕ × List PeerState
connect_first [] i = ([], [])
connect_first (s ∷ states) i =
    let (peers, next) = connect_first states (i + 1) in
    if i + 1 == max_num_connected_peers
    then (i ∷ [], connected_1 ∷ states)
    else (i ∷ peers, connected_1 ∷ next)

-- The constructor, for a number of addresses.
unfoldable pub init : PieceManager → ℕ → PeerManager
init piece_manager num_peer_ips =
    let (peers, states) = connect_first (replicate num_peer_ips not_connected) 0 in
    record { piece_manager = piece_manager; peers = peers; peers_state = states }

-- What `std::partition` makes of a list: the elements with a property, and the others, each in an
-- order that it leaves open.
abbrev pub Partition : Type 0
Partition = (ℕ → Bool) → List ℕ → List ℕ × List ℕ

-- The loop over the exited peers.
unfoldable pub retire : List ℕ → PeerManager → Result PeerManager
retire [] m = ok m
retire (p ∷ ps) m = do
  peer_state ← at m.peers_state p
  next ← get_next_peer_state peer_state
  retire ps (record m {
    piece_manager = PieceManager.remove_peer p m.piece_manager;
    peers_state = set m.peers_state p next;
  })

unfoldable pub cleanup_connections : Partition → (ℕ → Bool) → PeerManager → Result PeerManager
cleanup_connections partition has_exited m = do
  let (remaining, exited) = partition (λ p. not (has_exited p)) m.peers
  retired ← retire exited m
  ok (record retired { peers = remaining })

unfoldable pub is_connectable : PeerState → Bool
is_connectable not_connected = true
is_connectable connected_1 = false
is_connectable connected_2 = false
is_connectable disconnected_1 = true
is_connectable disconnected_2 = false

-- The loop of `open_connections` from address `i` on, with `num_peers` peers: the peers it makes, and
-- the states after it.
unfoldable pub open_from : List PeerState → ℕ → ℕ → Result (List ℕ × List PeerState)
open_from [] i num_peers = ok ([], [])
open_from (s ∷ states) i num_peers =
    let opened = open_from states (i + 1) (num_peers + 1) in
    let passed = open_from states (i + 1) num_peers in
    if is_connectable s
    then (if leb max_num_connected_peers num_peers then ok ([], s ∷ states) else (do
      next ← get_next_peer_state s
      (peers, after) ← opened
      ok (i ∷ peers, next ∷ after)))
    else (do (peers, after) ← passed; ok (peers, s ∷ after))

unfoldable pub open_connections : PeerManager → Result PeerManager
open_connections m = do
  (peers, states) ← open_from m.peers_state 0 (length m.peers)
  ok (record m { peers = m.peers ++ peers; peers_state = states })

-- One pass of the loop of `cleanup_and_open_connections`: what others leave of the piece manager
-- during the two pauses, whether they stop the download, and which peers have exited.
pub record Pass : Type 0 where
  pub asleep : PieceManager
  pub stops : Bool
  pub has_exited : ℕ → Bool
  pub asleep_again : PieceManager
  pub stops_again : Bool

-- Without a peer the download is stopped.
unfoldable pub stop_without_peers : Bool → PeerManager → Bool
stop_without_peers stop_download m = stop_download || (length m.peers == 0)

-- The loop, with the flag of the download: the manager and the flag that it leaves, and whether it has
-- stopped the context.
unfoldable pub cleanup_and_open_connections :
    Partition → List Pass → Bool → PeerManager → Result (PeerManager × Bool × Bool)
cleanup_and_open_connections partition [] stop_download m = ok (m, stop_download, false)
cleanup_and_open_connections partition (p ∷ passes) stop_download m =
    if PieceManager.continue_download stop_download m.piece_manager
    then (if PieceManager.continue_download (stop_download || p.stops) p.asleep
        then (do
          cleaned ←
              cleanup_connections partition p.has_exited (record m { piece_manager = p.asleep })
          opened ← open_connections cleaned
          cleanup_and_open_connections partition passes
              (stop_without_peers (stop_download || p.stops) opened || p.stops_again)
              (record opened { piece_manager = p.asleep_again }))
        else ok (record m { piece_manager = p.asleep }, stop_download || p.stops, true))
    else ok (m, stop_download, true)
