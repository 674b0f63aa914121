-- ===== src/Tests/Peers.antt =====
-- src/peer_manager.cpp at three addresses, and a handler of src/peer.cpp.
use simpletorrent.Base.{
  inl, inr, if◌then◌else◌, Bool-cases, ==→eq, ◌⊎◌, some, get_elem?, arith, ℕ, ◌+◌, ◌*◌, ◌≤◌, ◌<◌,
  ◌≡◌, refl, Bool, not, List, [], ◌∷◌, ◌++◌, length, ◌==◌, ok,
}
use simpletorrent.PeerManager.{
  PeerManager, Pass, cleanup_and_open_connections, init, connect_first, max_num_connected_peers,
  Partition, cleanup_connections, open_connections,
}
use simpletorrent.PeerManager.Loop.{Looped, cleanup_and_open_connections-Looped}
use simpletorrent.PeerManager.Live.{total_attempts, attempts, live, count, IsPartition}
use simpletorrent.PeerManager.Steps.{
  IsConsistent, rounds, rounds-init-IsConsistent, init-IsConsistent,
  cleanup_connections-IsConsistent, open_connections-IsConsistent,
}
use simpletorrent.Tests.Pieces.{waiting, waiting-Good, platform, platform_law, torrent}
use simpletorrent.Peer
use simpletorrent.Peer.{Peer, handle_message}
use simpletorrent.Peer.Handlers.{IsHandled, handle_message-IsHandled}
use simpletorrent.Message.{piece}
use simpletorrent.Util.ByteOrder.{little}
use simpletorrent.PieceManager.Sizes.{sizes_of}
use simpletorrent.Base.{replicate, false}
use simpletorrent.Types.{PeerState}

-- Peer 1 exits.
abbrev second_exits : ℕ → Bool
second_exits p = p == 1

abbrev three_peers : PeerManager
three_peers = init waiting 3

starts_all : three_peers.peers ≡ 0 ∷ 1 ∷ 2 ∷ []
unfolding init connect_first
starts_all = refl

-- A partition that keeps the order of both parts.
select_peers : (ℕ → Bool) → List ℕ → List ℕ
select_peers wanted [] = []
select_peers wanted (p ∷ ps) =
    let rest = select_peers wanted ps in if wanted p then p ∷ rest else rest

stable : Partition
stable wanted ps = (select_peers wanted ps, select_peers (λ p. not (wanted p)) ps)

zero_left : (n : ℕ) → 0 + n ≡ n
zero_left n = omega arith

count-select_peers :
    (wanted : ℕ → Bool) (ps : List ℕ) (p : ℕ)
    → count p (select_peers wanted ps) ≡ (if wanted p then count p ps else 0)
unfolding select_peers
count-select_peers wanted [] p = elim (Bool-cases (wanted p)) [
  | inl e ↦ rw e refl
  | inr e ↦ rw e refl
]
count-select_peers wanted (q ∷ ps) p =
    let rest = count-select_peers wanted ps p in
    elim (Bool-cases (q == p)) [
      | inl same ↦
          let qp : q ≡ p = ==→eq q p same in
          elim (Bool-cases (wanted p)) [
            | inl e ↦ rw (qp, e) (omega (arith, rw e at rest))
            | inr e ↦ rw (qp, e) (rw e at rest)
          ]
      | inr other ↦ elim (Bool-cases (wanted q)) [
        | inl e ↦
            rw (e, other)
              (rw (zero_left (count p (select_peers wanted ps)), zero_left (count p ps)) rest)
        | inr e ↦ rw (e, other) (rw (zero_left (count p ps)) rest)
      ]
    ]

count-rejected :
    (wanted : ℕ → Bool) (ps : List ℕ) (p : ℕ)
    → count p (select_peers (λ q. not (wanted q)) ps) ≡ (if wanted p then 0 else count p ps)
count-rejected wanted ps p =
    let all = count-select_peers (λ q. not (wanted q)) ps p in
    elim (Bool-cases (wanted p)) [ inl e ↦ rw e (rw e at all) | inr e ↦ rw e (rw e at all) ]

length-select_peers :
    (wanted : ℕ → Bool) (ps : List ℕ)
    → length (select_peers wanted ps) + length (select_peers (λ q. not (wanted q)) ps) ≡ length ps
unfolding select_peers
length-select_peers wanted [] = omega arith
length-select_peers wanted (q ∷ ps) = elim (Bool-cases (wanted q)) [
  | inl e ↦ rw e (omega (arith, length-select_peers wanted ps))
  | inr e ↦ rw e (omega (arith, length-select_peers wanted ps))
]

stable-IsPartition : IsPartition stable
unfolding stable
stable-IsPartition = record {
  with_it = count-select_peers;
  without_it = count-rejected;
  as_many = length-select_peers;
}

rounds-init-IsConsistent_example :
    (after : PeerManager) × (rounds stable
        (second_exits ∷ second_exits ∷ second_exits ∷ [])
        three_peers
      ≡ ok after)
    × IsConsistent 3 after
    × (total_attempts after.peers_state ≤ 2 * 3)
rounds-init-IsConsistent_example =
    rounds-init-IsConsistent stable stable-IsPartition waiting 3
      (second_exits ∷ second_exits ∷ second_exits ∷ [])

cleanup_connections-IsConsistent_example :
    (after : PeerManager) × (cleanup_connections stable second_exits three_peers ≡ ok after)
    × IsConsistent 3 after
    × ((p : ℕ) → count p after.peers ≡ (if second_exits p then 0 else count p three_peers.peers))
    × (total_attempts after.peers_state ≡ total_attempts three_peers.peers_state)
cleanup_connections-IsConsistent_example =
    cleanup_connections-IsConsistent stable stable-IsPartition 3 three_peers
      (init-IsConsistent waiting 3) second_exits

open_connections-IsConsistent_example :
    (after : PeerManager) × (opened : List ℕ) × (open_connections three_peers ≡ ok after)
    × IsConsistent 3 after
    × (after.peers ≡ three_peers.peers ++ opened)
    × (total_attempts after.peers_state ≡ total_attempts three_peers.peers_state + length opened)
    × (length after.peers < max_num_connected_peers
        → (p : ℕ) (s : PeerState) → get_elem? after.peers_state p ≡ some s
        → (live (some s) ≡ 1) ⊎ (attempts s ≡ 2))
open_connections-IsConsistent_example =
    open_connections-IsConsistent 3 three_peers (init-IsConsistent waiting 3)

-- The second peer exits during the first pause.
abbrev one_pass : Pass
one_pass = record {
  asleep = waiting;
  stops = false;
  has_exited = second_exits;
  asleep_again = waiting;
  stops_again = false;
}

cleanup_and_open_connections-Looped_example :
    Looped 3 (cleanup_and_open_connections stable (one_pass ∷ one_pass ∷ []) false three_peers)
cleanup_and_open_connections-Looped_example =
    cleanup_and_open_connections-Looped stable stable-IsPartition 3 (one_pass ∷ one_pass ∷ []) false
      three_peers (init-IsConsistent waiting 3)

-- Without an address there is no peer.
abbrev no_peers : PeerManager
no_peers = init waiting 0

-- A peer that sends a piece message without a block.
abbrev first_peer : Peer
first_peer = record (Peer.init torrent.info_hash [] [] 6881 7 2) {
  is_choked = false;
  num_in_flight = 1;
}

first_peer-fits : first_peer.num_pieces ≡ 2
unfolding Peer.init
first_peer-fits = refl

handle_message-IsHandled_example :
    IsHandled platform platform_law little 2
      (sizes_of torrent 2)
      first_peer
      waiting
      first_peer-fits
      waiting-Good
      (handle_message platform little piece (replicate 8 0) first_peer waiting)
handle_message-IsHandled_example =
    handle_message-IsHandled platform platform_law little 2 (sizes_of torrent 2) first_peer waiting
      first_peer-fits waiting-Good piece (replicate 8 0)
