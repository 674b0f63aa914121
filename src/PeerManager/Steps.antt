-- ===== src/PeerManager/Steps.antt =====
-- Any sequence of `cleanup_connections` and `open_connections` of src/peer_manager.cpp, from the
-- constructor on, whichever peers exit.
use simpletorrent.Base.{
  some, ◌⊎◌, all_of-get, if◌then◌else◌, ℕ, zero, suc, ◌+◌, ◌*◌, ◌≤◌, ◌<◌, ◌≡◌, refl, sym, ap, ◌∙◌,
  inl, inr, Bool, true, false, not, List, [], ◌∷◌, ◌++◌, length, get_elem?, replicate, ◌==◌, Result,
  ok, ◌>>=◌, arith, Bool-cases, length-append, length-replicate,
}
use simpletorrent.Types.{
  PeerState, not_connected, connected_1, connected_2, disconnected_1, disconnected_2,
}
use simpletorrent.PieceManager.{PieceManager}
use simpletorrent.PeerManager.{
  PeerManager, Partition, max_num_connected_peers, connect_first, init, cleanup_connections,
  is_connectable, open_connections,
}
use simpletorrent.PeerManager.Live.{
  count, live, total_attempts, total_attempts_bound, count-append, attempts, IsPartition,
  count_partition, retire-Retired,
}
use simpletorrent.PeerManager.Opens.{open_from-Opens}

-- The peers are just those whose state is connected, each once, and at most 60.
pub record IsConsistent (n : ℕ) (m : PeerManager) : Type 0 where
  pub peers_live : (p : ℕ) → count p m.peers ≡ live (get_elem? m.peers_state p)
  pub bounded : length m.peers ≤ max_num_connected_peers
  pub many : length m.peers_state ≡ n

-- For a manager whose peers are just those in a connected state, whichever peers have exited and in
-- whatever order `std::partition` leaves them, `cleanup_connections` does not throw, keeps that, takes
-- away every peer that has exited and no other, and counts no attempt anew.
pub cleanup_connections-IsConsistent :
    (partition : Partition)
    → IsPartition partition
    → (n : ℕ) (m : PeerManager) → IsConsistent n m
    → (has_exited : ℕ → Bool)
    → (after : PeerManager) × (cleanup_connections partition has_exited m ≡ ok after)
      × IsConsistent n after
      × ((p : ℕ) → count p after.peers ≡ (if has_exited p then 0 else count p m.peers))
      × (total_attempts after.peers_state ≡ total_attempts m.peers_state)
unfolding cleanup_connections
cleanup_connections-IsConsistent partition law n m v has_exited =
    let wanted = λ (p : ℕ). not (has_exited p) in
    let kept = (partition wanted m.peers).0 in
    let gone = (partition wanted m.peers).1 in
    let sides = count_partition partition law wanted m.peers in
    let (r, e, z) = retire-Retired gone m (λ p. omega (arith, sides p, v.peers_live p)) in
    (
      record r { peers = kept },
      rw e refl,
      record {
        peers_live = λ p. omega (arith, sides p, v.peers_live p, z.states p);
        bounded = omega (arith, law.as_many wanted m.peers, v.bounded);
        many = z.many ∙ v.many;
      },
      λ p. elim (Bool-cases (has_exited p)) [
        | inl e ↦ let a = rw e at (law.with_it wanted m.peers p) in rw e a
        | inr e ↦ let a = rw e at (law.with_it wanted m.peers p) in rw e a
      ],
      z.tried,
    )

-- A state that may not be tried again is that of a connected peer, or of one that has been tried twice.
not_connectable :
    (s : PeerState) → is_connectable s ≡ false → (live (some s) ≡ 1) ⊎ (attempts s ≡ 2)
unfolding is_connectable
not_connectable not_connected h = ground arith
not_connectable connected_1 h = inl refl
not_connectable connected_2 h = inl refl
not_connectable disconnected_1 h = ground arith
not_connectable disconnected_2 h = inr refl

-- For a manager whose peers are just those in a connected state and at most 60, `open_connections`
-- does not throw and keeps that, and keeps the peers; each new peer is one more attempt; and if there
-- are fewer than 60 peers after it, every address is connected or has been tried twice.
pub open_connections-IsConsistent :
    (n : ℕ) (m : PeerManager)
    → IsConsistent n m
    → (after : PeerManager) × (opened : List ℕ) × (open_connections m ≡ ok after)
      × IsConsistent n after
      × (after.peers ≡ m.peers ++ opened)
      × (total_attempts after.peers_state ≡ total_attempts m.peers_state + length opened)
      × (length after.peers < max_num_connected_peers
          → (p : ℕ) (s : PeerState) → get_elem? after.peers_state p ≡ some s
          → (live (some s) ≡ 1) ⊎ (attempts s ≡ 2))
unfolding open_connections
open_connections-IsConsistent n m v =
    let (opened, states, e, o) = open_from-Opens m.peers_state 0 (length m.peers) in
    let longer = length-append m.peers opened in
    (
      record m { peers = m.peers ++ opened; peers_state = states },
      opened,
      rw e refl,
      record {
        peers_live = λ p.
            let at_p : 0 + p ≡ p = omega arith in
            let s : live (get_elem? states p) ≡ live (get_elem? m.peers_state p) + count p opened =
              rw at_p at (o.states p) in
            omega (arith, count-append p m.peers opened, v.peers_live p);
        bounded = omega (arith, longer, o.bounded v.bounded);
        many = o.many ∙ v.many;
      },
      refl,
      o.tried,
      λ few p s at_p.
          let all = o.greedy (omega (arith, longer)) in
          let busy = all_of-get (λ (x : PeerState). not (is_connectable x)) states p s all at_p in
          not_connectable s (ground arith),
    )

-- One round of `cleanup_and_open_connections`, given which peers have exited.
unfoldable pub round : Partition → (ℕ → Bool) → PeerManager → Result PeerManager
round partition has_exited m = do
  cleaned ← cleanup_connections partition has_exited m
  open_connections cleaned

unfoldable pub rounds : Partition → List (ℕ → Bool) → PeerManager → Result PeerManager
rounds partition [] m = ok m
rounds partition (has_exited ∷ more) m = do
  after ← round partition has_exited m
  rounds partition more after

module _ (partition : Partition) (law : IsPartition partition) (n : ℕ) where
  round-IsConsistent :
      (has_exited : ℕ → Bool) (m : PeerManager)
      → IsConsistent n m
      → (after : PeerManager) × (round partition has_exited m ≡ ok after) × IsConsistent n after
  unfolding round
  round-IsConsistent has_exited m v =
      let (cleaned, e, w, _, _) = cleanup_connections-IsConsistent partition law n m v has_exited in
      let (after, _, f, u, _, _, _) = open_connections-IsConsistent n cleaned w in
      (after, rw e f, u)

  rounds-IsConsistent :
      (exits : List (ℕ → Bool)) (m : PeerManager)
      → IsConsistent n m
      → (after : PeerManager) × (rounds partition exits m ≡ ok after) × IsConsistent n after
  unfolding rounds
  rounds-IsConsistent [] m v = (m, refl, v)
  rounds-IsConsistent (has_exited ∷ more) m v =
      let (next, e, w) = round-IsConsistent has_exited m v in
      let (after, f, u) = rounds-IsConsistent more next w in (after, rw e f, u)

-- What the constructor's loop leaves, at address `i` of the first 60.
record Begins (num i : ℕ) (peers : List ℕ) (states : List PeerState) : Type 0 where
  states_live : (k : ℕ) → live (get_elem? states k) ≡ count (i + k) peers
  fresh : (k : ℕ) → k < i → count k peers ≡ 0
  many : length states ≡ num
  bounded : i + length peers ≤ max_num_connected_peers

live-unconnected : (num k : ℕ) → live (get_elem? (replicate num not_connected) k) ≡ 0
live-unconnected zero k = refl
live-unconnected (suc num) zero = refl
live-unconnected (suc num) (suc k) = live-unconnected num k

first_states :
    (states : List PeerState) (i : ℕ) (peers : List ℕ)
    → ((k : ℕ) → live (get_elem? states k) ≡ count (i + 1 + k) peers)
    → ((k : ℕ) → k < i + 1 → count k peers ≡ 0)
    → (k : ℕ) → live (get_elem? (connected_1 ∷ states) k) ≡ count (i + k) (i ∷ peers)
first_states states i peers h f zero =
    let same : (i == i + 0) ≡ true = ground arith in
    rw same (omega (arith, f (i + 0) (omega arith)))
first_states states i peers h f (suc k) =
    let at_k : i + 1 + k ≡ i + suc k = omega arith in
    let other : (i == i + suc k) ≡ false = ground arith in
    rw other (h k ∙ ap (λ (j : ℕ). count j peers) at_k ∙ omega arith)

connect_first-Begins :
    (num i : ℕ)
    → i < max_num_connected_peers
    → let (peers, states) = connect_first (replicate num not_connected) i in
      Begins num i peers states
unfolding connect_first
connect_first-Begins zero i h = record {
  states_live = λ k. refl;
  fresh = λ k l. refl;
  many = refl;
  bounded = omega arith;
}
connect_first-Begins (suc num) i h = elim (Bool-cases (i + 1 == max_num_connected_peers)) [
  | inl last ↦ rw last (record {
    states_live =
        first_states (replicate num not_connected) i [] (live-unconnected num) (λ k l. refl);
    fresh = λ k l. ground arith;
    many = ap suc (length-replicate num not_connected);
    bounded = omega arith;
  })
  | inr more ↦
      let rest = connect_first-Begins num (i + 1) (ground arith) in
      rw more (record {
        states_live =
            first_states (connect_first (replicate num not_connected) (i + 1)).1 i
              (connect_first (replicate num not_connected) (i + 1)).0 rest.states_live rest.fresh;
        fresh = λ k l. ground (arith, rest.fresh k (omega arith));
        many = ap suc rest.many;
        bounded = omega (arith, rest.bounded);
      })
]

pub init-IsConsistent :
    (piece_manager : PieceManager) (num : ℕ) → IsConsistent num (init piece_manager num)
unfolding init
init-IsConsistent piece_manager num =
    let b = connect_first-Begins num 0 (omega arith) in
    record {
      peers_live = λ p.
          let at_p : 0 + p ≡ p = omega arith in
          ap (λ (j : ℕ). count j (connect_first (replicate num not_connected) 0).0) (sym at_p)
          ∙ sym (b.states_live p);
      bounded = omega (arith, b.bounded);
      many = b.many;
    }

-- From the constructor on, for any number of addresses, whichever peers exit before each round and in
-- whatever order `std::partition` leaves them, every round of cleaning up and opening connections
-- returns: no state without a successor is ever advanced. After them the peers are just those in a
-- connected state, each once and at most 60, and the attempts to connect that the states stand for are
-- at most two for each address.
pub rounds-init-IsConsistent :
    (partition : Partition)
    → IsPartition partition
    → (piece_manager : PieceManager) (num : ℕ) (exits : List (ℕ → Bool))
    → (after : PeerManager) × (rounds partition exits (init piece_manager num) ≡ ok after)
      × IsConsistent num after
      × (total_attempts after.peers_state ≤ 2 * num)
rounds-init-IsConsistent partition law piece_manager num exits =
    let (after, e, v) =
      rounds-IsConsistent partition law num exits (init piece_manager num)
        (init-IsConsistent piece_manager num) in
    (after, e, v, omega (arith, total_attempts_bound after.peers_state, v.many))
