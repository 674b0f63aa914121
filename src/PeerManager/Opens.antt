-- ===== src/PeerManager/Opens.antt =====
-- The loop of `open_connections` of src/peer_manager.cpp against the states of the addresses.
use simpletorrent.Base.{
  ℕ, zero, suc, ◌+◌, ◌≤◌, ◌<◌, ◌≡◌, refl, ap, ◌∙◌, inl, inr, true, false, not, some, List, [], ◌∷◌,
  length, get_elem?, all_of, leb, ◌==◌, ok, arith, Bool-cases,
}
use simpletorrent.Types.{
  PeerState, not_connected, connected_1, connected_2, disconnected_1, disconnected_2,
}
use simpletorrent.PeerManager.{
  get_next_peer_state, max_num_connected_peers, is_connectable, open_from,
}
use simpletorrent.PeerManager.Live.{count, live, attempts, total_attempts}

-- What the loop of `open_connections` leaves, from address `i` and `num_peers` peers on.
pub record Opens (ss : List PeerState) (i num_peers : ℕ) (peers : List ℕ) (after : List PeerState)
    : Type 0 where
  pub states : (k : ℕ) → live (get_elem? after k) ≡ live (get_elem? ss k) + count (i + k) peers
  pub fresh : (k : ℕ) → k < i → count k peers ≡ 0
  pub many : length after ≡ length ss
  pub tried : total_attempts after ≡ total_attempts ss + length peers
  pub bounded :
      num_peers ≤ max_num_connected_peers → num_peers + length peers ≤ max_num_connected_peers
  pub greedy :
      num_peers + length peers < max_num_connected_peers
      → all_of (λ s. not (is_connectable s)) after ≡ true

-- A connectable peer is not connected; the next state is.
enter-state :
    (s : PeerState)
    → is_connectable s ≡ true
    → (t : PeerState) × (get_next_peer_state s ≡ ok t)
      × (live (some s) ≡ 0)
      × (live (some t) ≡ 1)
      × (attempts t ≡ attempts s + 1)
      × (is_connectable t ≡ false)
unfolding get_next_peer_state is_connectable
enter-state not_connected h = (connected_1, refl, refl, refl, refl, refl)
enter-state connected_1 h = ground arith
enter-state connected_2 h = ground arith
enter-state disconnected_1 h = (connected_2, refl, refl, refl, refl, refl)
enter-state disconnected_2 h = ground arith

pass_states :
    (s : PeerState) (ss after : List PeerState) (i : ℕ) (peers : List ℕ)
    → ((k : ℕ) → live (get_elem? after k) ≡ live (get_elem? ss k) + count (i + 1 + k) peers)
    → ((k : ℕ) → k < i + 1 → count k peers ≡ 0)
    → (k : ℕ) → live (get_elem? (s ∷ after) k) ≡ live (get_elem? (s ∷ ss) k) + count (i + k) peers
pass_states s ss after i peers h f zero =
    let at_i : i + 0 ≡ i = omega arith in rw at_i (omega (arith, f i (omega arith)))
pass_states s ss after i peers h f (suc k) =
    let at_k : i + 1 + k ≡ i + suc k = omega arith in
    h k ∙ ap (λ (j : ℕ). live (get_elem? ss k) + count j peers) at_k

open_states :
    (s t : PeerState) (ss after : List PeerState) (i : ℕ) (peers : List ℕ)
    → live (some s) ≡ 0
    → live (some t) ≡ 1
    → ((k : ℕ) → live (get_elem? after k) ≡ live (get_elem? ss k) + count (i + 1 + k) peers)
    → ((k : ℕ) → k < i + 1 → count k peers ≡ 0)
    → (k : ℕ)
    → live (get_elem? (t ∷ after) k) ≡ live (get_elem? (s ∷ ss) k) + count (i + k) (i ∷ peers)
open_states s t ss after i peers off on h f zero =
    let same : (i == i + 0) ≡ true = ground arith in
    rw same (omega (arith, f (i + 0) (omega arith)))
open_states s t ss after i peers off on h f (suc k) =
    let at_k : i + 1 + k ≡ i + suc k = omega arith in
    let other : (i == i + suc k) ≡ false = ground arith in
    rw other (h k ∙ ap (λ (j : ℕ). live (get_elem? ss k) + count j peers) at_k ∙ omega arith)

pub open_from-Opens :
    (ss : List PeerState) (i num_peers : ℕ)
    → (peers : List ℕ) × (after : List PeerState) × (open_from ss i num_peers ≡ ok (peers, after))
      × Opens ss i num_peers peers after
unfolding open_from
open_from-Opens [] i c = (
  [],
  [],
  refl,
  record {
    states = λ k. refl;
    fresh = λ k h. refl;
    many = refl;
    tried = refl;
    bounded = λ h. omega arith;
    greedy = λ h. refl;
  },
)
open_from-Opens (s ∷ ss) i c = elim (Bool-cases (is_connectable s)) [
  | inr busy ↦
      let (peers, after, e, o) = open_from-Opens ss (i + 1) c in
      (
        peers,
        s ∷ after,
        rw busy (rw e refl),
        record {
          states = pass_states s ss after i peers o.states o.fresh;
          fresh = λ k h. o.fresh k (omega arith);
          many = ap suc o.many;
          tried = omega (arith, o.tried);
          bounded = o.bounded;
          greedy = λ h. rw busy (o.greedy h);
        },
      )
  | inl free ↦ elim (Bool-cases (leb max_num_connected_peers c)) [
    | inl full ↦ (
      [],
      s ∷ ss,
      rw (free, full) refl,
      record {
        states = λ k. omega arith;
        fresh = λ k h. refl;
        many = refl;
        tried = omega arith;
        bounded = λ h. omega arith;
        greedy = λ h. absurd (ground arith);
      },
    )
    | inr room ↦
        let (t, next, off, on, more, busy) = enter-state s free in
        let (peers, after, e, o) = open_from-Opens ss (i + 1) (c + 1) in
        (
          i ∷ peers,
          t ∷ after,
          rw (free, room, next) (rw e refl),
          record {
            states = open_states s t ss after i peers off on o.states o.fresh;
            fresh = λ k h. ground (arith, o.fresh k (omega arith));
            many = ap suc o.many;
            tried = omega (arith, o.tried);
            bounded = λ h.
                let below : c + 1 ≤ 60 = ground arith in let b = o.bounded below in omega arith;
            greedy = λ h. rw busy (o.greedy (omega arith));
          },
        )
  ]
]
