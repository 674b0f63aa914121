-- ===== src/PeerManager/Live.antt =====
-- The peers of src/peer_manager.cpp against their states: what the loops do to them.
use simpletorrent.Base.{
  ℕ, zero, suc, ◌+◌, ◌*◌, ◌≤◌, ◌≡◌, refl, ap, ◌∙◌, inl, inr, Bool, Option, none, some, List, [],
  ◌∷◌, ◌++◌, length, get_elem?, set, ◌==◌, if◌then◌else◌, ok, arith, Bool-cases, Option-cases,
  length-set, get_elem?-set_self, get_elem?-set_ne, get_elem?-lt, ==→eq,
}
use simpletorrent.Types.{
  PeerState, not_connected, connected_1, connected_2, disconnected_1, disconnected_2,
}
use simpletorrent.PieceManager
use simpletorrent.PeerManager.{PeerManager, Partition, get_next_peer_state, retire}

-- How often a peer stands in the list.
abbrev pub count : ℕ → List ℕ → ℕ
count p [] = 0
count p (q ∷ qs) = (if q == p then 1 else 0) + count p qs

-- Whether a peer in this state is connected, as 0 or 1.
abbrev pub live : Option PeerState → ℕ
live none = 0
live (some not_connected) = 0
live (some connected_1) = 1
live (some connected_2) = 1
live (some disconnected_1) = 0
live (some disconnected_2) = 0

-- How many connections a state stands for.
abbrev pub attempts : PeerState → ℕ
attempts not_connected = 0
attempts connected_1 = 1
attempts connected_2 = 2
attempts disconnected_1 = 1
attempts disconnected_2 = 2

abbrev pub total_attempts : List PeerState → ℕ
total_attempts [] = 0
total_attempts (s ∷ ss) = attempts s + total_attempts ss

pub total_attempts_bound : (ss : List PeerState) → total_attempts ss ≤ 2 * length ss
total_attempts_bound [] = omega arith
total_attempts_bound (not_connected ∷ ss) = omega (arith, total_attempts_bound ss)
total_attempts_bound (connected_1 ∷ ss) = omega (arith, total_attempts_bound ss)
total_attempts_bound (connected_2 ∷ ss) = omega (arith, total_attempts_bound ss)
total_attempts_bound (disconnected_1 ∷ ss) = omega (arith, total_attempts_bound ss)
total_attempts_bound (disconnected_2 ∷ ss) = omega (arith, total_attempts_bound ss)

pub count-append : (p : ℕ) (ps qs : List ℕ) → count p (ps ++ qs) ≡ count p ps + count p qs
count-append p [] qs = omega arith
count-append p (x ∷ ps) qs = omega (arith, count-append p ps qs)

-- What `std::partition` documents: each element goes to the side that the property names.
pub record IsPartition (partition : Partition) : Type 0 where
  pub with_it :
      (wanted : ℕ → Bool) (ps : List ℕ) (p : ℕ)
      → count p (partition wanted ps).0 ≡ (if wanted p then count p ps else 0)
  pub without_it :
      (wanted : ℕ → Bool) (ps : List ℕ) (p : ℕ)
      → count p (partition wanted ps).1 ≡ (if wanted p then 0 else count p ps)
  pub as_many :
      (wanted : ℕ → Bool) (ps : List ℕ)
      → length (partition wanted ps).0 + length (partition wanted ps).1 ≡ length ps

module _ (partition : Partition) (law : IsPartition partition) (wanted : ℕ → Bool)
    (ps : List ℕ) where
  -- A partition keeps each peer on one side.
  pub count_partition :
      (p : ℕ) → count p (partition wanted ps).0 + count p (partition wanted ps).1 ≡ count p ps
  count_partition p = elim (Bool-cases (wanted p)) [
    | inl e ↦
        let a = rw e at (law.with_it wanted ps p) in
        let b = rw e at (law.without_it wanted ps p) in omega (arith, a, b)
    | inr e ↦
        let a = rw e at (law.with_it wanted ps p) in
        let b = rw e at (law.without_it wanted ps p) in omega (arith, a, b)
  ]

total_attempts-set :
    (ss : List PeerState) (p : ℕ) (s t : PeerState)
    → get_elem? ss p ≡ some s
    → attempts t ≡ attempts s
    → total_attempts (set ss p t) ≡ total_attempts ss
total_attempts-set [] p s t g h = ground arith
total_attempts-set (x ∷ ss) zero s t g h = let same : x ≡ s = ground arith in rw (same, h) refl
total_attempts-set (x ∷ ss) (suc p) s t g h =
    ap (◌+◌ (attempts x)) (total_attempts-set ss p s t g h)

-- A connected peer that exits is disconnected, and no connection is counted anew.
exit-state :
    (s : PeerState)
    → live (some s) ≡ 1
    → (t : PeerState) × (get_next_peer_state s ≡ ok t)
      × (live (some t) ≡ 0)
      × (attempts t ≡ attempts s)
unfolding get_next_peer_state
exit-state not_connected h = absurd (omega arith)
exit-state connected_1 h = (disconnected_1, refl, refl, refl)
exit-state connected_2 h = (disconnected_2, refl, refl, refl)
exit-state disconnected_1 h = absurd (omega arith)
exit-state disconnected_2 h = absurd (omega arith)

live_bound : (o : Option PeerState) → live o ≤ 1
live_bound none = omega arith
live_bound (some not_connected) = omega arith
live_bound (some connected_1) = omega arith
live_bound (some connected_2) = omega arith
live_bound (some disconnected_1) = omega arith
live_bound (some disconnected_2) = omega arith

-- What the loop over exited peers leaves.
pub record Retired (ps : List ℕ) (m n : PeerManager) : Type 0 where
  pub states :
      (p : ℕ) → live (get_elem? n.peers_state p) + count p ps ≡ live (get_elem? m.peers_state p)
  pub many : length n.peers_state ≡ length m.peers_state
  pub tried : total_attempts n.peers_state ≡ total_attempts m.peers_state

set-live :
    (p q : ℕ) (ss : List PeerState) (s t : PeerState)
    → get_elem? ss p ≡ some s
    → live (some s) ≡ 1
    → live (some t) ≡ 0
    → live (get_elem? (set ss p t) q) + (if p == q then 1 else 0) ≡ live (get_elem? ss q)
set-live p q ss s t e c o = elim (Bool-cases (p == q)) [
  | inl same ↦
      let pq : p ≡ q = ==→eq p q same in
      rw (same, ← pq, get_elem?-set_self ss p t (get_elem?-lt ss p e), e, o, c) refl
  | inr other ↦ rw (other, get_elem?-set_ne ss p q t (λ pq. ground arith)) (omega arith)
]

exits_alive : (p : ℕ) (ps : List ℕ) (o : Option PeerState) → count p (p ∷ ps) ≤ live o → live o ≡ 1
exits_alive p ps o h = let b = live_bound o in ground arith

pub retire-Retired :
    (ps : List ℕ) (m : PeerManager)
    → ((p : ℕ) → count p ps ≤ live (get_elem? m.peers_state p))
    → (n : PeerManager) × (retire ps m ≡ ok n) × Retired ps m n
unfolding retire
retire-Retired [] m h = (m, refl, record { states = λ p. omega arith; many = refl; tried = refl })
retire-Retired (p ∷ ps) m h =
    let alive = exits_alive p ps (get_elem? m.peers_state p) (h p) in
    elim (Option-cases (get_elem? m.peers_state p)) [
      | inl e ↦ absurd (let dead : live none ≡ 1 = rw e at alive in omega arith)
      | inr (s, e) ↦
          let connected : live (some s) ≡ 1 = rw e at alive in
          let (t, next, off, same) = exit-state s connected in
          let m1 = record m {
            piece_manager = PieceManager.remove_peer p m.piece_manager;
            peers_state = set m.peers_state p t;
          } in
          let (n, r, z) =
            retire-Retired ps m1
              (λ q. omega (arith, set-live p q m.peers_state s t e connected off, h q)) in
          (
            n,
            rw e (rw next r),
            record {
              states =
                  λ q. omega (arith, set-live p q m.peers_state s t e connected off, z.states q);
              many = z.many ∙ length-set m.peers_state p t;
              tried = z.tried ∙ total_attempts-set m.peers_state p s t e same;
            },
          )
    ]
