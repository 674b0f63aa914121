-- ===== src/PieceManager/Pick.antt =====
-- The `do` loop of `handle_buffer_full_or_no_piece_to_add` in src/piece_manager.cpp, which goes round
-- the pieces in the buffer from a random start.
use native.Mathlib.Nat.{mod-eq_of_lt, mod_self}
use simpletorrent.Base.{
  ℕ, zero, suc, ◌+◌, ◌-◌, ◌%◌, ◌≤◌, ◌<◌, ◌≡◌, refl, ap, ◌∙◌, inl, inr, ◌⊎◌, true, false, Option,
  none, some, List, length, get_elem?, ◌==◌, if◌then◌else◌, Result, ok, arith, ltb, Bool-cases,
  get_elem?-some, get_elem?-lt, ==→eq,
}
use simpletorrent.Types.{PeerPieceState, have, dont_have, peer_has}
use simpletorrent.PieceManager.{pick_from}

-- One step round a list of `n` entries.
next_index :
    (i n : ℕ) → i < n → ((i + 1 < n) × ((i + 1) % n ≡ i + 1)) ⊎ ((i + 1 ≡ n) × ((i + 1) % n ≡ 0))
next_index i n h = elim (Bool-cases (i + 1 == n)) [
  | inl e ↦ let last : i + 1 ≡ n = ==→eq (i + 1) n e in inr (last, rw last (mod_self n))
  | inr e ↦ let more : i + 1 < n = ground arith in inl (more, mod-eq_of_lt more)
]

-- Index `i` is `w` steps round from the start.
abbrev pub Round : ℕ → ℕ → ℕ → ℕ → Type 0
Round n start i w = (i ≡ start + w) ⊎ (i + n ≡ start + w)

module _ (n start i v : ℕ) (h : i < n) (s : start < n) (r : Round n start i v) where
  Round-next : v < n → Round n start ((i + 1) % n) (v + 1)
  Round-next l = elim (next_index i n h) [
    | inl (more, e) ↦ rw e (omega arith)
    | inr (last, e) ↦ rw e (omega arith)
  ]

  round_stop : v < n → (i + 1) % n ≡ start → v + 1 ≡ n
  round_stop l e = omega (arith, next_index i n h)

  round_end : v + 1 ≡ n → (i + 1) % n ≡ start
  round_end e = omega (arith, next_index i n h)

  Round-unique : (j w : ℕ) → j < n → Round n start j w → w ≡ v → j ≡ i
  Round-unique j w l q e = omega arith

module _ (ps : List ℕ) (bitfield : List PeerPieceState) (start : ℕ) (begins : start < length ps)
    (bounded : (i k : ℕ) → get_elem? ps i ≡ some k → k < length bitfield) where
  -- From `v` steps on: a piece of the list that the peer has, or the peer has none of those left.
  abbrev Picks : ℕ → Result (Option ℕ) → Type 0
  Picks v r =
      ((k : ℕ) × (j : ℕ) × (r ≡ ok (some k))
        × (get_elem? ps j ≡ some k)
        × (get_elem? bitfield k ≡ some have))
      ⊎ ((r ≡ ok none)
          × ((j k w : ℕ)
              → v ≤ w
              → w < length ps
              → j < length ps
              → Round (length ps) start j w
              → get_elem? ps j ≡ some k
              → get_elem? bitfield k ≡ some dont_have))

  not_have : (x : PeerPieceState) → peer_has x ≡ false → x ≡ dont_have
  not_have have e = ground arith
  not_have dont_have e = refl

  is_have_state : (x : PeerPieceState) → peer_has x ≡ true → x ≡ have
  is_have_state have e = refl
  is_have_state dont_have e = ground arith

  -- The entry that is met after `w` steps, where `w` is the number of steps to `i`.
  at_index :
      (i v : ℕ)
      → i < length ps
      → Round (length ps) start i v
      → (j l w : ℕ) → j < length ps
      → Round (length ps) start j w
      → get_elem? ps j ≡ some l
      → {k : ℕ} → get_elem? bitfield k ≡ some dont_have
      → w ≡ v
      → get_elem? ps i ≡ some k
      → get_elem? bitfield l ≡ some dont_have
  at_index i v inside at_v j l w jn at_w h here e g =
      let same : j ≡ i = Round-unique (length ps) start i v inside begins at_v j w jn at_w e in
      ground arith

  turns_left :
      (i v fuel : ℕ)
      → i < length ps
      → Round (length ps) start i v
      → suc fuel + v ≡ length ps
      → ((i + 1) % length ps == start) ≡ false
      → 0 < fuel
  turns_left i v zero inside at_v count go =
      let back = round_end (length ps) start i v inside begins at_v (omega arith) in ground arith
  turns_left i v (suc fuel) inside at_v count go = omega arith

  pick-Round :
      (fuel i v : ℕ)
      → i < length ps
      → Round (length ps) start i v
      → fuel + v ≡ length ps
      → 0 < fuel
      → Picks v (pick_from fuel ps bitfield start i)
  unfolding pick_from
  pick-Round zero i v inside at_v count some_fuel = absurd (omega arith)
  pick-Round (suc fuel) i v inside at_v count some_fuel =
      let (k, g) = get_elem?-some ps i inside in
      let (b, e) = get_elem?-some bitfield k (bounded i k g) in
      elim (Bool-cases (peer_has b)) [
        | inl yes_ ↦ inl (k, i, rw (g, e, yes_) refl, g, e ∙ ap some (is_have_state b yes_))
        | inr no_ ↦
            let here : get_elem? bitfield k ≡ some dont_have = e ∙ ap some (not_have b no_) in
            elim (Bool-cases ((i + 1) % length ps == start)) [
              | inl stop ↦ inr (
                rw (g, e, no_, stop) refl,
                λ j l w low high jn at_w h.
                    at_index i v inside at_v j l w jn at_w h here
                      (omega (
                        arith,
                        round_stop (length ps) start i v inside begins at_v (omega arith)
                            (==→eq _ _ stop),
                      ))
                      g,
              )
              | inr go ↦
                  elim (pick-Round fuel ((i + 1) % length ps) (v + 1)
                    (omega (arith, next_index i (length ps) inside))
                    (Round-next (length ps) start i v inside begins at_v (omega arith))
                    (omega arith) (turns_left i v fuel inside at_v count go)) [
                      | inl (l, j, r, p, q) ↦ inl (l, j, rw (g, e, no_, go) r, p, q)
                      | inr (r, rest) ↦ inr (
                        rw (g, e, no_, go) r,
                        λ j l w low high jn at_w h. elim (Bool-cases (w == v)) [
                          | inl same ↦
                              at_index i v inside at_v j l w jn at_w h here (==→eq w v same) g
                          | inr other ↦ rest j l w (ground arith) high jn at_w h
                        ],
                      )
                    ]
            ]
      ]

  -- If the bitfield has an entry for each piece of the list and the start is in the list, the loop
  -- ends within as many rounds as the list has entries. It yields a piece of the list that
  -- the peer has; it yields none only if the peer has no piece of the list.
  pub pick_from-Picks :
      ((k : ℕ) × (j : ℕ) × (pick_from (length ps) ps bitfield start start ≡ ok (some k))
        × (get_elem? ps j ≡ some k)
        × (get_elem? bitfield k ≡ some have))
      ⊎ ((pick_from (length ps) ps bitfield start start ≡ ok none)
          × ((j k : ℕ) → get_elem? ps j ≡ some k → get_elem? bitfield k ≡ some dont_have))
  pick_from-Picks =
      elim (pick-Round (length ps) start 0 begins (omega arith) (omega arith) (omega arith)) [
        | inl found ↦ inl found
        | inr (r, rest) ↦ inr (
          r,
          λ j k g.
              let w = if ltb j start then j + length ps - start else j - start in
              let jn = get_elem?-lt ps j g in
              rest j k w (omega arith) (ground arith) jn (ground arith) g,
        )
      ]
