-- ===== src/PieceManager/Choose.antt =====
-- How `select_next_block` of src/piece_manager.cpp chooses a piece: a new one for the buffer, or one
-- of those in the buffer.
use simpletorrent.Base.{
  ℕ, suc, ◌+◌, ◌≡◌, refl, ap, ◌∙◌, inl, inr, ◌⊎◌, true, false, ◌&&◌, none, some, List, [], ◌∷◌,
  length, get_elem?, map, all_of, ◌==◌, ok, arith, Bool-cases, ==→eq, length-map, get_elem?-map,
}
use simpletorrent.Types.{
  PieceState, not_started, all_requested, buffered, completed, PeerPieceState, PieceMetadata,
  BlockState, is_have, peer_has, is_not_started, is_all_requested,
}
use simpletorrent.Buffer.{Buffer, is_full, reopen}
use simpletorrent.Buffer.Held.{held}
use simpletorrent.Buffer.Blocks.{clear_all_requested_lem}
use simpletorrent.Buffer.Slots.{Adds, add_piece_to_buffer-Adds}
use simpletorrent.PieceManager.{PieceManager, find_startable, start_piece, take_up}
use simpletorrent.Base.Maps.{insert, AllValues-insert}
use simpletorrent.PieceManager.Invariant.{Inv, IsHeld, update-Inv, affinity-Inv}
use simpletorrent.PieceManager.States.{set_state_lem, within-Inv, not_held, started, started-Inv}
use simpletorrent.PieceManager.Request.{
  SameFiles, SameFiles-of, SameFiles-set, in_buffer-not_completed,
}
use simpletorrent.PieceManager.Requests.{Keeps, Updates-Keeps}

-- The search for a new piece does not throw when the bitfield has an entry for each piece, and what
-- it finds is a piece that is not started and that the peer has.
pub find_startable_lem :
    (bs : List PeerPieceState) (ps : List PieceMetadata) (i : ℕ)
    → length bs ≡ length ps
    → (find_startable bs ps i ≡ ok none)
      ⊎ ((j : ℕ) × (m : PieceMetadata) × (find_startable bs ps i ≡ ok (some (i + j)))
          × (get_elem? ps j ≡ some m)
          × (m.state ≡ not_started)
          × (get_elem? bs j ≡ some PeerPieceState.have))
unfolding find_startable
find_startable_lem [] ps i h = inl refl
find_startable_lem (b ∷ bs) [] i h = absurd (omega arith)
find_startable_lem (b ∷ bs) (p ∷ ps) i h =
    elim (Bool-cases (is_not_started p.state && peer_has b)) [
      | inl e ↦ inr (
        0,
        p,
        rw e (ap (λ (x : ℕ). ok (some x)) (omega arith)),
        refl,
        fresh p.state (ground arith),
        ap some (has b (ground arith)),
      )
      | inr e ↦ elim (find_startable_lem bs ps (i + 1) (omega arith)) [
        | inl r ↦ inl (rw e r)
        | inr (j, m, r, g, f, w) ↦
            inr (suc j, m, rw (e, r) (ap (λ (x : ℕ). ok (some x)) (omega arith)), g, f, w)
      ]
    ]
  where
    fresh : (st : PieceState) → is_not_started st ≡ true → st ≡ not_started
    fresh not_started e = refl
    fresh all_requested e = ground arith
    fresh buffered e = ground arith
    fresh completed e = ground arith

    has : (x : PeerPieceState) → peer_has x ≡ true → x ≡ PeerPieceState.have
    has PeerPieceState.have e = refl
    has PeerPieceState.dont_have e = ground arith

-- A choice: the invariant holds, the buffer keeps what it has, and the chosen piece is in it.
pub record Chooses (pm : PieceManager) (k : ℕ) (qm : PieceManager) : Type 0 where
  pub inv : Inv qm
  pub keeps : Keeps pm.buffer qm.buffer
  pub same_files : SameFiles pm qm
  pub chosen : IsHeld qm.buffer k

Adds-Keeps : (b c : Buffer) (k n l : ℕ) → held b k ≡ none → Adds b k n l c → Keeps b c
Adds-Keeps b c k n l out a j s h = elim (Bool-cases (k == j)) [
  | inl q ↦ let kj : k ≡ j = ==→eq k j q in ground arith
  | inr q ↦ (s, a.holds j ∙ rw q h, refl, λ i w. w)
]

-- Starting a piece that is not started, with room in the buffer.
pub start_piece-Chooses :
    (pm : PieceManager) (peer k : ℕ) (m : PieceMetadata)
    → Inv pm
    → get_elem? pm.pieces k ≡ some m
    → m.state ≡ not_started
    → is_full pm.buffer ≡ false
    → (qm : PieceManager) × (start_piece peer k pm ≡ ok qm) × Chooses pm k qm
unfolding start_piece started
start_piece-Chooses pm peer k m v g fresh room =
    let out = not_held pm k m buffered v g (ground arith) in
    let (c, e, a) =
      add_piece_to_buffer-Adds pm.buffer k m.num_blocks m.current_piece_length v.buffer_valid out
        room in
    let self : (k == k) ≡ true = ground arith in
    (
      started pm k m v g peer c fresh a,
      rw (g, e) (rw (set_state_lem (record pm { buffer = c }) k m buffered g) refl),
      record {
        inv = started-Inv pm k m v g peer c fresh a;
        keeps = Adds-Keeps pm.buffer c k m.num_blocks m.current_piece_length out a;
        same_files =
            SameFiles-set pm _ k m buffered g (λ e. ground arith) (λ e. ground arith) refl refl refl
              refl refl;
        chosen = (a.piece, a.holds k ∙ rw self refl);
      },
    )

reopen-not_have :
    (blocks : List BlockState)
    → all_of is_have blocks ≡ false
    → all_of is_have (map reopen blocks) ≡ false
unfolding reopen
reopen-not_have [] h = ground arith
reopen-not_have (b ∷ bs) h = ground (arith, reopen-not_have bs)

-- Taking up a piece of the buffer, with its requests opened again if none was left to make.
pub take_up-Chooses :
    (pm : PieceManager) (peer k : ℕ)
    → Inv pm
    → IsHeld pm.buffer k
    → (qm : PieceManager) × (take_up peer k pm ≡ ok qm) × Chooses pm k qm
unfolding take_up
take_up-Chooses pm peer k v (s, h) =
    let (m, g, inside, f) = v.holds k s h in
    let aff = insert peer k pm.peer_piece_affinity_map in
    let am = record pm { peer_piece_affinity_map = aff } in
    let va =
      affinity-Inv pm aff v
        (AllValues-insert (IsHeld pm.buffer) peer k pm.peer_piece_affinity_map (s, h) v.affinity) in
    elim (Bool-cases (is_all_requested m.state)) [
      | inr no_ ↦ (
        am,
        rw (g, no_) refl,
        record {
          inv = va;
          keeps = λ j r e. (r, e, refl, λ i w. w);
          same_files = SameFiles-of pm _ refl refl refl refl refl;
          chosen = (s, h);
        },
      )
      | inl all ↦
          let (c, e, u) = clear_all_requested_lem pm.buffer k s v.buffer_valid h in
          let t = record s { blocks_state = map reopen s.blocks_state } in
          let vc =
            update-Inv am k s t c va h u (length-map reopen s.blocks_state) refl
              (reopen-not_have s.blocks_state f.unfinished) in
          let self : (k == k) ≡ true = ground arith in
          (
            _,
            rw (g, all) (rw e (rw (set_state_lem (record am { buffer = c }) k m buffered g) refl)),
            record {
              inv = within-Inv (record am { buffer = c }) k m buffered vc g inside refl;
              keeps = Updates-Keeps pm.buffer c k s t h u refl (λ i w.
                  get_elem?-map reopen s.blocks_state i BlockState.have w ∙ unfold reopen in refl);
              same_files =
                  SameFiles-set pm _ k m buffered g
                    (in_buffer-not_completed m.state buffered inside) (λ e. ground arith) refl refl
                    refl refl refl;
              chosen = (t, u.holds k ∙ rw self refl);
            },
          )
    ]
