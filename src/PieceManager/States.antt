-- ===== src/PieceManager/States.antt =====
-- The invariant when a piece of src/piece_manager.cpp changes its state: within the buffer, into it
-- (`handle_buffer_not_full_case`) and out of it (`add_block`).
use simpletorrent.Base.{
  ℕ, zero, suc, ◌+◌, ◌^◌, ◌<◌, ◌≡◌, refl, sym, ap, ◌∙◌, subst, inl, inr, ◌⊎◌, true, false, none,
  some, List, length, get_elem?, set, replicate, count_if, all_of, ◌==◌, if◌then◌else◌, ok, arith,
  Bool-cases, Option-cases, ==→eq, length-set, get_elem?-set_self, get_elem?-set_ne, get_elem?-lt,
  count_if-set, length-replicate,
}
use simpletorrent.Base.Division.{ceil_pos}
use simpletorrent.Base.Maps.{
  insert, erase_if, AllValues, AllValues-insert, AllValues-erase_if, AllValues-mono,
}
use simpletorrent.Types.{
  PieceState, not_started, buffered, PeerPieceState, PieceMetadata, BlockState, is_have,
  is_completed,
}
use simpletorrent.Buffer.{Buffer, BufferPiece}
use simpletorrent.Buffer.Held.{held, IsValid}
use simpletorrent.Buffer.Slots.{Adds}
use simpletorrent.PieceManager.{PieceManager, set_state}
use simpletorrent.PieceManager.Invariant.{Inv, HasShape, Fits, IsHeld, is_in_buffer, has_completed}
use simpletorrent.FileManager.{FileManager}

pub set_state_lem :
    (pm : PieceManager) (k : ℕ) (m : PieceMetadata) (st : PieceState)
    → get_elem? pm.pieces k ≡ some m
    → set_state k st pm ≡ ok (record pm { pieces = set pm.pieces k (record m { state = st }) })
unfolding set_state
set_state_lem pm k m st g = rw g refl

-- An entry after the write at `k`: the new one, or an old one elsewhere.
pub get-set-cases :
    (ps : List PieceMetadata) (k j : ℕ) (m n r : PieceMetadata)
    → get_elem? ps k ≡ some m
    → get_elem? (set ps k n) j ≡ some r
    → ((k ≡ j) × (n ≡ r)) ⊎ (((k == j) ≡ false) × (get_elem? ps j ≡ some r))
get-set-cases ps k j m n r g h = elim (Bool-cases (k == j)) [
  | inl q ↦
      let kj : k ≡ j = ==→eq k j q in
      let self : get_elem? (set ps k n) j ≡ some n =
        subst (λ (i : ℕ). get_elem? (set ps k n) i ≡ some n) kj
          (get_elem?-set_self ps k n (get_elem?-lt ps k g)) in
      inl (kj, ground arith)
  | inr q ↦ inr (q, sym (get_elem?-set_ne ps k j n (λ (kj : k ≡ j). ground arith)) ∙ h)
]

pub get_elem?-set_other :
    (ps : List PieceMetadata) (k j : ℕ) (n : PieceMetadata)
    → (k == j) ≡ false
    → get_elem? (set ps k n) j ≡ get_elem? ps j
get_elem?-set_other ps k j n q = get_elem?-set_ne ps k j n (λ (kj : k ≡ j). ground arith)

module _ (pm : PieceManager) (k : ℕ) (m : PieceMetadata) (st : PieceState) (v : Inv pm)
    (g : get_elem? pm.pieces k ≡ some m) where
  abbrev moved : PieceMetadata
  moved = record m { state = st }

  abbrev moved_pieces : List PieceMetadata
  moved_pieces = set pm.pieces k moved

  moved_shaped :
      (j : ℕ) (r : PieceMetadata) → get_elem? moved_pieces j ≡ some r → HasShape pm.block_length r
  moved_shaped j r e = elim (get-set-cases pm.pieces k j m moved r g e) [
    | inl (kj, eq) ↦
        let sh = v.shaped k m g in
        subst (HasShape pm.block_length) eq
          (record { some_bytes = sh.some_bytes; small = sh.small; blocks = sh.blocks })
    | inr (_, h) ↦ v.shaped j r h
  ]

  moved_few : length moved_pieces < 2 ^ 32
  moved_few = omega (arith, length-set pm.pieces k moved, v.few)

  moved_bitfields :
      AllValues
        (λ (bf : List PeerPieceState). length bf ≡ length moved_pieces)
        pm.peers_bitfield_map
  moved_bitfields = rw (length-set pm.pieces k moved) v.bitfields

  moved_counted :
      count_if has_completed moved_pieces + (if has_completed m then 1 else 0)
      ≡ pm.num_pieces_completed + (if is_completed st then 1 else 0)
  moved_counted = ground (arith, count_if-set has_completed pm.pieces k m moved g, v.counted)

  -- The state of a held piece changes within the buffer.
  pub within-Inv :
      is_in_buffer m.state ≡ true
      → is_in_buffer st ≡ true
      → Inv (record pm { pieces = moved_pieces })
  within-Inv old new = record {
    buffer_valid = v.buffer_valid;
    block_pos = v.block_pos;
    same_length = v.same_length;
    few = moved_few;
    drawn = v.drawn;
    shaped = moved_shaped;
    holds = λ j s h.
        let (r, e, i, f) = v.holds j s h in
        elim (Bool-cases (k == j)) [
          | inl q ↦
              let kj : k ≡ j = ==→eq k j q in
              let same : m ≡ r = ground arith in
              (
                moved,
                rw (← kj) (get_elem?-set_self pm.pieces k moved (get_elem?-lt pm.pieces k g)),
                new,
                let f' = subst (λ (x : PieceMetadata). Fits x s) (sym same) f in
                    record { blocks = f'.blocks; size = f'.size; unfinished = f'.unfinished },
              )
          | inr q ↦ (r, get_elem?-set_other pm.pieces k j moved q ∙ e, i, f)
        ];
    kept = λ j r e i. elim (get-set-cases pm.pieces k j m moved r g e) [
      | inl (kj, eq) ↦ subst (IsHeld pm.buffer) kj (v.kept k m g old)
      | inr (_, h) ↦ v.kept j r h i
    ];
    affinity = v.affinity;
    bitfields = moved_bitfields;
    counted = ground (arith, moved_counted);
  }

  -- A piece that is not started is not in the buffer.
  pub not_held : is_in_buffer m.state ≡ false → held pm.buffer k ≡ none
  not_held out = elim (Option-cases (held pm.buffer k)) [
    | inl e ↦ e
    | inr (s, e) ↦
        let (r, h, i, _) = v.holds k s e in let same : m ≡ r = ground arith in ground arith
  ]

  some_blocks : 0 < m.num_blocks
  some_blocks =
      let sh = v.shaped k m g in
      omega (
        arith,
        sh.blocks,
        ceil_pos m.current_piece_length pm.block_length v.block_pos sh.some_bytes,
      )

all_missing : (n : ℕ) → 0 < n → all_of is_have (replicate n BlockState.dont_have) ≡ false
all_missing zero h = absurd (omega arith)
all_missing (suc n) h = refl

-- The state after `start_piece`: a piece with fresh blocks is in the buffer, and is the peer's
-- affinity piece.
module _ (pm : PieceManager) (k : ℕ) (m : PieceMetadata) (v : Inv pm)
    (g : get_elem? pm.pieces k ≡ some m) (peer : ℕ) (c : Buffer) (fresh : m.state ≡ not_started)
    (a : Adds pm.buffer k m.num_blocks m.current_piece_length c) where
  fresh-Fits : Fits m a.piece
  fresh-Fits = record {
    blocks = ap length a.fresh.blocks ∙ length-replicate m.num_blocks BlockState.dont_have;
    size = a.fresh.size;
    unfinished =
        ap (all_of is_have) a.fresh.blocks
        ∙ all_missing m.num_blocks (some_blocks pm k m buffered v g);
  }

  added-IsHeld : (j : ℕ) → IsHeld pm.buffer j → IsHeld c j
  added-IsHeld j (r, e) = elim (Bool-cases (k == j)) [
    | inl q ↦ (a.piece, a.holds j ∙ rw q refl)
    | inr q ↦ (r, a.holds j ∙ rw q e)
  ]

  new-IsHeld : IsHeld c k
  new-IsHeld = let self : (k == k) ≡ true = ground arith in (a.piece, a.holds k ∙ rw self refl)

  unfoldable pub started : PieceManager
  started = record pm {
    buffer = c;
    pieces = set pm.pieces k (record m { state = buffered });
    peer_piece_affinity_map = insert peer k pm.peer_piece_affinity_map;
  }

  started-holds :
      (j : ℕ) (s : BufferPiece)
      → held c j ≡ some s
      → (r : PieceMetadata) × (get_elem? (set pm.pieces k (record m { state = buffered })) j
          ≡ some r)
        × (is_in_buffer r.state ≡ true)
        × Fits r s
  started-holds j s h = elim (Bool-cases (k == j)) [
    | inl q ↦
        let kj : k ≡ j = ==→eq k j q in
        let same : a.piece ≡ s = ground (arith, a.holds j) in
        let f = subst (Fits m) same fresh-Fits in
        (
          record m { state = buffered },
          rw (← kj) (get_elem?-set_self pm.pieces k _ (get_elem?-lt pm.pieces k g)),
          refl,
          record { blocks = f.blocks; size = f.size; unfinished = f.unfinished },
        )
    | inr q ↦
        let (r, e, i, f) = v.holds j s (sym (rw q at (a.holds j)) ∙ h) in
        (r, get_elem?-set_other pm.pieces k j _ q ∙ e, i, f)
  ]

  pub started-Inv : Inv started
  unfolding started
  started-Inv = record {
    buffer_valid = a.valid;
    block_pos = v.block_pos;
    same_length = a.same_length ∙ v.same_length;
    few = moved_few pm k m buffered v g;
    drawn = v.drawn;
    shaped = moved_shaped pm k m buffered v g;
    holds = started-holds;
    kept = λ j r e i. elim (get-set-cases pm.pieces k j m _ r g e) [
      | inl (kj, eq) ↦ subst (IsHeld c) kj new-IsHeld
      | inr (_, h) ↦ added-IsHeld j (v.kept j r h i)
    ];
    affinity =
        AllValues-insert (IsHeld c) peer k pm.peer_piece_affinity_map new-IsHeld
          (AllValues-mono (IsHeld pm.buffer) (IsHeld c) _ added-IsHeld v.affinity);
    bitfields = moved_bitfields pm k m buffered v g;
    counted = ground (arith, moved_counted pm k m buffered v g);
  }

-- The state after a complete piece has left the buffer, with its state `st` and with what the
-- completed branch does to the counters and to the file manager.
module _ (pm : PieceManager) (k : ℕ) (m : PieceMetadata) (st : PieceState) (v : Inv pm)
    (g : get_elem? pm.pieces k ≡ some m) (d : Buffer) (fm : FileManager) (total : ℕ)
    (old : is_in_buffer m.state ≡ true) (new : is_in_buffer st ≡ false)
    (gone : (j : ℕ) → held d j ≡ (if k == j then none else held pm.buffer j)) (valid : IsValid d)
    (same : d.block_length ≡ pm.buffer.block_length) where
  unfoldable pub left : PieceManager
  left = record pm {
    buffer = d;
    pieces = set pm.pieces k (record m { state = st });
    peer_piece_affinity_map = erase_if (λ j. j == k) pm.peer_piece_affinity_map;
    num_pieces_completed = pm.num_pieces_completed + (if is_completed st then 1 else 0);
    file_manager = fm;
    pieces_completed = total;
  }

  others-IsHeld : (j : ℕ) → IsHeld pm.buffer j × ((j == k) ≡ false) → IsHeld d j
  others-IsHeld j ((s, h), q) = let q' : (k == j) ≡ false = ground arith in (s, gone j ∙ rw q' h)

  left-holds :
      (j : ℕ) (s : BufferPiece)
      → held d j ≡ some s
      → (r : PieceMetadata) × (get_elem? (set pm.pieces k (record m { state = st })) j ≡ some r)
        × (is_in_buffer r.state ≡ true)
        × Fits r s
  left-holds j s h = elim (Bool-cases (k == j)) [
    | inl q ↦ ground (arith, gone j)
    | inr q ↦
        let (r, e, i, f) = v.holds j s (sym (rw q at (gone j)) ∙ h) in
        (r, get_elem?-set_other pm.pieces k j _ q ∙ e, i, f)
  ]

  pub left-Inv : Inv left
  unfolding left
  left-Inv = record {
    buffer_valid = valid;
    block_pos = v.block_pos;
    same_length = same ∙ v.same_length;
    few = moved_few pm k m st v g;
    drawn = v.drawn;
    shaped = moved_shaped pm k m st v g;
    holds = left-holds;
    kept = λ j r e i. elim (get-set-cases pm.pieces k j m _ r g e) [
      | inl (kj, eq) ↦
          let out : is_in_buffer r.state ≡ false =
            subst (λ (x : PieceMetadata). is_in_buffer x.state ≡ false) eq new in
          ground arith
      | inr (q, h) ↦
          let q' : (j == k) ≡ false = ground arith in others-IsHeld j (v.kept j r h i, q')
    ];
    affinity =
        AllValues-mono (λ (j : ℕ). IsHeld pm.buffer j × ((j == k) ≡ false)) (IsHeld d) _
          others-IsHeld
          (AllValues-erase_if (IsHeld pm.buffer) (λ (j : ℕ). j == k) pm.peer_piece_affinity_map
            v.affinity);
    bitfields = moved_bitfields pm k m st v g;
    counted = ground (arith, moved_counted pm k m st v g);
  }
