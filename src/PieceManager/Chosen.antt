-- ===== src/PieceManager/Chosen.antt =====
-- How `select_next_block` of src/piece_manager.cpp comes by a piece: `choose_piece`, with the buffer's
-- two cases (`handle_buffer_not_full_case` and `handle_buffer_full_or_no_piece_to_add`).
use simpletorrent.Base.{
  ℕ, ◌+◌, ◌<◌, ◌≡◌, refl, ◌∙◌, subst, inl, inr, ◌⊎◌, true, false, Option, none, some, List, length,
  get_elem?, Result, ok, arith, ltb, Bool-cases, Option-cases, get_elem?-lt, ltb→lt,
}
use simpletorrent.Base.Maps.{find, contains, keys, find_of_contains, AllValues-find, keys-find}
use simpletorrent.Types.{PeerPieceState}
use simpletorrent.FastRandom.{draw, draw_bounds}
use simpletorrent.Buffer.{Buffer, is_full, get_pieces_in_buffer}
use simpletorrent.Buffer.Held.{held_of_find}
use simpletorrent.PieceManager.{
  Platform, PieceManager, handle_buffer_not_full_case, handle_buffer_full_or_no_piece_to_add,
  choose_own, choose_piece,
}
use simpletorrent.PieceManager.Laws.{IsPlatform}
use simpletorrent.PieceManager.Invariant.{Inv, IsHeld, rng-Inv}
use simpletorrent.PieceManager.Request.{SameFiles, SameFiles-of, KeepsPieces}
use simpletorrent.PieceManager.Requests.{Keeps}
use simpletorrent.PieceManager.Choose.{
  Chooses, find_startable_lem, start_piece-Chooses, take_up-Chooses,
}
use simpletorrent.PieceManager.Pick.{pick_from-Picks}

-- The state after a choice: as after `Chooses`, where a piece was chosen.
pub record Ready (pm : PieceManager) (c : Option ℕ) (qm : PieceManager) : Type 0 where
  pub inv : Inv qm
  pub keeps : Keeps pm.buffer qm.buffer
  pub same_files : SameFiles pm qm
  pub chosen : (k : ℕ) → c ≡ some k → IsHeld qm.buffer k

abbrev pub Returns : PieceManager → Result (Option ℕ × PieceManager) → Type 0
Returns pm r = (c : Option ℕ) × (qm : PieceManager) × (r ≡ ok (c, qm)) × Ready pm c qm

Keeps-refl : (b : Buffer) → Keeps b b
Keeps-refl b j s h = (s, h, refl, λ i w. w)

pub Keeps-trans : (a b c : Buffer) → Keeps a b → Keeps b c → Keeps a c
Keeps-trans a b c f g j s h =
    let (t, ht, pt, kt) = f j s h in
    let (u, hu, pu, ku) = g j t ht in (u, hu, pu ∙ pt, λ i w. ku i (kt i w))

KeepsPieces-trans : (a b c : PieceManager) → KeepsPieces a b → KeepsPieces b c → KeepsPieces a c
KeepsPieces-trans a b c f g k m e =
    let (n, en, hn, ln, dn) = f k m e in
    let (o, eo, ho, lo, do_) = g k n en in (o, eo, ho ∙ hn, lo ∙ ln, λ d. do_ (dn d))

pub SameFiles-trans : (a b c : PieceManager) → SameFiles a b → SameFiles b c → SameFiles a c
SameFiles-trans a b c f g = record {
  pieces_length = g.pieces_length ∙ f.pieces_length;
  same_pieces = KeepsPieces-trans a b c f.same_pieces g.same_pieces;
  completes_none =
      λ k n e d. let (m, em, dm) = g.completes_none k n e d in f.completes_none k m em dm;
  piece_length = g.piece_length ∙ f.piece_length;
  block_length = g.block_length ∙ f.block_length;
  files = g.files ∙ f.files;
  completed = g.completed ∙ f.completed;
}

pub Ready-none : (pm : PieceManager) → Inv pm → Ready pm none pm
Ready-none pm v = record {
  inv = v;
  keeps = Keeps-refl pm.buffer;
  same_files = SameFiles-of pm _ refl refl refl refl refl;
  chosen = λ k e. ground arith;
}

Ready-some :
    (pm : PieceManager) (k : ℕ) (qm : PieceManager) → Chooses pm k qm → Ready pm (some k) qm
Ready-some pm k qm c = record {
  inv = c.inv;
  keeps = c.keeps;
  same_files = c.same_files;
  chosen = λ j e. let kj : k ≡ j = ground arith in subst (IsHeld qm.buffer) kj c.chosen;
}

module _ (platform : Platform) (law : IsPlatform platform) (peer : ℕ) where
  -- The bitfield of a registered peer has an entry for each piece.
  bitfield_of :
      (pm : PieceManager)
      → Inv pm
      → contains peer pm.peers_bitfield_map ≡ true
      → (bf : List PeerPieceState) × (find peer pm.peers_bitfield_map ≡ some bf)
        × (length bf ≡ length pm.pieces)
  bitfield_of pm v known =
      let (bf, e) = find_of_contains peer pm.peers_bitfield_map known in
      (bf, e, AllValues-find _ peer bf pm.peers_bitfield_map v.bitfields e)

  -- No piece is chosen and nothing changes, or one is.
  abbrev Own : PieceManager → Result (Option ℕ × PieceManager) → Type 0
  Own pm r =
      (r ≡ ok (none, pm))
      ⊎ ((k : ℕ) × (qm : PieceManager) × (r ≡ ok (some k, qm)) × Chooses pm k qm)

  not_full-Own :
      (pm : PieceManager)
      → Inv pm
      → contains peer pm.peers_bitfield_map ≡ true
      → is_full pm.buffer ≡ false
      → Own pm (handle_buffer_not_full_case peer pm)
  unfolding handle_buffer_not_full_case
  not_full-Own pm v known room =
      let (bf, e, n) = bitfield_of pm v known in
      elim (find_startable_lem bf pm.pieces 0 n) [
        | inl nothing_ ↦ inl (rw (e, nothing_) refl)
        | inr (j, m, r, g, fresh, _) ↦
            let (qm, run, c) = start_piece-Chooses pm peer j m v g fresh room in
            let from_zero : 0 + j ≡ j = omega arith in
            inr (j, qm, rw e (rw r (rw from_zero (rw run refl))), c)
      ]

  choose_own-Own :
      (pm : PieceManager)
      → Inv pm
      → contains peer pm.peers_bitfield_map ≡ true
      → Own pm (choose_own peer pm)
  unfolding choose_own
  choose_own-Own pm v known = elim (Option-cases (find peer pm.peer_piece_affinity_map)) [
    | inr (k, e) ↦ inr (
      k,
      pm,
      rw (e, choose_own) refl,
      record {
        inv = v;
        keeps = Keeps-refl pm.buffer;
        same_files = (Ready-none pm v).same_files;
        chosen = AllValues-find (IsHeld pm.buffer) peer k pm.peer_piece_affinity_map v.affinity e;
      },
    )
    | inl e ↦ elim (Bool-cases (is_full pm.buffer)) [
      | inl full ↦ inl (rw (e, choose_own) (rw full refl))
      | inr room ↦ rw (e, choose_own) (rw room (not_full-Own pm v known room))
    ]
  ]

  -- Each piece that the iteration of the buffer's map meets is held, and has an entry in a bitfield.
  met :
      (pm : PieceManager)
      → Inv pm
      → (i k : ℕ) → get_elem? (get_pieces_in_buffer platform.order pm.buffer) i ≡ some k
      → IsHeld pm.buffer k × (k < length pm.pieces)
  unfolding get_pieces_in_buffer
  met pm v i k g =
      let (j, h) = law.meets (keys pm.buffer.piece_buffer_map) i k g in
      let (l, e) =
        find_of_contains k pm.buffer.piece_buffer_map
          (keys-find pm.buffer.piece_buffer_map j k h) in
      let (s, held_k, _, _, _) = held_of_find pm.buffer k l v.buffer_valid e in
      let (m, at_k, _, _) = v.holds k s held_k in ((s, held_k), get_elem?-lt pm.pieces k at_k)

  full-Returns :
      (pm : PieceManager)
      → Inv pm
      → contains peer pm.peers_bitfield_map ≡ true
      → Returns pm (handle_buffer_full_or_no_piece_to_add platform peer pm)
  unfolding handle_buffer_full_or_no_piece_to_add
  full-Returns pm v known =
      let (bf, e, n) = bitfield_of pm v known in
      let ps = get_pieces_in_buffer platform.order pm.buffer in
      elim (Bool-cases (ltb 0 (length ps))) [
        | inr empty_ ↦ (none, pm, rw (e, empty_) refl, Ready-none pm v)
        | inl some_ ↦
            let rng = (draw (length ps) pm.rng).0 in
            let (_, small, inside) =
              draw_bounds (length ps) pm.rng (ltb→lt 0 (length ps) some_) v.drawn in
            let rm = record pm { rng = rng } in
            let vr = rng-Inv pm rng v small in
            elim (pick_from-Picks ps bf (draw (length ps) pm.rng).1 inside
              (λ i k g. omega (arith, (met pm v i k g).1, n))) [
                | inr (r, _) ↦ (
                  none,
                  rm,
                  rw (e, some_, r) refl,
                  record {
                    inv = vr;
                    keeps = Keeps-refl pm.buffer;
                    same_files = SameFiles-of pm _ refl refl refl refl refl;
                    chosen = λ k e. ground arith;
                  },
                )
                | inl (k, j, r, at_j, _) ↦
                    let (qm, run, c) = take_up-Chooses rm peer k vr (met pm v j k at_j).0 in
                    (
                      some k,
                      qm,
                      rw (e, some_, r) (rw run refl),
                      Ready-some pm k qm (record {
                        inv = c.inv;
                        keeps = c.keeps;
                        same_files = record {
                          pieces_length = c.same_files.pieces_length;
                          same_pieces = c.same_files.same_pieces;
                          completes_none = c.same_files.completes_none;
                          piece_length = c.same_files.piece_length;
                          block_length = c.same_files.block_length;
                          files = c.same_files.files;
                          completed = c.same_files.completed;
                        };
                        chosen = c.chosen;
                      }),
                    )
              ]
      ]

  pub choose_piece-Returns :
      (pm : PieceManager)
      → Inv pm
      → contains peer pm.peers_bitfield_map ≡ true
      → Returns pm (choose_piece platform peer pm)
  unfolding choose_piece
  choose_piece-Returns pm v known = elim (choose_own-Own pm v known) [
    | inl e ↦ rw e (full-Returns pm v known)
    | inr (k, qm, e, c) ↦ (some k, qm, rw e refl, Ready-some pm k qm c)
  ]
