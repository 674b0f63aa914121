-- ===== src/PieceManager/Finish.antt =====
-- `finish_piece`, the end of `add_block` in src/piece_manager.cpp: a piece whose blocks are all there
-- is verified and saved, or given up.
use simpletorrent.Base.{
  ℕ, ◌+◌, ◌*◌, ◌%◌, ◌^◌, ◌≡◌, refl, ap, ◌∙◌, inl, inr, ◌⊎◌, true, false, none, some, List, length,
  get_elem?, set, ◌==◌, list_eq, if◌then◌else◌, Result, ok, arith, Bool-cases, length-set,
  get_elem?-set_self, get_elem?-lt, count_if-set, count_if-le, list_eq→eq,
}
use native.Mathlib.Nat.{add-zero}
use simpletorrent.Types.{not_started, completed, PieceMetadata, is_completed}
use simpletorrent.Util.Hex.{hex_decode, hex_decode_total}
use simpletorrent.FileManager
use simpletorrent.FileManager.{FileManager}
use simpletorrent.Buffer.{Buffer, BufferPiece, remove_piece_from_buffer}
use simpletorrent.Buffer.Held.{held, IsValid}
use simpletorrent.Buffer.Slots.{remove_piece_from_buffer_lem}
use simpletorrent.Buffer.Blocks.{Updates}
use simpletorrent.PieceManager.{
  Platform, PieceManager, set_state, remove_affinity, is_verified_piece, save_piece, drop_piece,
  finish_piece,
}
use simpletorrent.PieceManager.Laws.{IsPlatform}
use simpletorrent.PieceManager.Invariant.{Inv, is_in_buffer, has_completed}
use simpletorrent.PieceManager.States.{left, left-Inv, get-set-cases}
use simpletorrent.PieceManager.Request.{
  KeepsPieces, CompletesNone, set-KeepsPieces, set-CompletesNone, in_buffer-not_completed,
}

-- The files to be written and the completed pieces stay, or one piece is saved: one that was not
-- completed and is now, whose bytes have its length and its hash.
pub data Saves (platform : Platform) (pm qm : PieceManager) : Type 0 where
  nothing :
      qm.file_manager ≡ pm.file_manager
      → qm.num_pieces_completed ≡ pm.num_pieces_completed
      → CompletesNone pm qm
      → Saves platform pm qm
  piece :
      (k : ℕ) (m : PieceMetadata) (bytes : List ℕ)
      → get_elem? pm.pieces k ≡ some m
      → is_completed m.state ≡ false
      → get_elem? qm.pieces k ≡ some (record m { state = completed })
      → length bytes ≡ m.current_piece_length
      → hex_decode (platform.sha1 bytes) ≡ ok m.piece_hash
      → qm.file_manager ≡ FileManager.save_piece (k * pm.piece_length) bytes pm.file_manager
      → qm.num_pieces_completed ≡ pm.num_pieces_completed + 1
      → ((j : ℕ) (n : PieceMetadata)
          → get_elem? qm.pieces j ≡ some n
          → n.state ≡ completed
          → (k ≡ j)
            ⊎ ((o : PieceMetadata) × (get_elem? pm.pieces j ≡ some o) × (o.state ≡ completed)))
      → Saves platform pm qm

-- The outcome of a call: the invariant holds, no piece changes but for its state, and what is saved
-- is verified.
pub record Settled (platform : Platform) (pm qm : PieceManager) : Type 0 where
  pub inv : Inv qm
  pub same_pieces : KeepsPieces pm qm
  pub same_length : qm.piece_length ≡ pm.piece_length
  pub pieces_length : length qm.pieces ≡ length pm.pieces
  pub saves : Saves platform pm qm

abbrev pub Settles : Platform → PieceManager → Result PieceManager → Type 0
Settles platform pm r = (qm : PieceManager) × (r ≡ ok qm) × Settled platform pm qm

module _ (platform : Platform) (law : IsPlatform platform) (pm : PieceManager) (v : Inv pm) (k : ℕ)
    (m : PieceMetadata) (g : get_elem? pm.pieces k ≡ some m) (s t : BufferPiece) (c : Buffer)
    (h : held pm.buffer k ≡ some s) (u : Updates pm.buffer k t c)
    (size : length t.bytes ≡ m.current_piece_length) where
  abbrev written : PieceManager
  written = record pm { buffer = c }

  old_state : is_in_buffer m.state ≡ true
  old_state = let (r, e, i, _) = v.holds k s h in let same : m ≡ r = ground arith in ground arith

  held_written : held c k ≡ some t
  held_written = let self : (k == k) ≡ true = ground arith in u.holds k ∙ rw self refl

  verify :
      (digest : List ℕ)
      → hex_decode (platform.sha1 t.bytes) ≡ ok digest
      → is_verified_piece platform k t.bytes written ≡ ok (list_eq digest m.piece_hash)
  unfolding is_verified_piece
  verify digest e = rw (g, e) refl

  no_wrap : (pm.num_pieces_completed + 1) % 2 ^ 32 ≡ pm.num_pieces_completed + 1
  no_wrap = ground (
    arith,
    v.counted,
    v.few,
    old_state,
    count_if-set has_completed pm.pieces k m (record m { state = completed }) g,
    count_if-le has_completed (set pm.pieces k (record m { state = completed })),
    length-set pm.pieces k (record m { state = completed }),
  )

  dropped :
      (d : Buffer) × (remove_piece_from_buffer k c ≡ ok d)
      × ((j : ℕ) → held d j ≡ (if k == j then none else held pm.buffer j))
      × IsValid d
      × (d.block_length ≡ pm.buffer.block_length)
  dropped =
      let (d, e, gone, valid, same, _) = remove_piece_from_buffer_lem c k t u.valid held_written in
      (
        d,
        e,
        (λ j. elim (Bool-cases (k == j)) [
          | inl q ↦ rw q (gone j ∙ rw q refl)
          | inr q ↦ rw q (gone j ∙ rw q (u.holds j ∙ rw q refl))
        ]),
        valid,
        same ∙ u.same_length,
      )

  module _ (digest : List ℕ) (e : hex_decode (platform.sha1 t.bytes) ≡ ok digest) (d : Buffer)
      (r : remove_piece_from_buffer k c ≡ ok d)
      (gone : (j : ℕ) → held d j ≡ (if k == j then none else held pm.buffer j)) (valid : IsValid d)
      (same : d.block_length ≡ pm.buffer.block_length) where
    abbrev saved : PieceManager
    saved =
        left pm k m completed v g d
          (FileManager.save_piece (k * pm.piece_length) t.bytes pm.file_manager)
          ((pm.pieces_completed + 1) % 2 ^ 32) old_state refl gone valid same

    abbrev refused : PieceManager
    refused =
        left pm k m not_started v g d pm.file_manager pm.pieces_completed old_state refl gone valid
          same

    finish-saved :
        list_eq digest m.piece_hash ≡ true → finish_piece platform k t.bytes written ≡ ok saved
    unfolding finish_piece set_state save_piece drop_piece remove_affinity left
    finish-saved good = rw (verify digest e, good, g, r, no_wrap) refl

    finish-refused :
        list_eq digest m.piece_hash ≡ false → finish_piece platform k t.bytes written ≡ ok refused
    unfolding finish_piece set_state drop_piece remove_affinity left
    finish-refused bad = rw (verify digest e, bad, g, r, add-zero) refl

    saved-Settled : list_eq digest m.piece_hash ≡ true → Settled platform pm saved
    unfolding left
    saved-Settled good = record {
      inv = left-Inv pm k m completed v g d _ _ old_state refl gone valid same;
      same_pieces = set-KeepsPieces pm saved k m completed g (λ _. refl) refl;
      same_length = refl;
      pieces_length = length-set pm.pieces k _;
      saves =
          piece k m t.bytes g (ground (arith, old_state))
            (get_elem?-set_self pm.pieces k _ (get_elem?-lt pm.pieces k g)) size
            (e ∙ ap ok (list_eq→eq digest m.piece_hash good)) refl refl
            (λ j n e' done. elim (get-set-cases pm.pieces k j m _ n g e') [
              | inl (kj, _) ↦ inl kj
              | inr (_, old) ↦ inr (n, old, done)
            ]);
    }

    refused-Settled : Settled platform pm refused
    unfolding left
    refused-Settled = record {
      inv = left-Inv pm k m not_started v g d _ _ old_state refl gone valid same;
      same_pieces =
          set-KeepsPieces pm refused k m not_started g
            (in_buffer-not_completed m.state not_started old_state) refl;
      same_length = refl;
      pieces_length = length-set pm.pieces k _;
      saves =
          nothing refl (omega arith)
            (set-CompletesNone pm refused k m not_started g (λ q. ground arith) refl);
    }

  -- A complete piece is verified, saved or given up, and leaves the buffer.
  pub finish_piece-Settles : Settles platform pm (finish_piece platform k t.bytes written)
  finish_piece-Settles =
      let (digest, e) = hex_decode_total (platform.sha1 t.bytes) (law.digest t.bytes) in
      let (d, r, gone, valid, same) = dropped in
      elim (Bool-cases (list_eq digest m.piece_hash)) [
        | inl good ↦ (
          saved digest e d r gone valid same,
          finish-saved digest e d r gone valid same good,
          saved-Settled digest e d r gone valid same good,
        )
        | inr bad ↦ (
          refused digest e d r gone valid same,
          finish-refused digest e d r gone valid same bad,
          refused-Settled digest e d r gone valid same,
        )
      ]
