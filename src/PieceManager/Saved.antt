-- ===== src/PieceManager/Saved.antt =====
-- The queue of the writer after a call of `add_block` (src/piece_manager.cpp): unchanged, or with the
-- piece that the call saves.
use simpletorrent.Base.{
  ℕ, ◌+◌, ◌*◌, ◌%◌, ◌^◌, ◌≡◌, refl, ap, ◌∙◌, subst, inl, inr, ◌⊎◌, some, List, [], ◌∷◌, ◌++◌,
  length, get_elem?, ok, arith, length-append,
}
use simpletorrent.Types.{completed, PieceMetadata}
use simpletorrent.Util.Hex.{hex_decode}
use simpletorrent.FileManager
use simpletorrent.FileManager.{FileManager}
use simpletorrent.PieceManager.{Platform, PieceManager}
use simpletorrent.PieceManager.Request.{KeepsPieces}
use simpletorrent.PieceManager.Finish.{Saves, nothing, piece}
use simpletorrent.PieceManager.Run.{
  IsSaved, IsFaithful, get-snoc-cases, get-append, get-snoc_last, IsSaved-keeps, same-IsFaithful,
}

-- One piece is saved.
module _ (platform : Platform) (pm qm : PieceManager) (f : IsFaithful platform pm)
    (kp : KeepsPieces pm qm) (l : qm.piece_length ≡ pm.piece_length) (k : ℕ) (m : PieceMetadata)
    (bytes : List ℕ) (here : get_elem? qm.pieces k ≡ some (record m { state = completed }))
    (size : length bytes ≡ m.current_piece_length)
    (verified : hex_decode (platform.sha1 bytes) ≡ ok m.piece_hash)
    (fm : qm.file_manager ≡ FileManager.save_piece (k * pm.piece_length) bytes pm.file_manager)
    (others : (j : ℕ) (n : PieceMetadata)
      → get_elem? qm.pieces j ≡ some n
      → n.state ≡ completed
      → (k ≡ j)
        ⊎ ((o : PieceMetadata) × (get_elem? pm.pieces j ≡ some o) × (o.state ≡ completed))) where
  abbrev entry : ℕ × List ℕ
  entry = (k * pm.piece_length % 2 ^ 32, bytes)

  queue : qm.file_manager.write_queue ≡ pm.file_manager.write_queue ++ (entry ∷ [])
  unfolding FileManager.save_piece
  queue = ap (λ (x : FileManager). x.write_queue) fm

  entry-IsSaved : IsSaved platform qm k (record m { state = completed }) entry
  entry-IsSaved = record { offset = rw l refl; size = size; verified = verified }

  saved-IsFaithful : qm.num_pieces_completed ≡ pm.num_pieces_completed + 1 → IsFaithful platform qm
  saved-IsFaithful nc = record {
    sound = λ i e g. elim (get-snoc-cases pm.file_manager.write_queue entry e i (rw queue at g)) [
      | inl old ↦
          let (j, o, go, d, s) = f.sound i e old in
          let (n, gn, h, c, dn) = kp j o go in
          (j, n, gn, dn d, IsSaved-keeps platform pm qm j o n e l h c s)
      | inr new ↦ (
        k,
        record m { state = completed },
        here,
        refl,
        subst (IsSaved platform qm k (record m { state = completed })) new entry-IsSaved,
      )
    ];
    complete = λ j n gn d. elim (others j n gn d) [
      | inl kj ↦
          let same : record m { state = completed } ≡ n = ground arith in
          (
            length pm.file_manager.write_queue,
            entry,
            rw queue (get-snoc_last pm.file_manager.write_queue entry),
            subst (λ (x : PieceMetadata). IsSaved platform qm j x entry) same
                (subst (λ (x : ℕ). IsSaved platform qm x (record m { state = completed }) entry) kj
                  entry-IsSaved),
          )
      | inr (o, go, do_) ↦
          let (n', gn', h, c, _) = kp j o go in
          let same : n' ≡ n = ground arith in
          let (i, e, ge, s) = f.complete j o go do_ in
          (
            i,
            e,
            rw queue (get-append pm.file_manager.write_queue (entry ∷ []) i e ge),
            subst (λ (x : PieceMetadata). IsSaved platform qm j x e) same
                (IsSaved-keeps platform pm qm j o n' e l h c s),
          )
    ];
    as_many =
        ap length queue
        ∙ length-append pm.file_manager.write_queue (entry ∷ [])
        ∙ omega (arith, f.as_many, nc);
  }

pub settled-IsFaithful :
    (platform : Platform) (pm qm : PieceManager)
    → IsFaithful platform pm
    → KeepsPieces pm qm
    → qm.piece_length ≡ pm.piece_length
    → Saves platform pm qm
    → IsFaithful platform qm
settled-IsFaithful platform pm qm f kp l (nothing fm nc cn) =
    same-IsFaithful platform pm qm f kp cn l fm nc
settled-IsFaithful platform pm qm f kp l (piece k m bytes g out here size verified fm nc others) =
    saved-IsFaithful platform pm qm f kp l k m bytes here size verified fm others nc

-- What the files are does not change.
abbrev pub KeepsFiles : FileManager → FileManager → Type 0
KeepsFiles fm gm = (gm.num_pieces ≡ fm.num_pieces) × (gm.file_lengths ≡ fm.file_lengths)

pub same-KeepsFiles : (fm gm : FileManager) → gm ≡ fm → KeepsFiles fm gm
same-KeepsFiles fm gm e =
    (ap (λ (x : FileManager). x.num_pieces) e, ap (λ (x : FileManager). x.file_lengths) e)

pub settled-KeepsFiles :
    (platform : Platform) (pm qm : PieceManager)
    → Saves platform pm qm
    → KeepsFiles pm.file_manager qm.file_manager
unfolding FileManager.save_piece
settled-KeepsFiles platform pm qm (nothing fm nc cn) =
    same-KeepsFiles pm.file_manager qm.file_manager fm
settled-KeepsFiles platform pm qm (piece k m bytes g out here size verified fm nc others) =
    same-KeepsFiles _ qm.file_manager fm
