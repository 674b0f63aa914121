-- ===== src/PieceManager/History.antt =====
-- What holds after any history of a `PieceManager` (src/piece_manager.cpp).
use native.Mathlib.Nat.{mod-eq_of_lt}
use simpletorrent.Base.{
  ℕ, ◌<◌, ◌≡◌, refl, sym, ◌∙◌, true, some, List, [], ◌∷◌, length, get_elem?, Result, ok, arith,
  length-map, get_elem?-some, all_of-get, count_if-all_of, ==→eq,
}
use simpletorrent.Base.Maps.{AllValues-insert, AllValues-erase}
use simpletorrent.Types.{
  PieceState, completed, not_started, PieceMetadata, TorrentMetadata, is_completed,
}
use simpletorrent.FileManager
use simpletorrent.FileManager.{FileManager}
use simpletorrent.PieceManager.{
  Platform, PieceManager, init, remove_peer, update_piece_frequencies, peer_piece_state,
  is_download_complete,
}
use simpletorrent.PieceManager.Laws.{IsPlatform}
use simpletorrent.PieceManager.Invariant.{Inv, has_completed, affinity-Inv, bitfields-Inv}
use simpletorrent.PieceManager.Select.{select_next_block-Selects}
use simpletorrent.PieceManager.AddBlock.{add_block-Settles}
use simpletorrent.PieceManager.Init.{IsTorrent, init-Inv, make_pieces-fresh, length-make_pieces}
use simpletorrent.PieceManager.Run.{
  Call, select, add, register, remove, step, run, AllSized, IsSaved, IsFaithful, same-IsFaithful,
}
use simpletorrent.PieceManager.Saved.{settled-IsFaithful, same-KeepsFiles, settled-KeepsFiles}
use simpletorrent.PieceManager.Sizes.{Sizes, kept-Suits, sizes_of, Suits, start-Suits}

-- What every call keeps.
pub record Good (platform : Platform) (pieces : ℕ) (sizes : Sizes) (pm : PieceManager)
    : Type 0 where
  pub inv : Inv pm
  pub faithful : IsFaithful platform pm
  pub many : length pm.pieces ≡ pieces
  pub same_length : pm.piece_length ≡ sizes.piece_length
  pub suits : (k : ℕ) (m : PieceMetadata) → get_elem? pm.pieces k ≡ some m → Suits sizes k m
  pub num_pieces : pm.file_manager.num_pieces ≡ pieces
  pub files : pm.file_manager.file_lengths ≡ sizes.files

-- A call on a good state returns, and leaves a good state.
abbrev pub Continues : Platform → ℕ → Sizes → Result PieceManager → Type 0
Continues platform pieces sizes r =
    (qm : PieceManager) × (r ≡ ok qm) × Good platform pieces sizes qm

registered :
    (platform : Platform) (n : ℕ) (sizes : Sizes) (pm : PieceManager) (bitfield : List ℕ) (peer : ℕ)
    → length bitfield ≡ n
    → Good platform n sizes pm
    → Good platform n sizes (update_piece_frequencies bitfield peer pm)
unfolding update_piece_frequencies
registered platform n sizes pm bitfield peer h g = record {
  inv = bitfields-Inv pm _ g.inv (
      AllValues-insert _ peer _ pm.peers_bitfield_map
        (length-map peer_piece_state bitfield ∙ h ∙ sym g.many) g.inv.bitfields);
  faithful =
      same-IsFaithful platform pm _ g.faithful (λ k m e. (m, e, refl, refl, λ d. d))
        (λ k m e d. (m, e, d)) refl refl refl;
  many = g.many;
  same_length = g.same_length;
  suits = g.suits;
  num_pieces = g.num_pieces;
  files = g.files;
}

removed :
    (platform : Platform) (n : ℕ) (sizes : Sizes) (pm : PieceManager) (peer : ℕ)
    → Good platform n sizes pm
    → Good platform n sizes (remove_peer peer pm)
unfolding remove_peer
removed platform n sizes pm peer g = record {
  inv =
      affinity-Inv _ _
        (bitfields-Inv pm _ g.inv (AllValues-erase _ peer pm.peers_bitfield_map g.inv.bitfields))
        (AllValues-erase _ peer pm.peer_piece_affinity_map g.inv.affinity);
  faithful =
      same-IsFaithful platform pm _ g.faithful (λ k m e. (m, e, refl, refl, λ d. d))
        (λ k m e d. (m, e, d)) refl refl refl;
  many = g.many;
  same_length = g.same_length;
  suits = g.suits;
  num_pieces = g.num_pieces;
  files = g.files;
}

module _ (platform : Platform) (law : IsPlatform platform) where
  pub step-Good :
      (n : ℕ) (sizes : Sizes) (c : Call) (cs : List Call) (pm : PieceManager)
      → AllSized n (c ∷ cs)
      → Good platform n sizes pm
      → Continues platform n sizes (step platform c pm) × AllSized n cs
  unfolding step
  step-Good n sizes (select peer) cs pm z g =
      let (r, qm, e, s) = select_next_block-Selects platform law peer pm g.inv in
      (
        (
          qm,
          rw e refl,
          record {
            inv = s.inv;
            faithful =
                same-IsFaithful platform pm qm g.faithful s.same_files.same_pieces
                  s.same_files.completes_none s.same_files.piece_length s.same_files.files
                  s.same_files.completed;
            many = s.same_files.pieces_length ∙ g.many;
            same_length = s.same_files.piece_length ∙ g.same_length;
            suits =
                kept-Suits sizes pm qm s.same_files.pieces_length s.same_files.same_pieces g.suits;
            num_pieces =
                (same-KeepsFiles pm.file_manager qm.file_manager s.same_files.files).0
                ∙ g.num_pieces;
            files =
                (same-KeepsFiles pm.file_manager qm.file_manager s.same_files.files).1 ∙ g.files;
          },
        ),
        z,
      )
  step-Good n sizes (add block) cs pm z g =
      let (qm, e, s) = add_block-Settles platform law pm g.inv block in
      (
        (
          qm,
          e,
          record {
            inv = s.inv;
            faithful =
                settled-IsFaithful platform pm qm g.faithful s.same_pieces s.same_length s.saves;
            many = s.pieces_length ∙ g.many;
            same_length = s.same_length ∙ g.same_length;
            suits = kept-Suits sizes pm qm s.pieces_length s.same_pieces g.suits;
            num_pieces = (settled-KeepsFiles platform pm qm s.saves).0 ∙ g.num_pieces;
            files = (settled-KeepsFiles platform pm qm s.saves).1 ∙ g.files;
          },
        ),
        z,
      )
  step-Good n sizes (register bitfield peer) cs pm z g =
      ((_, refl, registered platform n sizes pm bitfield peer z.0 g), z.1)
  step-Good n sizes (remove peer) cs pm z g = ((_, refl, removed platform n sizes pm peer g), z)

  run-Good :
      (n : ℕ) (sizes : Sizes) (cs : List Call) (pm : PieceManager)
      → AllSized n cs
      → Good platform n sizes pm
      → Continues platform n sizes (run platform cs pm)
  unfolding run
  run-Good n sizes [] pm z g = (pm, refl, g)
  run-Good n sizes (c ∷ cs) pm z g =
      let ((qm, e, gq), z') = step-Good n sizes c cs pm z g in rw e (run-Good n sizes cs qm z' gq)

  -- Started on a torrent whose sizes fit, the piece manager returns from every call of any sequence
  -- of calls, whatever blocks the peers send, if each registered bitfield has an entry for each
  -- piece; and after it the invariant holds, and the queue of the writer holds just the completed
  -- pieces: an entry for each, verified against the hash of the piece, and as many as are counted.
  -- Every piece has the size that the constructor computed and the hash that the torrent names, and the
  -- file manager has the number of pieces and the lengths of the files.
  pub run-init-Good :
      (t : TorrentMetadata) (block_length buffer_size : ℕ) (cs : List Call)
      → IsTorrent t block_length
      → AllSized (length t.piece_hashes) cs
      → (qm : PieceManager) × (run platform cs (init t block_length buffer_size) ≡ ok qm)
        × Good platform (length t.piece_hashes) (sizes_of t block_length) qm
  run-init-Good t block_length buffer_size cs w z =
      run-Good (length t.piece_hashes) (sizes_of t block_length) cs
        (init t block_length buffer_size) z
        (record {
          inv = init-Inv t block_length w buffer_size;
          faithful =
              unfold init FileManager.init in
              record {
                sound = λ i e h. ground arith;
                complete = λ k m h d.
                    let s = (make_pieces-fresh t block_length w t.piece_hashes 0 k m h).1 in
                    ground arith;
                as_many = refl;
              };
          many = unfold init in length-make_pieces t block_length w t.piece_hashes 0;
          same_length = unfold init sizes_of in refl;
          suits = unfold init in λ k m h. start-Suits t block_length k m h;
          num_pieces = unfold init FileManager.init in mod-eq_of_lt w.few;
          files = unfold init FileManager.init sizes_of in refl;
        })

is_completed-eq : (st : PieceState) → is_completed st ≡ true → st ≡ completed
is_completed-eq not_started h = ground arith
is_completed-eq completed h = refl
is_completed-eq _ h = ground arith

pub is_download_complete-IsSaved :
    (platform : Platform) (n : ℕ) (sizes : Sizes) (pm : PieceManager)
    → Good platform n sizes pm
    → is_download_complete pm ≡ true
    → (k : ℕ) → k < n
    → (m : PieceMetadata) × (i : ℕ) × (e : ℕ × List ℕ) × (get_elem? pm.pieces k ≡ some m)
      × (get_elem? pm.file_manager.write_queue i ≡ some e)
      × IsSaved platform pm k m e
unfolding is_download_complete
is_download_complete-IsSaved platform n sizes pm g done k inside =
    let all = count_if-all_of has_completed pm.pieces (g.inv.counted ∙ ==→eq _ _ done) in
    let (m, at_k) = get_elem?-some pm.pieces k (omega (arith, g.many)) in
    let is = is_completed-eq m.state (all_of-get has_completed pm.pieces k m all at_k) in
    let (i, e, at_i, s) = g.faithful.complete k m at_k is in (m, i, e, at_k, at_i, s)
