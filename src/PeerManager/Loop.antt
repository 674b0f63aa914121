-- ===== src/PeerManager/Loop.antt =====
-- The loop of src/peer_manager.cpp that replaces the peers that have exited.
use simpletorrent.Base.{
  ℕ, ◌⊎◌, ==→eq, ◌≡◌, refl, sym, ◌∙◌, inl, inr, Bool, true, false, ◌||◌, List, [], ◌∷◌, length,
  Result, ok, if_true, if_false, subst, arith, Bool-cases,
}
use simpletorrent.PieceManager
use simpletorrent.PieceManager.{PieceManager, is_download_complete}
use simpletorrent.PeerManager.{
  PeerManager, Partition, Pass, stop_without_peers, cleanup_and_open_connections,
}
use simpletorrent.PeerManager.Live.{IsPartition}
use simpletorrent.PeerManager.Steps.{
  IsConsistent, cleanup_connections-IsConsistent, open_connections-IsConsistent,
}

-- The piece manager has no part in it.
exchanged :
    (n : ℕ) (m : PeerManager) (pm : PieceManager)
    → IsConsistent n m
    → IsConsistent n (record m { piece_manager = pm })
exchanged n m pm v = record { peers_live = v.peers_live; bounded = v.bounded; many = v.many }

-- The loop goes on only while the download is neither stopped nor complete.
not_continued :
    (stopped : Bool) (pm : PieceManager)
    → PieceManager.continue_download stopped pm ≡ false
    → (stopped ≡ true) ⊎ (pm.num_pieces_completed ≡ length pm.pieces)
unfolding PieceManager.continue_download is_download_complete
not_continued true pm h = inl refl
not_continued false pm h = inr (==→eq _ _ (ground arith))

-- The loop has returned with the states as they should be, and if it has ended, then with the
-- download stopped or all pieces counted.
abbrev pub Looped : ℕ → Result (PeerManager × Bool × Bool) → Type 0
Looped n r =
    (after : PeerManager) × (stopped : Bool) × (ended : Bool) × (r ≡ ok (after, stopped, ended))
    × IsConsistent n after
    × (ended ≡ true
        → (stopped ≡ true)
          ⊎ (after.piece_manager.num_pieces_completed ≡ length after.piece_manager.pieces))

-- Whatever others do with the piece manager and the flag during its pauses, whichever peers have
-- exited and in whatever order `std::partition` leaves them: from a manager whose peers are just those
-- in a connected state and at most 60, the loop of `cleanup_and_open_connections` does not throw and
-- keeps that, however many passes it makes; and it ends only when the flag that stops the download is
-- set or as many pieces are counted as completed as there are.
pub cleanup_and_open_connections-Looped :
    (partition : Partition)
    → IsPartition partition
    → (n : ℕ) (passes : List Pass) (stop_download : Bool) (m : PeerManager) → IsConsistent n m
    → Looped n (cleanup_and_open_connections partition passes stop_download m)
unfolding cleanup_and_open_connections
cleanup_and_open_connections-Looped partition law n [] stop_download m v =
    (m, stop_download, false, refl, v, λ h. ground arith)
cleanup_and_open_connections-Looped partition law n (p ∷ passes) stop_download m v =
    let stopped = stop_download || p.stops in
    elim (Bool-cases (PieceManager.continue_download stop_download m.piece_manager)) [
      | inr end ↦
          subst (Looped n) (sym (if_false _ _ end))
            (m, stop_download, true, refl, v, λ h. not_continued stop_download m.piece_manager end)
      | inl go ↦ elim (Bool-cases (PieceManager.continue_download stopped p.asleep)) [
        | inr end ↦ subst (Looped n) (sym (if_true _ _ go ∙ if_false _ _ end)) (
          _,
          stopped,
          true,
          refl,
          exchanged n m p.asleep v,
          λ h. not_continued stopped p.asleep end,
        )
        | inl on ↦
            let awake : PeerManager = record m { piece_manager = p.asleep } in
            let (cleaned, e, w, _, _) =
              cleanup_connections-IsConsistent partition law n awake (exchanged n m p.asleep v)
                p.has_exited in
            let (opened, _, f, u, _, _, _) = open_connections-IsConsistent n cleaned w in
            let later =
              cleanup_and_open_connections-Looped partition law n passes
                (stop_without_peers stopped opened || p.stops_again)
                (record opened { piece_manager = p.asleep_again })
                (exchanged n opened p.asleep_again u) in
            subst (Looped n) (sym (if_true _ _ go ∙ if_true _ _ on ∙ rw e (rw f refl))) later
      ]
    ]
