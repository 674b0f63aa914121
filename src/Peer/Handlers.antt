-- ===== src/Peer/Handlers.antt =====
-- The handlers of src/peer.cpp keep the piece manager good, whatever a peer sends.
use simpletorrent.Base.{
  ℕ, ◌+◌, ◌%◌, ◌≡◌, ap, ◌>>=◌, refl, inl, inr, ◌⊎◌, Bool, Option, none, some, true, List, [],
  length, all_of, ltb, leb, drop, take, ◌==◌, Result, ok, fault, thrown, arith, Bool-cases,
}
use simpletorrent.Types.{Block}
use simpletorrent.Util.ByteOrder.{Endian, convert_bo, of_memory}
use simpletorrent.Message.{
  MessageType, choke, unchoke, interested, not_interested, have, bitfield, request, piece, cancel,
  port, slice, get_peer_bitfield, retrieve_piece_index_and_block_offset,
}
use simpletorrent.Message.Bitfield.{length-get_peer_bitfield}
use simpletorrent.PieceManager.{Platform, PieceManager}
use simpletorrent.PieceManager.Laws.{IsPlatform}
use simpletorrent.PieceManager.Run.{add, register, step}
use simpletorrent.PieceManager.Sizes.{Sizes}
use simpletorrent.PieceManager.History.{Good, step-Good}
use simpletorrent.Peer.{
  Peer, handle_bitfield_message, handle_piece_message, handle_message, handle_typed,
}

module _ (platform : Platform) (law : IsPlatform platform) (e : Endian) (n : ℕ) (sizes : Sizes)
    (peer : Peer) (pm : PieceManager) (same : peer.num_pieces ≡ n)
    (g : Good platform n sizes pm) where
  -- The handler returns with the piece manager good and with no more of the peer changed than the
  -- choking and the count of requests, or throws as for a peer without pieces.
  abbrev pub IsHandled : Result (Peer × PieceManager) → Type 0
  IsHandled r =
      ((is_choked : Bool) × (num_in_flight : ℕ) × (qm : PieceManager) × (r
          ≡ ok (record peer { is_choked = is_choked; num_in_flight = num_in_flight }, qm))
        × Good platform n sizes qm)
      ⊎ (r ≡ fault thrown)

  bitfield-IsHandled :
      (payload : List ℕ) → IsHandled (handle_message platform e bitfield payload peer pm)
  unfolding handle_message handle_bitfield_message step
  bitfield-IsHandled payload =
      elim (Bool-cases (all_of (λ value. value == 0) (get_peer_bitfield payload peer.num_pieces))) [
        | inl none_ ↦ inr (rw none_ refl)
        | inr some_ ↦
            let b = get_peer_bitfield payload peer.num_pieces in
            let fits : length b ≡ n =
              rw (← same) (length-get_peer_bitfield peer.num_pieces payload) in
            let ((qm, r, h), _) =
              step-Good platform law n sizes (register b peer.peer_num_id) [] pm (fits, tt) g in
            inl (
              peer.is_choked,
              peer.num_in_flight,
              qm,
              rw some_
                  (ap (λ (x : Result PieceManager). x >>= λ registered. ok (peer, registered)) r),
              h,
            )
      ]

  piece-IsHandled : (payload : List ℕ) → IsHandled (handle_message platform e piece payload peer pm)
  unfolding handle_message handle_piece_message retrieve_piece_index_and_block_offset slice step
  piece-IsHandled payload = elim (Bool-cases (ltb (length payload) 9)) [
    | inl short ↦ inl (peer.is_choked, peer.num_in_flight, pm, rw short refl, g)
    | inr long ↦
        let first : leb (0 + 4) (length payload) ≡ true = ground arith in
        let second : leb (4 + 4) (length payload) ≡ true = ground arith in
        let block : Block = record {
          piece_index = convert_bo e 4 (of_memory e (take 4 payload));
          block_offset = convert_bo e 4 (of_memory e (take 4 (drop 4 payload)));
          bytes = drop 8 payload;
        } in
        let ((qm, r, h), _) = step-Good platform law n sizes (add block) [] pm tt g in
        inl (
          peer.is_choked,
          (peer.num_in_flight + 255) % 256,
          qm,
          rw (long, first, second) (rw r refl),
          h,
        )
  ]

  -- On a machine of either byte order, whatever a peer sends as a message of any type, once the piece
  -- manager is good, the handler returns, leaves it good and changes no more of the peer than the choking
  -- and the count of requests in flight, or it throws the exception that ends the connection. The bitfield that it registers has an entry for each piece.
  pub handle_message-IsHandled :
      (type : MessageType) (payload : List ℕ)
      → IsHandled (handle_message platform e type payload peer pm)
  unfolding handle_message
  handle_message-IsHandled choke payload = inl (_, _, pm, refl, g)
  handle_message-IsHandled unchoke payload = inl (_, _, pm, refl, g)
  handle_message-IsHandled interested payload = inl (_, _, pm, refl, g)
  handle_message-IsHandled not_interested payload = inl (_, _, pm, refl, g)
  handle_message-IsHandled have payload = inl (_, _, pm, refl, g)
  handle_message-IsHandled bitfield payload = bitfield-IsHandled payload
  handle_message-IsHandled request payload = inl (_, _, pm, refl, g)
  handle_message-IsHandled piece payload = piece-IsHandled payload
  handle_message-IsHandled cancel payload = inl (_, _, pm, refl, g)
  handle_message-IsHandled port payload = inl (_, _, pm, refl, g)

  -- The same for any byte as the type.
  pub handle_typed-IsHandled :
      (type : Option MessageType) (payload : List ℕ)
      → IsHandled (handle_typed platform e type payload peer pm)
  unfolding handle_typed
  handle_typed-IsHandled none payload = inl (_, _, pm, refl, g)
  handle_typed-IsHandled (some type) payload = handle_message-IsHandled type payload
