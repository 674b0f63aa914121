-- ===== src/Peer/Sound.antt =====
-- What each step of the routines of src/peer.cpp keeps, and that none of them faults.
use simpletorrent.Base.{
  ok-injective, ℕ, ◌+◌, ◌≡◌, refl, sym, ◌∙◌, subst, inl, inr, Bool, true, false, Option, List, [],
  length, all_of, ltb, leb, ◌==◌, resize, overwrite, Result, ok, ◌>>=◌, arith, if_true, if_false,
  Bool-cases, Option-cases, length-overwrite, length-resize, take,
}
use simpletorrent.Types.{BlockRequest}
use simpletorrent.Util.Hex.{is_hex_digit, hex_decode_total}
use simpletorrent.Util.ByteOrder.{Endian, convert_bo, of_memory}
use simpletorrent.Message.{slice, get_header_length}
use simpletorrent.Message.Handshake.{parse_handshake_response-Accepted}
use simpletorrent.PieceManager.{Platform, PieceManager, select_next_block, continue_download}
use simpletorrent.PieceManager.Laws.{IsPlatform}
use simpletorrent.PieceManager.Run.{select, step}
use simpletorrent.PieceManager.Sizes.{Sizes}
use simpletorrent.PieceManager.History.{Good, step-Good}
use simpletorrent.PieceManager.Select.{select_next_block-Selects}
use simpletorrent.Peer.{max_in_flight, send_handshake, receive_handshake_response, message_type}
use simpletorrent.Peer.Handlers.{handle_typed-IsHandled}
use simpletorrent.Peer.Connection.{
  Connection, MainRoutine, exited, SendRoutine, stopped, left, catch, exit, leave, receive_next,
  launch, detached, connected, handshake_read, interested_written, header_read, payload_read,
  request_next, send_next, request_written, timed_out, Step, launches, connects, writes_handshake,
  reads_handshake, writes_interested, reads_header, reads_type, reads_payload, sends,
  writes_request, times_out,
}

abbrev pub is_exited : MainRoutine → Bool
is_exited exited = true
is_exited _ = false

abbrev pub is_stopped : SendRoutine → Bool
is_stopped stopped = true
is_stopped _ = false

module _ (platform : Platform) (law : IsPlatform platform) (e : Endian) (n : ℕ)
    (sizes : Sizes) where
  -- What the parts of a connection other than the flags are.
  pub record IsBody (num_pieces : ℕ) (info_hash : List ℕ) (pm : PieceManager) (header : List ℕ)
      : Type 0 where
    pub good : Good platform n sizes pm
    pub pieces : num_pieces ≡ n
    pub hash : all_of is_hex_digit info_hash ≡ true
    pub size : length header ≡ 4

  -- The flags say which routines have ended by themselves, and `send_messages` is not left by an
  -- exception.
  pub record IsConnection (c : Connection) : Type 0 where
    pub body : IsBody c.peer.num_pieces c.peer.info_hash c.piece_manager c.header
    pub main_flag : c.peer.main_routine_has_exited ≡ is_exited c.main_routine
    pub send_flag : c.peer.spawned_routine_has_exited ≡ is_stopped c.send_routine
    pub not_left : (c.send_routine ≡ left) → ⊥

  sound :
      (c : Connection)
      → IsBody c.peer.num_pieces c.peer.info_hash c.piece_manager c.header
      → c.peer.main_routine_has_exited ≡ is_exited c.main_routine
      → c.peer.spawned_routine_has_exited ≡ is_stopped c.send_routine
      → (c.send_routine ≡ left → ⊥)
      → IsConnection c
  sound c body main_flag send_flag not_left = record {
    body = body;
    main_flag = main_flag;
    send_flag = send_flag;
    not_left = not_left;
  }

  -- A step that returns, and leaves a connection.
  abbrev pub Returns : Result Connection → Type 0
  Returns r = (d : Connection) × (r ≡ ok d) × IsConnection d

  exit-IsConnection : (c : Connection) → IsConnection c → IsConnection (exit c)
  unfolding exit
  exit-IsConnection c v = (sound _ v.body refl v.send_flag v.not_left)

  leave-IsConnection : (c : Connection) → IsConnection c → IsConnection (leave c)
  unfolding leave
  leave-IsConnection c v = (sound _ v.body refl v.send_flag v.not_left)

  receive_next-IsConnection :
      (c : Connection)
      → IsConnection c
      → is_exited c.main_routine ≡ false
      → IsConnection (receive_next c)
  unfolding receive_next leave
  receive_next-IsConnection c v not_yet = elim (Bool-cases c.peer.continue_connection) [
    | inl go ↦ rw go ((sound _ v.body (v.main_flag ∙ not_yet) v.send_flag v.not_left))
    | inr end ↦ rw end ((sound _ v.body refl v.send_flag v.not_left))
  ]

  connected-Returns :
      (c : Connection) → IsConnection c → is_exited c.main_routine ≡ false → Returns (connected c)
  unfolding connected send_handshake
  connected-Returns c v not_yet =
      let (binary, f) = hex_decode_total c.peer.info_hash v.body.hash in
      rw (f, connected, send_handshake)
        (_, refl, (sound _ v.body (v.main_flag ∙ not_yet) v.send_flag v.not_left))

  handshake_read-Returns :
      (stop_download : Bool) (bytes : List ℕ) (c : Connection)
      → IsConnection c
      → is_exited c.main_routine ≡ false
      → Returns (handshake_read e stop_download bytes c)
  unfolding handshake_read receive_handshake_response catch exit
  handshake_read-Returns stop_download bytes c v not_yet =
      elim (parse_handshake_response-Accepted (resize bytes 68 0) c.peer.info_hash
        (length-resize bytes 68 0)) [
          | inr refused ↦
              rw (refused, handshake_read, receive_handshake_response)
                (exit c, refl, exit-IsConnection c v)
          | inl (_, _, id, _, _, _, same) ↦
              rw (same, handshake_read, receive_handshake_response)
                (elim (Bool-cases (continue_download stop_download c.piece_manager)) [
                  | inl go ↦
                      rw go
                        (_, refl, (sound _ v.body (v.main_flag ∙ not_yet) v.send_flag v.not_left))
                  | inr end ↦ rw end (_, refl, (sound _ v.body refl v.send_flag v.not_left))
                ])
        ]

  header_read-Returns :
      (bytes : List ℕ) (c : Connection)
      → IsConnection c
      → is_exited c.main_routine ≡ false
      → Returns (header_read e bytes c)
  unfolding header_read get_header_length slice
  header_read-Returns bytes c v not_yet =
      let header = overwrite c.header 0 bytes in
      let size : length header ≡ 4 = length-overwrite c.header 0 bytes ∙ v.body.size in
      let whole : leb (0 + 4) (length header) ≡ true = ground arith in
      let body : IsBody c.peer.num_pieces c.peer.info_hash c.piece_manager header = record {
        good = v.body.good;
        pieces = v.body.pieces;
        hash = v.body.hash;
        size = size;
      } in
      rw (whole, header_read, get_header_length)
        (elim (Bool-cases (convert_bo e 4 (of_memory e (take 4 header)) == 0)) [
          | inl empty ↦ rw empty (
            _,
            refl,
            receive_next-IsConnection (record c { header = header })
                ((sound _ body v.main_flag v.send_flag v.not_left)) not_yet,
          )
          | inr some_ ↦
              rw some_ (_, refl, (sound _ body (v.main_flag ∙ not_yet) v.send_flag v.not_left))
        ])

  payload_read-Returns :
      (type length : ℕ) (bytes : List ℕ) (c : Connection)
      → IsConnection c
      → is_exited c.main_routine ≡ false
      → Returns (payload_read platform e type length bytes c)
  unfolding payload_read catch leave
  payload_read-Returns type length bytes c v not_yet =
      elim (handle_typed-IsHandled platform law e n sizes c.peer c.piece_manager v.body.pieces
        v.body.good (message_type type) (resize bytes length 0)) [
          | inr thrown_ ↦
              rw (thrown_, payload_read) (_, refl, (sound _ v.body refl v.send_flag v.not_left))
          | inl (choked, flight, qm, same, g) ↦
              let d : Connection = record c {
                peer = record c.peer { is_choked = choked; num_in_flight = flight };
                piece_manager = qm;
              } in
              rw (same, payload_read)
                (
                  receive_next d,
                  refl,
                  receive_next-IsConnection d
                      ((sound _
                        (record {
                          good = g;
                          pieces = v.body.pieces;
                          hash = v.body.hash;
                          size = v.body.size;
                        })
                        v.main_flag v.send_flag v.not_left))
                      not_yet,
                )
        ]

  -- The piece manager that `select_next_block` leaves.
  selected-Good :
      (pm : PieceManager) (peer : ℕ)
      → Good platform n sizes pm
      → (r : Option BlockRequest) × (qm : PieceManager) × (select_next_block platform peer pm
          ≡ ok (r, qm))
        × Good platform n sizes qm
  unfolding step
  selected-Good pm peer g =
      let (r, qm, same, _) = select_next_block-Selects platform law peer pm g.inv in
      let ((qm', same', good), _) = step-Good platform law n sizes (select peer) [] pm tt g in
      let both : (do (_, am) ← select_next_block platform peer pm; ok am) ≡ ok qm' = same' in
      let one : qm ≡ qm' = ok-injective (rw same at both) in
      (r, qm, same, subst (Good platform n sizes) (sym one) good)

  request_next-Returns :
      (c : Connection)
      → IsConnection c
      → c.peer.spawned_routine_has_exited ≡ false
      → Returns (request_next platform e c)
  unfolding request_next
  request_next-Returns c v running = elim (Bool-cases (ltb c.peer.num_in_flight max_in_flight)) [
    | inr full ↦ rw full (_, refl, (sound _ v.body v.main_flag running (λ h. ground arith)))
    | inl room ↦
        let (r, qm, same, good) = selected-Good c.piece_manager c.peer.peer_num_id v.body.good in
        let body : IsBody c.peer.num_pieces c.peer.info_hash qm c.header = record {
          good = good;
          pieces = v.body.pieces;
          hash = v.body.hash;
          size = v.body.size;
        } in
        rw (room, same)
          (elim (Option-cases r) [
            | inl none_ ↦ rw none_ (_, refl, (sound _ body v.main_flag running (λ h. ground arith)))
            | inr (request, some_) ↦
                rw some_ (_, refl, (sound _ body v.main_flag running (λ h. ground arith)))
          ])
  ]

  send_next-Returns :
      (c : Connection)
      → IsConnection c
      → c.peer.spawned_routine_has_exited ≡ false
      → Returns (send_next platform e c)
  unfolding send_next
  send_next-Returns c v running = elim (Bool-cases c.peer.continue_connection) [
    | inr end ↦ rw end (_, refl, (sound _ v.body v.main_flag refl (λ h. ground arith)))
    | inl go ↦ elim (Bool-cases c.peer.is_choked) [
      | inl choked ↦
          rw (go, choked) (_, refl, (sound _ v.body v.main_flag running (λ h. ground arith)))
      | inr free ↦
          subst Returns (sym (if_true _ _ go ∙ if_false _ _ free))
            (request_next-Returns c v running)
    ]
  ]

  -- On a machine of either byte order, whatever arrives, and whether or not a read fails, a timer
  -- expires or the download is stopped: for a sound connection, that is, with the piece manager good
  -- and the flags as the routines are, each step of the two routines returns and leaves the connection
  -- sound; no exception gets out of a step, and none ends `send_messages`.
  pub Step-Returns :
      (c : Connection) (r : Result Connection) → IsConnection c → Step platform e c r → Returns r
  unfolding launch detached catch interested_written timed_out request_written
  Step-Returns c r v (launches valid at_ same) = elim (Bool-cases valid) [
    | inl good ↦
        rw (same, good) (_, refl, (sound _ v.body (rw at_ at v.main_flag) v.send_flag v.not_left))
    | inr bad ↦
        rw (same, bad) (_, refl, (sound _ v.body (rw at_ at v.main_flag) v.send_flag v.not_left))
  ]
  Step-Returns c r v (connects at_ same) = rw same (connected-Returns c v (rw at_ refl))
  Step-Returns c r v (writes_handshake at_ same) =
      rw same (_, refl, (sound _ v.body (rw at_ at v.main_flag) v.send_flag v.not_left))
  Step-Returns c r v (reads_handshake stop_download bytes at_ same) =
      rw same (handshake_read-Returns stop_download bytes c v (rw at_ refl))
  Step-Returns c r v (writes_interested at_ same) = rw same (
    _,
    refl,
    receive_next-IsConnection _
        ((sound _
          (record { good = v.body.good; pieces = v.body.pieces; hash = v.body.hash; size = refl })
          v.main_flag refl (λ h. ground arith)))
        (rw at_ refl),
  )
  Step-Returns c r v (reads_header bytes at_ same) =
      rw same (header_read-Returns bytes c v (rw at_ refl))
  Step-Returns c r v (reads_type length type at_ same) =
      rw same (_, refl, (sound _ v.body (rw at_ at v.main_flag) v.send_flag v.not_left))
  Step-Returns c r v (reads_payload type length bytes at_ same) =
      rw same (payload_read-Returns type length bytes c v (rw at_ refl))
  Step-Returns c r v (sends at_ same) = rw same (send_next-Returns c v (v.send_flag ∙ rw at_ refl))
  Step-Returns c r v (writes_request at_ same) = rw same (
      request_next-Returns _ ((sound _ v.body v.main_flag v.send_flag v.not_left))
        (v.send_flag ∙ rw at_ refl))
  Step-Returns c r v (times_out at_ same) =
      rw same (_, refl, (sound _ v.body v.main_flag v.send_flag v.not_left))
