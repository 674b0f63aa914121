-- ===== src/Peer/Rank.antt =====
-- How far the routines of src/peer.cpp are from their ends, once `continue_connection_` is false.
use simpletorrent.Base.{
  Result-cases, ok-injective, fault-ok, ℕ, ◌+◌, ◌-◌, ◌*◌, ◌%◌, ◌≤◌, ◌<◌, ◌≡◌, refl, sym, ap, ◌∙◌,
  subst, inl, inr, Bool, true, false, none, some, List, ltb, ◌==◌, resize, overwrite, if◌then◌else◌,
  Result, ok, Fault, is_exception, thrown, arith, if_false, ltb→lt, Bool-cases,
}
use simpletorrent.Util.ByteOrder.{Endian}
use simpletorrent.Message.{get_header_length, parse_handshake_response}
use simpletorrent.PieceManager.{Platform, select_next_block, continue_download}
use simpletorrent.PieceManager.Laws.{IsPlatform}
use simpletorrent.PieceManager.Sizes.{Sizes}
use simpletorrent.Peer.{
  Peer, max_in_flight, send_handshake, receive_handshake_response, message_type,
}
use simpletorrent.Peer.Connection.{
  Connection, MainRoutine, launching, connecting, sending_handshake, awaiting_handshake,
  sending_interested, reading_header, reading_type, reading_payload, exited, escaped, SendRoutine,
  stopped, paused, writing, left, catch, exit, leave, receive_next, launch, detached, connected,
  handshake_read, header_read, payload_read, request_next, send_next,
}
use simpletorrent.Peer.Handlers.{handle_typed-IsHandled}
use simpletorrent.Peer.Sound.{IsConnection}

-- How far each routine is from its end.
abbrev pub main_rank : MainRoutine → ℕ
main_rank launching = 8
main_rank connecting = 7
main_rank sending_handshake = 6
main_rank awaiting_handshake = 5
main_rank sending_interested = 4
main_rank reading_header = 3
main_rank (reading_type length) = 2
main_rank (reading_payload type length) = 1
main_rank exited = 0
main_rank escaped = 0

abbrev pub send_rank : SendRoutine → ℕ → ℕ
send_rank stopped num_in_flight = 0
send_rank paused num_in_flight = 1
send_rank writing num_in_flight = 2 + (5 - (num_in_flight + 1) % 256)
send_rank left num_in_flight = 0

pub main_rank_few : (m : MainRoutine) → main_rank m ≤ 8
main_rank_few launching = omega arith
main_rank_few connecting = omega arith
main_rank_few sending_handshake = omega arith
main_rank_few awaiting_handshake = omega arith
main_rank_few sending_interested = omega arith
main_rank_few reading_header = omega arith
main_rank_few (reading_type length) = omega arith
main_rank_few (reading_payload type length) = omega arith
main_rank_few exited = omega arith
main_rank_few escaped = omega arith

pub send_rank_few : (s : SendRoutine) (f : ℕ) → send_rank s f ≤ 7
send_rank_few stopped f = omega arith
send_rank_few paused f = omega arith
send_rank_few writing f = omega arith
send_rank_few left f = omega arith

abbrev pub rank : Connection → ℕ
rank c = 8 * main_rank c.main_routine + send_rank c.send_routine c.peer.num_in_flight

-- Each result that is no fault has the property.
abbrev pub Each : (Connection → Type 0) → Result Connection → Type 0
Each p r = (d : Connection) → r ≡ ok d → p d

pub Each-ok : (p : Connection → Type 0) (c : Connection) → p c → Each p (ok c)
Each-ok p c h d e = subst p (ok-injective e) h

Each-catch : (p : Connection → Type 0) (bad : Fault) (c : Connection) → p c → Each p (catch bad c)
unfolding catch
Each-catch p bad c h d e = elim (Bool-cases (is_exception bad)) [
  | inl caught ↦ subst p (ok-injective (rw caught at e)) h
  | inr not_caught ↦ absurd (fault-ok (rw not_caught at e))
]

Each-if :
    (p : Connection → Type 0) (b : Bool) (x y : Connection)
    → p x
    → p y
    → Each p (ok (if b then x else y))
Each-if p true x y h k = Each-ok p x h
Each-if p false x y h k = Each-ok p y k

receive_handshake_response-keeps :
    (response : List ℕ) (p q : Peer)
    → receive_handshake_response response p ≡ ok q
    → q.continue_connection ≡ p.continue_connection
unfolding receive_handshake_response
receive_handshake_response-keeps response p q e =
    elim (Result-cases (parse_handshake_response response p.info_hash)) [
      | inl (bad, failed) ↦ absurd (fault-ok (rw (failed, receive_handshake_response) at e))
      | inr (none, refused) ↦ absurd (fault-ok (rw (refused, receive_handshake_response) at e))
      | inr (some id, accepted) ↦
          ap (λ (x : Peer). x.continue_connection)
            (sym (ok-injective (rw (accepted, receive_handshake_response) at e)))
    ]

-- The connection is being ended, and the main routine comes nearer to its end.
abbrev pub MainEnds : ℕ → Connection → Type 0
MainEnds k d = (d.peer.continue_connection ≡ false) × (main_rank d.main_routine < k)

pub receive_next-MainEnds :
    (c : Connection)
    → c.peer.continue_connection ≡ false
    → (k : ℕ) → 0 < k
    → MainEnds k (receive_next c)
unfolding receive_next leave
receive_next-MainEnds c ending k h = rw (ending, receive_next) (refl, h)

module _ (c : Connection) (ending : c.peer.continue_connection ≡ false) where
  pub launch-MainEnds : (valid : Bool) → Each (MainEnds 8) (detached c (launch valid c))
  unfolding launch detached catch
  launch-MainEnds true = Each-ok (MainEnds 8) _ (ending, omega arith)
  launch-MainEnds false = Each-ok (MainEnds 8) _ (ending, omega arith)

  pub connected-MainEnds : c.main_routine ≡ connecting → Each (MainEnds 7) (connected c)
  unfolding connected exit
  connected-MainEnds at_ = elim (Result-cases (send_handshake c.peer)) [
    | inl (bad, failed) ↦
        rw (failed, connected) (Each-catch (MainEnds 7) bad (exit c) (ending, omega arith))
    | inr (handshake, made) ↦ rw (made, connected) (Each-ok (MainEnds 7) _ (ending, omega arith))
  ]

  pub handshake_read-MainEnds :
      (e : Endian) (stop_download : Bool) (bytes : List ℕ)
      → Each (MainEnds 5) (handshake_read e stop_download bytes c)
  unfolding handshake_read exit
  handshake_read-MainEnds e stop_download bytes =
      elim (Result-cases (receive_handshake_response (resize bytes 68 0) c.peer)) [
        | inl (bad, failed) ↦
            rw (failed, handshake_read) (Each-catch (MainEnds 5) bad (exit c) (ending, omega arith))
        | inr (peer, done) ↦
            let going : peer.continue_connection ≡ false =
              receive_handshake_response-keeps (resize bytes 68 0) c.peer peer done ∙ ending in
            rw (done, handshake_read)
              (Each-if (MainEnds 5) (continue_download stop_download c.piece_manager) _ _
                (going, omega arith) (going, omega arith))
      ]

  pub header_read-MainEnds :
      (e : Endian) (bytes : List ℕ) → Each (MainEnds 3) (header_read e bytes c)
  unfolding header_read leave
  header_read-MainEnds e bytes =
      elim (Result-cases (get_header_length e (overwrite c.header 0 bytes))) [
        | inl (bad, failed) ↦
            rw (failed, header_read)
              (Each-catch (MainEnds 3) bad
                (leave (record c { header = overwrite c.header 0 bytes })) (refl, omega arith))
        | inr (message_length, read) ↦
            rw (read, header_read)
              (Each-if (MainEnds 3) (message_length == 0) _ _
                (receive_next-MainEnds (record c { header = overwrite c.header 0 bytes }) ending 3
                  (omega arith))
                (ending, omega arith))
      ]

  pub payload_read-MainEnds :
      (platform : Platform) (law : IsPlatform platform) (e : Endian) (n : ℕ) (sizes : Sizes)
      → IsConnection platform law e n sizes c
      → (type length : ℕ) (bytes : List ℕ)
      → Each (MainEnds 1) (payload_read platform e type length bytes c)
  unfolding payload_read leave
  payload_read-MainEnds platform law e n sizes v type length bytes =
      elim (handle_typed-IsHandled platform law e n sizes c.peer c.piece_manager v.body.pieces
        v.body.good (message_type type) (resize bytes length 0)) [
          | inr failed ↦
              rw (failed, payload_read)
                (Each-catch (MainEnds 1) thrown (leave c) (refl, omega arith))
          | inl (choked, flight, qm, done, _) ↦
              rw (done, payload_read)
                (Each-ok (MainEnds 1) _ (receive_next-MainEnds _ ending 1 (omega arith)))
        ]

-- The connection is not taken up again, and the sending routine comes nearer to its end.
abbrev pub SendEnds : MainRoutine → ℕ → Connection → Type 0
SendEnds m k d =
    (d.peer.continue_connection ≡ false)
    × (d.main_routine ≡ m)
    × (send_rank d.send_routine d.peer.num_in_flight < k)

next_rank : (f : ℕ) → f < 5 → 2 + (5 - (f + 1) % 256) < 2 + (5 - f)
next_rank f h = omega arith

module _ (c : Connection) (ending : c.peer.continue_connection ≡ false) (platform : Platform)
    (e : Endian) where
  pub request_next-SendEnds :
      Each (SendEnds c.main_routine (2 + (5 - c.peer.num_in_flight))) (request_next platform e c)
  unfolding request_next
  request_next-SendEnds =
      let P = SendEnds c.main_routine (2 + (5 - c.peer.num_in_flight)) in
      elim (Bool-cases (ltb c.peer.num_in_flight max_in_flight)) [
        | inr full ↦ rw (full, request_next) (Each-ok P _ (ending, refl, omega arith))
        | inl room ↦
            rw (room, request_next)
              (elim (Result-cases (select_next_block platform c.peer.peer_num_id c.piece_manager)) [
                | inl (bad, failed) ↦
                    rw (failed, request_next) (Each-catch P bad _ (refl, refl, omega arith))
                | inr ((none, pm), done) ↦
                    rw (done, request_next) (Each-ok P _ (ending, refl, omega arith))
                | inr ((some request, pm), done) ↦
                    rw (done, request_next)
                      (Each-ok P _ (
                        ending,
                        refl,
                        next_rank c.peer.num_in_flight
                            (ltb→lt c.peer.num_in_flight max_in_flight room),
                      ))
              ])
      ]

  pub send_next-SendEnds : Each (SendEnds c.main_routine 1) (send_next platform e c)
  unfolding send_next
  send_next-SendEnds =
      subst (Each (SendEnds c.main_routine 1)) (sym (if_false _ _ ending))
        (Each-ok (SendEnds c.main_routine 1) _ (ending, refl, omega arith))
