-- ===== src/Peer/Connection.antt =====
-- The routines `start` and `send_messages` of src/peer.cpp, cut at each `co_await`: a state says what
-- each of the two waits for, and a step is what one of them does until it waits again.
use simpletorrent.Base.{
  ℕ, ◌+◌, ◌-◌, ◌%◌, ◌≡◌, Bool, true, false, none, some, List, [], ◌∷◌, ◌++◌, ltb, ◌==◌,
  if◌then◌else◌, resize, overwrite, Result, ok, fault, Fault, thrown, is_exception,
}
use simpletorrent.Util.ByteOrder.{Endian}
use simpletorrent.Message.{construct_request_message, get_header_length}
use simpletorrent.PieceManager.{Platform, PieceManager, select_next_block, continue_download}
use simpletorrent.Peer.{
  Peer, max_in_flight, send_handshake, send_interested, receive_handshake_response, message_type,
  handle_typed,
}

-- What `start` waits for. `escaped` is the routine left by an exception of `make_address`, which is
-- outside its `try` blocks.
pub data MainRoutine : Type 0 where
  launching connecting sending_handshake awaiting_handshake sending_interested : MainRoutine
  reading_header : MainRoutine
  reading_type : ℕ → MainRoutine
  reading_payload : ℕ → ℕ → MainRoutine
  exited escaped : MainRoutine

-- What `send_messages` waits for: the timer of its loop, or the end of a write. `left` is the routine
-- left by its exception branch, `stopped` the routine at its end or not begun.
pub data SendRoutine : Type 0 where
  stopped paused writing left : SendRoutine

-- `header` is the variable of `receive_messages`, and `sent` what was written to the socket.
pub record Connection : Type 0 where
  pub peer : Peer
  pub piece_manager : PieceManager
  pub peer_connected_count : ℕ
  pub header : List ℕ
  pub main_routine : MainRoutine
  pub send_routine : SendRoutine
  pub sent : List (List ℕ)

-- `start` of a new peer, with the count of the peers that are connected.
unfoldable pub start : Peer → PieceManager → ℕ → Connection
start peer piece_manager peer_connected_count = record {
  peer = peer;
  piece_manager = piece_manager;
  peer_connected_count = peer_connected_count;
  header = 0 ∷ 0 ∷ 0 ∷ 0 ∷ [];
  main_routine = launching;
  send_routine = stopped;
  sent = [];
}

-- What a `catch (const std::exception&)` makes of a fault.
unfoldable pub catch : Fault → Connection → Result Connection
catch bad handled = if is_exception bad then ok handled else fault bad

-- `main_routine_has_exited_ = true; co_return;`.
unfoldable pub exit : Connection → Connection
exit c = record c { peer = record c.peer { main_routine_has_exited = true }; main_routine = exited }

-- The end of `start`, when `receive_messages` has returned or thrown. The count is an `int` that was
-- raised before.
unfoldable pub leave : Connection → Connection
leave c = record c {
  peer = record c.peer { continue_connection = false; main_routine_has_exited = true };
  peer_connected_count = c.peer_connected_count - 1;
  main_routine = exited;
}

-- The condition of the loop of `receive_messages`.
unfoldable pub receive_next : Connection → Connection
receive_next c =
    if c.peer.continue_connection then record c { main_routine = reading_header } else leave c

-- `start`, up to the connection; `valid` says whether `make_address` takes the address or throws. It is
-- called outside the `try` blocks.
unfoldable pub launch : Bool → Connection → Result Connection
launch valid c = if valid then ok (record c { main_routine = connecting }) else fault thrown

-- What `co_spawn` with `detached` makes of a routine that an exception has left: the exception is
-- dropped, and the routine does not go on.
unfoldable pub detached : Connection → Result Connection → Result Connection
detached c (ok d) = ok d
detached c (fault bad) = catch bad (record c { main_routine = escaped })

-- The attempt to connect is over; that it failed is not looked at.
unfoldable pub connected : Connection → Result Connection
connected c = elim (send_handshake c.peer) [
  | fault bad ↦ catch bad (exit c)
  | ok handshake ↦
      ok (record c { sent = c.sent ++ (handshake ∷ []); main_routine = sending_handshake })
]

-- The read of the handshake is over. The array has 68 bytes, whatever was read.
unfoldable pub handshake_read : Endian → Bool → List ℕ → Connection → Result Connection
handshake_read e stop_download bytes c =
    elim (receive_handshake_response (resize bytes 68 0) c.peer) [
      | fault bad ↦ catch bad (exit c)
      | ok peer ↦ ok (
          if continue_download stop_download c.piece_manager
          then record c {
            peer = peer;
            sent = c.sent ++ (send_interested e ∷ []);
            main_routine = sending_interested;
          }
          else exit (record c { peer = peer }))
    ]

-- `send_messages` is spawned, and `receive_messages` begins.
unfoldable pub interested_written : Connection → Connection
interested_written c = receive_next (record c {
  peer = record c.peer { spawned_routine_has_exited = false };
  peer_connected_count = c.peer_connected_count + 1;
  header = 0 ∷ 0 ∷ 0 ∷ 0 ∷ [];
  send_routine = paused;
})

-- A read that fails early leaves the rest of the four bytes as it was.
unfoldable pub header_read : Endian → List ℕ → Connection → Result Connection
header_read e bytes c =
    let header = overwrite c.header 0 bytes in
    elim (get_header_length e header) [
      | fault bad ↦ catch bad (leave (record c { header = header }))
      | ok message_length ↦ ok (
          if message_length == 0
          then receive_next (record c { header = header })
          else record c { header = header; main_routine = reading_type message_length })
    ]

-- The payload has the length that was announced: what was read of it, and zeros.
unfoldable pub payload_read : Platform → Endian → ℕ → ℕ → List ℕ → Connection → Result Connection
payload_read platform e type payload_length bytes c =
    elim (handle_typed platform e (message_type type) (resize bytes payload_length 0) c.peer
      c.piece_manager) [
        | fault bad ↦ catch bad (leave c)
        | ok (peer, piece_manager) ↦
            ok (receive_next (record c { peer = peer; piece_manager = piece_manager }))
      ]

-- The loop of `send_block_requests`, up to the write of a request.
unfoldable pub request_next : Platform → Endian → Connection → Result Connection
request_next platform e c =
    if ltb c.peer.num_in_flight max_in_flight
    then elim (select_next_block platform c.peer.peer_num_id c.piece_manager) [
      | fault bad ↦
          catch bad
            (record c { peer = record c.peer { continue_connection = false }; send_routine = left })
      | ok (none, piece_manager) ↦
          ok (record c { piece_manager = piece_manager; send_routine = paused })
      | ok (some block_request, piece_manager) ↦ ok (record c {
        piece_manager = piece_manager;
        sent = c.sent ++ (construct_request_message e block_request ∷ []);
        send_routine = writing;
      })
    ]
    else ok (record c { send_routine = paused })

-- The condition of the loop of `send_messages`, and the start of `send_block_requests`.
unfoldable pub send_next : Platform → Endian → Connection → Result Connection
send_next platform e c =
    if c.peer.continue_connection
    then (if c.peer.is_choked
        then ok (record c { send_routine = paused })
        else request_next platform e c)
    else ok (record c {
      peer = record c.peer { spawned_routine_has_exited = true };
      send_routine = stopped;
    })

unfoldable pub request_written : Platform → Endian → Connection → Result Connection
request_written platform e c =
    request_next platform e
      (record c { peer = record c.peer { num_in_flight = (c.peer.num_in_flight + 1) % 256 } })

-- The handler that `set_timeout` gives the timer.
unfoldable pub timed_out : Connection → Connection
timed_out c = record c { peer = record c.peer { continue_connection = false } }

-- What comes next on a connection. The bytes read are any, also those that a failed read leaves.
pub data Step (platform : Platform) (e : Endian) (c : Connection) (r : Result Connection)
    : Type 0 where
  launches :
      (valid : Bool)
      → c.main_routine ≡ launching
      → r ≡ detached c (launch valid c)
      → Step platform e c r
  connects : c.main_routine ≡ connecting → r ≡ connected c → Step platform e c r
  writes_handshake :
      c.main_routine ≡ sending_handshake
      → r ≡ ok (record c { main_routine = awaiting_handshake })
      → Step platform e c r
  reads_handshake :
      (stop_download : Bool) (bytes : List ℕ)
      → c.main_routine ≡ awaiting_handshake
      → r ≡ handshake_read e stop_download bytes c
      → Step platform e c r
  writes_interested :
      c.main_routine ≡ sending_interested → r ≡ ok (interested_written c) → Step platform e c r
  reads_header :
      (bytes : List ℕ)
      → c.main_routine ≡ reading_header
      → r ≡ header_read e bytes c
      → Step platform e c r
  reads_type :
      (length type : ℕ)
      → c.main_routine ≡ reading_type length
      → r ≡ ok (record c { main_routine = reading_payload type (length - 1) })
      → Step platform e c r
  reads_payload :
      (type length : ℕ) (bytes : List ℕ)
      → c.main_routine ≡ reading_payload type length
      → r ≡ payload_read platform e type length bytes c
      → Step platform e c r
  sends : c.send_routine ≡ paused → r ≡ send_next platform e c → Step platform e c r
  writes_request : c.send_routine ≡ writing → r ≡ request_written platform e c → Step platform e c r
  times_out : c.peer.continue_connection ≡ true → r ≡ ok (timed_out c) → Step platform e c r
