-- ===== src/Tests/Connections.antt =====
-- A connection of src/peer.cpp to a peer that has announced its pieces.
use simpletorrent.Base.{◌≤◌, ◌≡◌, refl, sym, ◌⊎◌, true, false, [], ◌∷◌, Result, ok, arith}
use simpletorrent.Message.{get_header_length, slice}
use simpletorrent.Peer.{init, has_exited, handle_typed, message_type, handle_message}
use simpletorrent.Peer.Connection.{
  Connection, start, launch, detached, connected, leave, receive_next, header_read, payload_read,
  send_next, Step, launches, connects, sends, reads_header, launching, connecting, exited, escaped,
  reading_header, paused, stopped,
}
use simpletorrent.Peer.Sound.{IsConnection, Returns}
use simpletorrent.Peer.Run.{Run, Run-start-Returns}
use simpletorrent.Peer.Ends.{Run-Ends}
use simpletorrent.Tests.Pieces.{waiting, waiting-Good, platform, platform_law, torrent}
use simpletorrent.PieceManager.Sizes.{sizes_of}
use simpletorrent.Util.ByteOrder.{little, convert_bo, of_memory, to_memory, of_le, le_bytes}

-- The connection just begun, and after `make_address` has taken the address.
abbrev begun : Connection
begun = start (init [] [] [] 6881 7 2) waiting 0

begun_lem : begun.main_routine ≡ launching
unfolding start
begun_lem = refl

abbrev launched : Connection
launched = record begun { main_routine = connecting }

launched_lem : detached begun (launch true begun) ≡ ok launched
unfolding launch detached
launched_lem = refl

Run-start-Returns_example :
    Returns platform platform_law little 2 (sizes_of torrent 2) (connected launched)
unfolding start
Run-start-Returns_example =
    Run-start-Returns platform platform_law little 2 (sizes_of torrent 2) [] [] [] 6881 7 0 1
      waiting refl waiting-Good launched
      (waiting, waiting-Good, (launched, launches true begun_lem (sym launched_lem), refl)) waiting
      waiting-Good (connected launched) (connects refl refl)

-- A connection in the loops of both routines, when a timer has expired.
abbrev ending : Connection
ending = record {
  peer = record {
    info_hash = [];
    our_id = [];
    ip_address = [];
    port = 6881;
    peer_id = [];
    num_in_flight = 2;
    peer_num_id = 7;
    is_choked = false;
    num_pieces = 2;
    continue_connection = false;
    main_routine_has_exited = false;
    spawned_routine_has_exited = false;
  };
  piece_manager = waiting;
  peer_connected_count = 1;
  header = 0 ∷ 0 ∷ 0 ∷ 0 ∷ [];
  main_routine = reading_header;
  send_routine = paused;
  sent = [];
}

ending-IsConnection : IsConnection platform platform_law little 2 (sizes_of torrent 2) ending
ending-IsConnection = record {
  body = record { good = waiting-Good; pieces = refl; hash = refl; size = refl };
  main_flag = refl;
  send_flag = refl;
  not_left = λ h. ground arith;
}

-- Both routines see the flag and end.
abbrev sender_ended : Connection
sender_ended = record ending {
  peer = record ending.peer { spawned_routine_has_exited = true };
  send_routine = stopped;
}

abbrev both_ended : Connection
both_ended = record sender_ended {
  peer = record sender_ended.peer { main_routine_has_exited = true };
  peer_connected_count = 0;
  main_routine = exited;
}

ending-Run : Run platform platform_law little 2 (sizes_of torrent 2) 2 ending both_ended
unfolding send_next header_read get_header_length slice convert_bo of_memory to_memory of_le
    le_bytes receive_next leave
ending-Run = (
  waiting,
  waiting-Good,
  (
    sender_ended,
    sends refl refl,
    (waiting, waiting-Good, (both_ended, reads_header [] refl refl, refl)),
  ),
)

Run-Ends_example :
    (2 ≤ 71)
    × (((r : Result Connection) → Step platform little both_ended r → ⊥)
        → (has_exited both_ended.peer ≡ true) ⊎ (both_ended.main_routine ≡ escaped))
Run-Ends_example =
    Run-Ends platform platform_law little 2 (sizes_of torrent 2) 2 ending both_ended
      ending-IsConnection refl ending-Run

-- A message that unchokes.
abbrev reading : Connection
reading = record ending {
  peer = record ending.peer { continue_connection = true; is_choked = true };
}

unchoke_read :
    payload_read platform little 1 0 [] reading
    ≡ ok (record ending { peer = record ending.peer { continue_connection = true } })
unfolding payload_read handle_typed message_type handle_message receive_next
unchoke_read = refl
