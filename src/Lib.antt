-- ===== src/Lib.antt =====
-- A BitTorrent client: a torrent file is parsed, a tracker gives the addresses of peers, and each
-- peer's connection asks the piece manager which block to request next and hands it the blocks that
-- arrive. The piece manager keeps the pieces under download in a buffer of a fixed number of slots,
-- verifies a piece that is complete against its hash, and hands it to the file manager, whose writer
-- thread spreads it over the files of the torrent.
--
-- - Types: include/simpletorrent/Constant.h and Metadata.h, the enumerations and plain structs.
-- - Util (Util/Hex, Util/ByteOrder): include/simpletorrent/Util.h, `hex_decode`, `to_hex_string` and
--   `convert_bo`. Text and byte strings are lists of numbers; an integer stands in memory by its bytes.
-- - FastRandom: include/simpletorrent/FastRandom.h.
-- - Buffer: src/buffer.cpp and include/simpletorrent/Buffer.h, a function for each method. Buffer/Held
--   gives the finite map of held pieces and the invariant of the two tables, Buffer/Slots,
--   Buffer/Blocks and Buffer/Retrieve what the methods do to that map.
-- - FileManager: src/file_manager.cpp and include/simpletorrent/FileManager.h. FileManager/Layout reads
--   the files as one row of bytes, FileManager/Write shows what a write does to it, Fill the same for
--   files that are still shorter than they are to be, as after their creation, Writer what the loop of
--   the thread does, Places what then stands at the place of a piece, Lengths that the lengths of the
--   files do not depend on the bytes written, and Full what holds of files at their lengths.
-- - PieceManager: src/piece_manager.cpp and include/simpletorrent/PieceManager.h, a function for each
--   method, and one for each part of `select_next_block` and `add_block`. PieceManager/Invariant gives
--   the invariant, States, Request, Requests, Choose, Pick, Chosen and Select follow
--   `select_next_block`, Finish and AddBlock `add_block`, Init and Sizes the constructor, Run, Saved
--   and History any sequence of calls, Disk what the files hold after the writer has taken its queue,
--   Reach their lengths, and Download a whole download from the constructor to the files.
-- - Message: include/simpletorrent/MessageUtil.h, each function for a machine of either byte order.
--   Message/Layout shows where the numbers of a message stand, Message/Handshake and Message/Bitfield
--   what is read from those messages.
-- - PeerManager: src/peer_manager.cpp, include/simpletorrent/PeerManager.h and StateTransition.h, the
--   peers that are connected and the states of all addresses. PeerManager/Live and Opens follow the
--   loops, PeerManager/Steps any sequence of rounds, PeerManager/Loop the loop with its pauses.
-- - Peer: src/peer.cpp and include/simpletorrent/Peer.h, the peer and what it does with a message.
--   Peer/Connection cuts `start` and `send_messages` at each `co_await`: a state says what each of the
--   two routines waits for, and `Step` what comes next. Peer/Handlers and Peer/Sound show what a message
--   and a step leave, Peer/Run any number of steps, Peer/Rank and Peer/Ends that the routines end.
-- - Parser: src/parser.cpp. Bencode has the values that it takes apart; Parser/Hashes and Parser/Parsed
--   say what holds of a torrent that was parsed.
-- - PeerList: the set of peers as texts, and their compact form, which src/udp_tracker.cpp and
--   src/http_tracker.cpp share. UdpTracker: src/udp_tracker.cpp; UdpTracker/Url, Packets, Peers, Errors
--   and Answers take its parts one by one and then a whole run. HttpTracker: src/http_tracker.cpp.
--   Tracker: src/tracker.cpp, which asks them all.
-- - Statistics: the counters of src/statistics.cpp and the text of a duration.
-- - Program: the name of the log file in src/main.cpp, and the id of the client and the preparation of a
--   download in src/torrent_client.cpp.
-- - Text: what the code uses of `std::string`, `std::to_string` and `std::stoi`.
-- - Base: lists, association lists, results and division, shared by the parts. Tests: small runs, and
--   the theorems at concrete inputs.
--
-- A method of a class is a function from the old state to its result and the new state. What the code
-- would do wrong is a fault: `out_of_range`, `parse_exception` and `thrown` for an exception,
-- `assertion` for a failed assert, `undefined` for undefined behaviour, and `diverged` for a loop that
-- has used up its rounds. An unordered map is an association list, and the order of its iteration a
-- parameter; so is the SHA-1 digest, of which only is used that it is text in hexadecimal digits, and
-- the order in which `std::partition` leaves the peers. Integers of 32 and 64 bits are cut where the
-- code may cut them. The search round the pieces in the buffer is given as many rounds as there are
-- pieces, since it ends where it began, and the loops over the hashes of a torrent and over a compact
-- list as many as the text has characters. What arrives from the network, what a failed read or a
-- timer does, and what other connections do in between are arguments of the steps.
--
-- Not modelled: the sockets, timers and the scheduler of asio, the HTTP client and the bencode library,
-- of which only the results are used; `start` of the peer manager, which hands the routines to the
-- scheduler; the flag of src/global_state.cpp, which is an argument of what reads it; the terminal, the
-- drawing thread and the log (src/statistics.cpp, src/logger.cpp); the paths of the files, of which each
-- is taken to name a file of its own, and their directories; a generator asked for more than 2^31
-- numbers, for which the buffer would have to hold as many pieces; an answer of the UDP tracker to a
-- connection that is too short, whose missing bytes are taken for zeros; and a failure to get memory, as
-- for a message that announces four gigabytes.
pub mod Base
pub mod Types
pub mod Util
pub mod Text
pub mod FastRandom
pub mod Message
pub mod FileManager
pub mod Buffer
pub mod PieceManager
pub mod PeerManager
pub mod Peer
pub mod Bencode
pub mod Parser
pub mod Tracker
pub mod UdpTracker
pub mod HttpTracker
pub mod Statistics
pub mod Program
pub mod Tests
pub mod PeerList
