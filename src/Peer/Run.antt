-- ===== src/Peer/Run.antt =====
-- The steps of a connection of src/peer.cpp one after the other.
use simpletorrent.Base.{
  ok-injective, ℕ, zero, suc, ◌≡◌, refl, sym, subst, true, List, all_of, Result, ok, arith,
}
use simpletorrent.Util.Hex.{is_hex_digit}
use simpletorrent.Util.ByteOrder.{Endian}
use simpletorrent.PieceManager.{Platform, PieceManager}
use simpletorrent.PieceManager.Laws.{IsPlatform}
use simpletorrent.PieceManager.Sizes.{Sizes}
use simpletorrent.PieceManager.History.{Good}
use simpletorrent.Peer.{init}
use simpletorrent.Peer.Connection.{Connection, start, Step}
use simpletorrent.Peer.Sound.{IsConnection, Returns, Step-Returns}

module _ (platform : Platform) (law : IsPlatform platform) (e : Endian) (n : ℕ)
    (sizes : Sizes) where
  -- `k` steps of a connection. In between, other connections use the piece manager, which stays good.
  abbrev pub Run : ℕ → Connection → Connection → Type 0
  Run zero c d = c ≡ d
  Run (suc k) c d =
      (pm : PieceManager) × Good platform n sizes pm
      × ((m : Connection) × Step platform e (record c { piece_manager = pm }) (ok m) × Run k m d)

  pub share :
      (c : Connection) (pm : PieceManager)
      → Good platform n sizes pm
      → IsConnection platform law e n sizes c
      → IsConnection platform law e n sizes (record c { piece_manager = pm })
  share c pm good v = record {
    body = record { good = good; pieces = v.body.pieces; hash = v.body.hash; size = v.body.size };
    main_flag = v.main_flag;
    send_flag = v.send_flag;
    not_left = v.not_left;
  }

  Run-IsConnection :
      (k : ℕ) (c d : Connection)
      → IsConnection platform law e n sizes c
      → Run k c d
      → IsConnection platform law e n sizes d
  Run-IsConnection zero c d v same = subst (IsConnection platform law e n sizes) same v
  Run-IsConnection (suc k) c d v (pm, good, (m, step, rest)) =
      let w = share c pm good v in
      let (m', same, x) =
        Step-Returns platform law e n sizes (record c { piece_manager = pm }) (ok m) w step in
      Run-IsConnection k m d
        (subst (IsConnection platform law e n sizes) (sym (ok-injective same)) x) rest

  -- From the constructor of a peer on, for an info hash in hexadecimal digits and the right number of
  -- pieces, on a machine of either byte order: after any number of steps of its two routines, in any
  -- order, whatever arrives, and whether or not reads fail, timers expire or the download is stopped,
  -- while other connections keep the piece manager good, each next step returns and keeps it good. No
  -- exception ends `send_messages`. The flag of `send_messages` is set just while it is not running,
  -- and that of `start` just when it has ended by itself: an exception of `make_address`, which ends it
  -- as well, leaves the flag unset.
  pub Run-start-Returns :
      (info_hash our_id ip_address : List ℕ) (port_ peer_num_id count k : ℕ) (pm : PieceManager)
      → all_of is_hex_digit info_hash ≡ true
      → Good platform n sizes pm
      → (d : Connection)
      → Run k (start (init info_hash our_id ip_address port_ peer_num_id n) pm count) d
      → (qm : PieceManager) → Good platform n sizes qm
      → (r : Result Connection) → Step platform e (record d { piece_manager = qm }) r
      → Returns platform law e n sizes r
  unfolding start init
  Run-start-Returns info_hash our_id ip_address port_ peer_num_id count k pm hash good d run qm fine
        r step =
      let begin : IsConnection platform law e n sizes
          (start (init info_hash our_id ip_address port_ peer_num_id n) pm count) =
        record {
          body = record { good = good; pieces = refl; hash = hash; size = refl };
          main_flag = refl;
          send_flag = refl;
          not_left = λ h. ground arith;
        } in
      let v = Run-IsConnection k _ d begin run in
      Step-Returns platform law e n sizes (record d { piece_manager = qm }) r (share d qm fine v)
        step
