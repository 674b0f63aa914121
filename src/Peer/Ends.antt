-- ===== src/Peer/Ends.antt =====
-- The routines of src/peer.cpp end soon after `continue_connection_` has become false.
use simpletorrent.Base.{
  ok-injective, ℕ, zero, suc, ◌+◌, ◌-◌, ◌%◌, ◌≤◌, ◌<◌, ◌≡◌, refl, sym, ap, subst, inl, inr, ◌⊎◌,
  true, false, [], Result, ok, arith, false-eq-true,
}
use simpletorrent.Util.ByteOrder.{Endian}
use simpletorrent.PieceManager.{Platform}
use simpletorrent.PieceManager.Laws.{IsPlatform}
use simpletorrent.PieceManager.Sizes.{Sizes}
use simpletorrent.Peer.{has_exited}
use simpletorrent.Peer.Connection.{
  Connection, MainRoutine, launching, connecting, sending_handshake, awaiting_handshake,
  sending_interested, reading_header, reading_type, reading_payload, exited, escaped, SendRoutine,
  stopped, paused, writing, left, catch, launch, detached, interested_written, request_written,
  timed_out, Step, launches, connects, writes_handshake, reads_handshake, writes_interested,
  reads_header, reads_type, reads_payload, sends, writes_request, times_out,
}
use simpletorrent.Peer.Sound.{IsConnection, Step-Returns}
use simpletorrent.Peer.Run.{Run, share}
use simpletorrent.Peer.Rank.{
  main_rank, send_rank, rank, main_rank_few, send_rank_few, MainEnds, SendEnds, Each-ok,
  receive_next-MainEnds, launch-MainEnds, connected-MainEnds, handshake_read-MainEnds,
  header_read-MainEnds, payload_read-MainEnds, request_next-SendEnds, send_next-SendEnds,
}

module _ (platform : Platform) (law : IsPlatform platform) (e : Endian) (n : ℕ)
    (sizes : Sizes) where
  main-lower :
      (c d : Connection) (k : ℕ)
      → main_rank c.main_routine ≡ k
      → MainEnds k d
      → (d.peer.continue_connection ≡ false) × (rank d < rank c)
  main-lower c d k at_ (ending, lower) =
      (ending, omega (arith, send_rank_few d.send_routine d.peer.num_in_flight))

  send-lower :
      (c d : Connection) (k : ℕ)
      → send_rank c.send_routine c.peer.num_in_flight ≡ k
      → SendEnds c.main_routine k d
      → (d.peer.continue_connection ≡ false) × (rank d < rank c)
  send-lower c d k at_ (ending, same, lower) =
      (ending, (let r = ap main_rank same in omega (arith, r)))

  Step-lower :
      (c d : Connection)
      → IsConnection platform law e n sizes c
      → c.peer.continue_connection ≡ false
      → Step platform e c (ok d)
      → (d.peer.continue_connection ≡ false) × (rank d < rank c)
  unfolding launch detached catch interested_written timed_out request_written
  Step-lower c d v ending (launches valid at_ same) =
      main-lower c d 8 (rw at_ refl) (launch-MainEnds c ending valid d (sym same))
  Step-lower c d v ending (connects at_ same) =
      main-lower c d 7 (rw at_ refl) (connected-MainEnds c ending at_ d (sym same))
  Step-lower c d v ending (writes_handshake at_ same) =
      main-lower c d 6 (rw at_ refl) (Each-ok (MainEnds 6) _ (ending, omega arith) d (sym same))
  Step-lower c d v ending (reads_handshake stop_download bytes at_ same) =
      main-lower c d 5 (rw at_ refl)
        (handshake_read-MainEnds c ending e stop_download bytes d (sym same))
  Step-lower c d v ending (writes_interested at_ same) =
      main-lower c d 4 (rw at_ refl)
        (Each-ok (MainEnds 4) _ (receive_next-MainEnds _ ending 4 (omega arith)) d (sym same))
  Step-lower c d v ending (reads_header bytes at_ same) =
      main-lower c d 3 (rw at_ refl) (header_read-MainEnds c ending e bytes d (sym same))
  Step-lower c d v ending (reads_type length type at_ same) =
      main-lower c d 2 (rw at_ refl) (Each-ok (MainEnds 2) _ (ending, omega arith) d (sym same))
  Step-lower c d v ending (reads_payload type length bytes at_ same) =
      main-lower c d 1 (rw at_ refl)
        (payload_read-MainEnds c ending platform law e n sizes v type length bytes d (sym same))
  Step-lower c d v ending (sends at_ same) =
      send-lower c d 1 (rw at_ refl) (send_next-SendEnds c ending platform e d (sym same))
  Step-lower c d v ending (writes_request at_ same) =
      send-lower c d (2 + (5 - (c.peer.num_in_flight + 1) % 256)) (rw at_ refl)
        (request_next-SendEnds _ ending platform e d (sym same))
  Step-lower c d v ending (times_out at_ same) = absurd (false-eq-true ending at_)

  Run-ends :
      (k : ℕ) (c d : Connection)
      → IsConnection platform law e n sizes c
      → c.peer.continue_connection ≡ false
      → Run platform law e n sizes k c d
      → (k ≤ rank c) × IsConnection platform law e n sizes d
  Run-ends zero c d v ending same =
      (omega arith, subst (IsConnection platform law e n sizes) same v)
  Run-ends (suc k) c d v ending (pm, good, (m, step, rest)) =
      let b : Connection = record c { piece_manager = pm } in
      let w = share platform law e n sizes c pm good v in
      let (still, lower) = Step-lower b m w ending step in
      let (m', same, x) = Step-Returns platform law e n sizes b (ok m) w step in
      let y : IsConnection platform law e n sizes m =
        subst (IsConnection platform law e n sizes) (sym (ok-injective same)) x in
      let (few, z) = Run-ends k m d y still rest in (omega arith, z)

  rank_few : (c : Connection) → rank c ≤ 71
  rank_few c =
      let f = send_rank_few c.send_routine c.peer.num_in_flight in
      omega (arith, main_rank_few c.main_routine, f)

  -- A connection that waits for nothing has exited.
  waits :
      (c : Connection) (m : MainRoutine) (s : SendRoutine)
      → c.main_routine ≡ m
      → c.send_routine ≡ s
      → IsConnection platform law e n sizes c
      → ((r : Result Connection) → Step platform e c r → ⊥)
      → (has_exited c.peer ≡ true) ⊎ (c.main_routine ≡ escaped)
  unfolding has_exited
  waits c launching s at_ now v stuck = absurd (stuck _ (launches true at_ refl))
  waits c connecting s at_ now v stuck = absurd (stuck _ (connects at_ refl))
  waits c sending_handshake s at_ now v stuck = absurd (stuck _ (writes_handshake at_ refl))
  waits c awaiting_handshake s at_ now v stuck = absurd (stuck _ (reads_handshake true [] at_ refl))
  waits c sending_interested s at_ now v stuck = absurd (stuck _ (writes_interested at_ refl))
  waits c reading_header s at_ now v stuck = absurd (stuck _ (reads_header [] at_ refl))
  waits c (reading_type length) s at_ now v stuck = absurd (stuck _ (reads_type length 0 at_ refl))
  waits c (reading_payload type length) s at_ now v stuck =
      absurd (stuck _ (reads_payload type length [] at_ refl))
  waits c escaped s at_ now v stuck = inr at_
  waits c exited paused at_ now v stuck = absurd (stuck _ (sends now refl))
  waits c exited writing at_ now v stuck = absurd (stuck _ (writes_request now refl))
  waits c exited left at_ now v stuck = absurd (v.not_left now)
  waits c exited stopped at_ now v stuck = inl (rw (v.main_flag, v.send_flag, at_, now) refl)

  -- Once `continue_connection_` of a sound connection is false, as after a timeout, the two routines
  -- take at most 71 more steps, whatever arrives and whatever other connections do with the piece
  -- manager in between; and where neither can take another, `has_exited` holds, unless `make_address`
  -- refused the address of the peer.
  pub Run-Ends :
      (k : ℕ) (c d : Connection)
      → IsConnection platform law e n sizes c
      → c.peer.continue_connection ≡ false
      → Run platform law e n sizes k c d
      → (k ≤ 71)
        × (((r : Result Connection) → Step platform e d r → ⊥)
            → (has_exited d.peer ≡ true) ⊎ (d.main_routine ≡ escaped))
  Run-Ends k c d v ending run =
      let (few, w) = Run-ends k c d v ending run in
      (omega (arith, rank_few c), λ stuck. waits d d.main_routine d.send_routine refl refl w stuck)
