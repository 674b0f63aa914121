-- ===== src/UdpTracker/Peers.antt =====
-- What src/udp_tracker.cpp takes from the answers of a tracker.
use simpletorrent.Base.{
  ℕ, ◌+◌, ◌-◌, ◌*◌, ◌/◌, ◌%◌, ◌^◌, ◌≤◌, ◌<◌, min, ◌≡◌, refl, sym, ap, ◌∙◌, List, [], ◌∷◌, ◌++◌,
  length, resize, resize-append, replicate, ok, some, arith, length-append, ==_self,
}
use mathlib.Core.List.{append_assoc}
use simpletorrent.Util.ByteOrder.{Endian, network_bytes, length-network_bytes, convert_bo-of_memory}
use simpletorrent.Message.Handshake.{slice-middle}
use simpletorrent.PeerList.{conn_string, peer_at, insert}
use simpletorrent.PeerList.Compact.{
  Address, AllAddresses, compact, insert_all, peer_at-compact, compact_first, compact_behind,
  length-behind, length-compact,
}
use simpletorrent.UdpTracker.{
  get, check_response, add_responses, receive_peers, receive_connection_id,
}

-- A datagram of three parts in an array of `n` bytes.
arrived :
    (xs ys zs : List ℕ) (n k : ℕ)
    → n ≡ length xs + (length ys + length zs) + k
    → resize (xs ++ (ys ++ zs)) n 0 ≡ xs ++ (ys ++ (zs ++ replicate k 0))
arrived xs ys zs n k h =
    resize-append (xs ++ (ys ++ zs)) n k 0
      (omega (arith, length-append xs (ys ++ zs), length-append ys zs))
    ∙ append_assoc xs (ys ++ zs) (replicate k 0)
    ∙ ap (◌++◌ xs) (append_assoc ys zs (replicate k 0))

module _ (address_text : List ℕ → List ℕ) (e : Endian) where
  add_responses-compact :
      (ps : List Address) (i : ℕ) (front tail : List ℕ) (peer_set : List (List ℕ))
      → AllAddresses ps
      → length front ≡ 20 + i * 6
      → add_responses address_text e (length ps) i (front ++ (compact ps ++ tail)) peer_set
        ≡ ok (insert_all address_text ps peer_set)
  unfolding add_responses insert_all
  add_responses-compact [] i front tail peer_set h p = refl
  add_responses-compact (a ∷ rest) i front tail peer_set (q, small, h) p =
      let first : peer_at address_text e (20 + i * 6) (front ++ (compact (a ∷ rest) ++ tail))
          ≡ ok (conn_string address_text a.ip_bytes a.port) =
        ap (peer_at address_text e (20 + i * 6)) (compact_first front tail a rest)
        ∙ peer_at-compact address_text e front (compact rest ++ tail) a (20 + i * 6) p q small in
      let behind = front ++ (a.ip_bytes ++ network_bytes 2 a.port) in
      let size : length behind ≡ 20 + (i + 1) * 6 = omega (arith, length-behind front a q) in
      rw (first, compact_behind front tail a rest)
        (add_responses-compact rest (i + 1) behind tail
          (insert (conn_string address_text a.ip_bytes a.port) peer_set) h size)

  -- An integer in network order at a place of the response.
  get-network :
      (front rest : List ℕ) (n pos x : ℕ)
      → length front ≡ pos
      → x < 256 ^ n
      → get e n pos (front ++ (network_bytes n x ++ rest)) ≡ ok x
  unfolding get
  get-network front rest n pos x p small =
      rw (slice-middle front (network_bytes n x) rest pos n p (length-network_bytes n x))
        (ap ok (convert_bo-of_memory e n x small))

  check_response-network :
      (action transaction_id : ℕ) (rest : List ℕ)
      → action < 2 ^ 32
      → transaction_id < 2 ^ 32
      → check_response e action transaction_id
          (network_bytes 4 action ++ (network_bytes 4 transaction_id ++ rest))
        ≡ ok tt
  unfolding check_response
  check_response-network action transaction_id rest small few =
      let first = get-network [] (network_bytes 4 transaction_id ++ rest) 4 0 action refl small in
      let second =
        get-network (network_bytes 4 action) rest 4 4 transaction_id (length-network_bytes 4 action)
          few in
      rw (first, second, ==_self action, ==_self transaction_id) refl

  -- A tracker that answers with the id of a connection.
  pub receive_connection_id-network :
      (transaction_id connection_id : ℕ)
      → transaction_id < 2 ^ 32
      → connection_id < 2 ^ 64
      → receive_connection_id e transaction_id (
          some (
            network_bytes 4 0
            ++ (network_bytes 4 transaction_id ++ (network_bytes 8 connection_id))))
        ≡ ok connection_id
  unfolding receive_connection_id
  receive_connection_id-network transaction_id connection_id few small =
      let action = network_bytes 4 0 in
      let transaction = network_bytes 4 transaction_id in
      let id = network_bytes 8 connection_id in
      let filled = arrived action transaction id 16 0 (
        omega (
          arith,
          length-network_bytes 4 0,
          length-network_bytes 4 transaction_id,
          length-network_bytes 8 connection_id,
        )) in
      let checked =
        check_response-network 0 transaction_id (id ++ replicate 0 0) (omega arith) few in
      let place : length (action ++ transaction) ≡ 8 = omega (
        arith,
        length-append action transaction,
        length-network_bytes 4 0,
        length-network_bytes 4 transaction_id,
      ) in
      let read : get e 8 8 (action ++ (transaction ++ (id ++ replicate 0 0))) ≡ ok connection_id =
        ap (get e 8 8) (sym (append_assoc action transaction (id ++ replicate 0 0)))
        ∙ get-network (action ++ transaction) (replicate 0 0) 8 8 connection_id place small in
      rw (filled, checked, read) refl

  -- A tracker that answers with some peers, after twelve bytes that are passed over.
  pub receive_peers-network :
      (transaction_id : ℕ) (counts : List ℕ) (ps : List Address) (peer_set : List (List ℕ))
      → transaction_id < 2 ^ 32
      → length counts ≡ 12
      → 20 + 6 * length ps ≤ 2048
      → AllAddresses ps
      → receive_peers address_text e transaction_id
          (some (network_bytes 4 1 ++ (network_bytes 4 transaction_id ++ (counts ++ compact ps))))
          peer_set
        ≡ ok (insert_all address_text ps peer_set)
  unfolding receive_peers
  receive_peers-network transaction_id counts ps peer_set few twelve fits h =
      let action = network_bytes 4 1 in
      let transaction = network_bytes 4 transaction_id in
      let pad = replicate (2048 - (20 + 6 * length ps)) 0 in
      let body : length (counts ++ compact ps) ≡ 12 + 6 * length ps =
        omega (arith, length-append counts (compact ps), length-compact ps h) in
      let filled =
        arrived action transaction (counts ++ compact ps) 2048 (2048 - (20 + 6 * length ps))
          (omega (arith, length-network_bytes 4 1, length-network_bytes 4 transaction_id, body)) in
      let checked =
        check_response-network 1 transaction_id ((counts ++ compact ps) ++ pad) (omega arith) few in
      let whole : length (action ++ (transaction ++ (counts ++ compact ps))) ≡ 20 + 6 * length ps =
        omega (
          arith,
          length-append action (transaction ++ (counts ++ compact ps)),
          length-append transaction (counts ++ compact ps),
          length-network_bytes 4 1,
          length-network_bytes 4 transaction_id,
          body,
        ) in
      let many : (min (20 + 6 * length ps) 2048 + 2 ^ 64 - 20) % 2 ^ 64 / 6 ≡ length ps =
        omega arith in
      let front = (action ++ transaction) ++ counts in
      let place : length front ≡ 20 = omega (
        arith,
        length-append (action ++ transaction) counts,
        length-append action transaction,
        length-network_bytes 4 1,
        length-network_bytes 4 transaction_id,
      ) in
      let shape : action ++ (transaction ++ ((counts ++ compact ps) ++ pad))
          ≡ front ++ (compact ps ++ pad) =
        sym (append_assoc action transaction ((counts ++ compact ps) ++ pad))
        ∙ ap (◌++◌ (action ++ transaction)) (append_assoc counts (compact ps) pad)
        ∙ sym (append_assoc (action ++ transaction) counts (compact ps ++ pad)) in
      rw (filled, checked, whole, many, shape)
        (add_responses-compact ps 0 front pad peer_set h place)
