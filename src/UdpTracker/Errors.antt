-- ===== src/UdpTracker/Errors.antt =====
-- What errors leave of the set of peers in src/udp_tracker.cpp.
use simpletorrent.Base.{
  ℕ, zero, suc, ◌+◌, ◌-◌, ◌*◌, ◌/◌, ◌%◌, ◌^◌, ◌≤◌, min, ◌≡◌, refl, inl, inr, Option, none, some,
  List, length, resize, leb, ok, thrown, or_fault, guard, Yields, Any, Yields-bind, Yields-mono,
  Yields-or_else, Yields-or_fault, Yields-guard, arith, length-resize, Bool-cases,
}
use simpletorrent.Text.{find_from, find_text, substr, substr_from}
use simpletorrent.Util.ByteOrder.{Endian}
use simpletorrent.Util.Hex.{hex_decode}
use simpletorrent.Message.{slice}
use simpletorrent.PeerList.{peer_at, insert}
use simpletorrent.PeerList.Members.{Grows, insert-Grows, slice-inside, peer_at-Yields}
use simpletorrent.UdpTracker.Packets.{slice_whole}
use simpletorrent.UdpTracker.{
  UdpTracker, scheme_end, up_to, extract_host, extract_port, get, check_response,
  receive_connection_id, announce_request, add_responses, receive_peers, Exchange, contact,
  add_peers,
}

substr-Yields : (i n : ℕ) (s : List ℕ) → Yields Any (substr i n s)
unfolding substr
substr-Yields i n s = elim (Bool-cases (leb i (length s))) [ inl h ↦ rw h tt | inr h ↦ rw h refl ]

substr_from-Yields : (i : ℕ) (s : List ℕ) → Yields Any (substr_from i s)
unfolding substr_from
substr_from-Yields i s = elim (Bool-cases (leb i (length s))) [
  | inl h ↦ rw h tt
  | inr h ↦ rw h refl
]

up_to-Yields : (i : ℕ) (o : Option ℕ) (url : List ℕ) → Yields Any (up_to i o url)
unfolding up_to
up_to-Yields i none url = substr_from-Yields i url
up_to-Yields i (some end) url = substr-Yields i (end - i) url

extract_host-Yields : (url : List ℕ) → Yields Any (extract_host url)
unfolding extract_host
extract_host-Yields url =
    Yields-bind Any Any (or_fault (find_text scheme_end url 0) thrown) _
      (Yields-or_fault (find_text scheme_end url 0) thrown refl)
      (λ found done. up_to-Yields (found + 3) _ url)

extract_port-Yields : (url : List ℕ) → Yields Any (extract_port url)
unfolding extract_port
extract_port-Yields url =
    let from : ℕ = elim (find_text scheme_end url 0) [ none ↦ 2 | some found ↦ found + 3 ] in
    Yields-bind Any Any (or_fault (find_from 58 from url) thrown) _
      (Yields-or_fault (find_from 58 from url) thrown refl)
      (λ colon done. up_to-Yields (colon + 1) (find_from 47 (colon + 1) url) url)

get-Yields :
    (e : Endian) (n pos : ℕ) (bytes : List ℕ)
    → pos + n ≤ length bytes
    → Yields Any (get e n pos bytes)
unfolding get
get-Yields e n pos bytes h =
    Yields-bind Any Any (slice pos n bytes) _ (slice-inside pos n bytes h) (λ x done. tt)

check_response-Yields :
    (e : Endian) (action tid : ℕ) (bytes : List ℕ)
    → 8 ≤ length bytes
    → Yields Any (check_response e action tid bytes)
unfolding check_response
check_response-Yields e action tid bytes h =
    Yields-bind Any Any (get e 4 0 bytes) _ (get-Yields e 4 0 bytes (omega (arith, h))) (λ a done.
      Yields-bind Any Any (get e 4 4 bytes) _ (get-Yields e 4 4 bytes (omega (arith, h)))
        (λ t done'. ground arith))

receive_connection_id-Yields :
    (e : Endian) (tid : ℕ) (datagram : Option (List ℕ))
    → Yields Any (receive_connection_id e tid datagram)
unfolding receive_connection_id
receive_connection_id-Yields e tid datagram =
    Yields-bind Any Any (or_fault datagram thrown) _ (Yields-or_fault datagram thrown refl)
      (λ bytes done.
        let size = length-resize bytes 16 0 in
        Yields-bind Any Any (check_response e 0 tid (resize bytes 16 0)) _
          (check_response-Yields e 0 tid (resize bytes 16 0) (omega (arith, size)))
          (λ c done'. get-Yields e 8 8 (resize bytes 16 0) (omega (arith, size))))

module _ (address_text : List ℕ → List ℕ) (e : Endian) where
  add_responses-Yields :
      (count i : ℕ) (bytes : List ℕ) (peer_set : List (List ℕ))
      → 20 + (i + count) * 6 ≤ length bytes
      → Yields (Grows peer_set) (add_responses address_text e count i bytes peer_set)
  unfolding add_responses
  add_responses-Yields zero i bytes peer_set h = λ s k. k
  add_responses-Yields (suc count) i bytes peer_set h =
      Yields-bind Any (Grows peer_set) (peer_at address_text e (20 + i * 6) bytes) _
        (peer_at-Yields address_text e (20 + i * 6) bytes (omega (arith, h)))
        (λ conn done.
          Yields-mono (Grows (insert conn peer_set)) (Grows peer_set)
            (add_responses address_text e count (i + 1) bytes (insert conn peer_set))
            (λ after more s k. more s (insert-Grows conn peer_set s k))
            (add_responses-Yields count (i + 1) bytes (insert conn peer_set) (omega (arith, h))))

  -- No datagram, or one of 20 bytes or more.
  abbrev pub IsLong : Option (List ℕ) → Type 0
  IsLong none = Unit {0}
  IsLong (some bytes) = 20 ≤ length bytes

  receive_peers-Yields :
      (tid : ℕ) (datagram : Option (List ℕ)) (peer_set : List (List ℕ))
      → IsLong datagram
      → Yields (Grows peer_set) (receive_peers address_text e tid datagram peer_set)
  unfolding receive_peers
  receive_peers-Yields tid none peer_set h = refl
  receive_peers-Yields tid (some bytes) peer_set h =
      let size = length-resize bytes 2048 0 in
      let b = min (length bytes) 2048 in
      let fits : 20 + (0 + (b + 2 ^ 64 - 20) % 2 ^ 64 / 6) * 6 ≤ length (resize bytes 2048 0) =
        omega (arith, size, h) in
      Yields-bind Any (Grows peer_set) (check_response e 1 tid (resize bytes 2048 0)) _
        (check_response-Yields e 1 tid (resize bytes 2048 0) (omega (arith, size)))
        (λ c done.
          add_responses-Yields ((b + 2 ^ 64 - 20) % 2 ^ 64 / 6) 0 (resize bytes 2048 0) peer_set
            fits)

  -- For a torrent whose hash decodes to 20 bytes and an id of 20 bytes, on a machine of either byte
  -- order: whatever the address of the tracker is, and whether or not it is resolved or answers, if
  -- what comes as an answer to the announcement has at least 20 bytes, `add_peers` returns, and no
  -- peer is lost from the set; every exception on the way is caught, and nothing is read out of bounds.
  pub add_peers-Grows :
      (x : Exchange) (t : UdpTracker) (hash : List ℕ) (peer_set : List (List ℕ))
      → hex_decode t.info_hash ≡ ok hash
      → length hash ≡ 20
      → length t.our_id ≡ 20
      → IsLong x.announce_answer
      → (after : List (List ℕ)) × (add_peers address_text e x t peer_set ≡ ok after)
        × Grows peer_set after
  unfolding add_peers contact announce_request
  add_peers-Grows x t hash peer_set d p q long =
      let P = Grows peer_set in
      Yields-or_else P (contact address_text e x t peer_set) peer_set
        (Yields-bind Any P (extract_host t.tracker_url) _ (extract_host-Yields t.tracker_url)
          (λ host h.
            Yields-bind Any P (extract_port t.tracker_url) _ (extract_port-Yields t.tracker_url)
              (λ port h'.
                Yields-bind Any P (guard x.resolves thrown) _ (Yields-guard x.resolves thrown refl)
                  (λ r h''.
                    Yields-bind Any P
                      (receive_connection_id e x.connect_transaction x.connect_answer) _
                      (receive_connection_id-Yields e x.connect_transaction x.connect_answer)
                      (λ cid k.
                        rw (d, slice_whole hash 20 p, slice_whole t.our_id 20 q)
                          (receive_peers-Yields x.announce_transaction x.announce_answer peer_set
                            long))))))
        (λ s k. k)
