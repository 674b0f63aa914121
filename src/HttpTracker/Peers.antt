-- ===== src/HttpTracker/Peers.antt =====
-- What src/http_tracker.cpp takes from the response of a tracker.
use simpletorrent.Base.{
  ℕ, zero, suc, ◌+◌, ◌≤◌, ◌≡◌, refl, sym, ap, ◌∙◌, true, false, Option, some, List, [], ◌∷◌, ◌++◌,
  length, ltb, ok, arith, length-append, lt→ltb,
}
use mathlib.Core.List.{append_assoc, append-nil}
use simpletorrent.Util.ByteOrder.{Endian, network_bytes}
use simpletorrent.Bencode.{Data, string, dict, Entries, get_dict, dict_at}
use simpletorrent.PeerList.{conn_string, peer_at, insert}
use simpletorrent.PeerList.Compact.{
  Address, AllAddresses, compact, insert_all, peer_at-compact, compact_first, compact_behind,
  length-behind, length-compact,
}
use simpletorrent.HttpTracker.{
  HttpTracker, Response, peers_key, request_parameters, send_request, add_compact, add_peer_data,
  parse_tracker_response, add_peers,
}

ltb_ge : (a b : ℕ) → b ≤ a → ltb a b ≡ false
ltb_ge a b h = ground arith

module _ (address_text : List ℕ → List ℕ) (e : Endian) where
  pub add_compact-end :
      (fuel i : ℕ) (s : List ℕ) (peer_set : List (List ℕ))
      → length s ≤ i
      → add_compact address_text e fuel i s peer_set ≡ (peer_set, ok tt)
  unfolding add_compact
  add_compact-end zero i s peer_set h = rw (ltb_ge i (length s) h) refl
  add_compact-end (suc fuel) i s peer_set h = rw (ltb_ge i (length s) h) refl

  add_compact-compact :
      (ps : List Address) (fuel i : ℕ) (front : List ℕ) (peer_set : List (List ℕ))
      → AllAddresses ps
      → length front ≡ i
      → length ps ≤ fuel
      → add_compact address_text e fuel i (front ++ compact ps) peer_set
        ≡ (insert_all address_text ps peer_set, ok tt)
  unfolding insert_all add_compact
  add_compact-compact [] fuel i front peer_set h p few =
      add_compact-end fuel i (front ++ compact []) peer_set
        (unfold compact in rw (append-nil front) (omega arith))
  add_compact-compact (a ∷ rest) zero i front peer_set h p few = absurd (omega arith)
  add_compact-compact (a ∷ rest) (suc fuel) i front peer_set (q, small, h) p few =
      let behind = front ++ (a.ip_bytes ++ network_bytes 2 a.port) in
      let size : length behind ≡ i + 6 = omega (arith, length-behind front a q) in
      let more : ltb i (length (front ++ compact (a ∷ rest))) ≡ true = lt→ltb _ _ (
        omega (
          arith,
          length-append front (compact (a ∷ rest)),
          length-compact (a ∷ rest) (q, small, h),
        )) in
      let first : peer_at address_text e i ((front ++ compact (a ∷ rest)) ++ (0 ∷ []))
          ≡ ok (conn_string address_text a.ip_bytes a.port) =
        ap (peer_at address_text e i)
          (append_assoc front (compact (a ∷ rest)) (0 ∷ []) ∙ compact_first front (0 ∷ []) a rest)
        ∙ peer_at-compact address_text e front (compact rest ++ (0 ∷ [])) a i p q small in
      let shape : front ++ compact (a ∷ rest) ≡ behind ++ compact rest =
        ap (◌++◌ front) (sym (append-nil (compact (a ∷ rest))))
        ∙ compact_behind front [] a rest
        ∙ ap (◌++◌ behind) (append-nil (compact rest)) in
      let later =
        add_compact-compact rest fuel (i + 6) behind
          (insert (conn_string address_text a.ip_bytes a.port) peer_set) h size (omega arith) in
      rw (more, first) (rw shape later)

  parse_tracker_response-compact :
      (entries : Entries) (ps : List Address) (peer_set : List (List ℕ))
      → dict_at peers_key entries ≡ ok (string (compact ps))
      → AllAddresses ps
      → parse_tracker_response address_text e (dict entries) peer_set
        ≡ (insert_all address_text ps peer_set, ok tt)
  unfolding parse_tracker_response add_peer_data get_dict
  parse_tracker_response-compact entries ps peer_set found h =
      let fuel : length ps ≤ length (compact ps) = omega (arith, length-compact ps h) in
      rw (found, parse_tracker_response)
        (add_compact-compact ps (length (compact ps)) 0 [] peer_set h refl fuel)

  -- For a torrent whose hash is decoded, on a machine of either byte order: from a response of status
  -- 200 whose text decodes to a dictionary with the peers in compact form, `add_peers` inserts just
  -- these peers, each as its address, a colon and its port.
  pub add_peers-compact :
      (http_get : List ℕ → List (List ℕ × List ℕ) → Response) (decode : List ℕ → Option Data)
      (t : HttpTracker) (hash : List (List ℕ × List ℕ)) (entries : Entries) (ps : List Address)
      (peer_set : List (List ℕ))
      → request_parameters t ≡ ok hash
      → (http_get t.tracker_url hash).status_code ≡ 200
      → decode (http_get t.tracker_url hash).text ≡ some (dict entries)
      → dict_at peers_key entries ≡ ok (string (compact ps))
      → AllAddresses ps
      → add_peers address_text e http_get decode t peer_set
        ≡ ok (insert_all address_text ps peer_set)
  unfolding add_peers send_request
  add_peers-compact http_get decode t hash entries ps peer_set requested status decoded found h =
      rw (requested, status, decoded, parse_tracker_response-compact entries ps peer_set found h)
        refl
