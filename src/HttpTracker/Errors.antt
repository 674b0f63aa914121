-- ===== src/HttpTracker/Errors.antt =====
-- What errors leave of the set of peers in src/http_tracker.cpp.
use simpletorrent.Base.{
  ℕ, zero, suc, ◌+◌, ◌-◌, ◌%◌, ◌≤◌, ◌≡◌, refl, sym, inl, inr, ◌⊎◌, Option, none, some, List, [],
  ◌∷◌, ◌++◌, length, ltb, ◌==◌, Result, ok, fault, thrown, ◌>>=◌, or_else, Yields, Any, Yields-bind,
  Yields-or_else, ==→eq, arith, length-append, ltb→lt, ltb-ge, if_true, subst, Bool-cases,
  Option-cases,
}
use simpletorrent.Util.ByteOrder.{Endian}
use simpletorrent.Bencode.{
  Data, integer, string, list, dict, Items, end, item, get_integer, get_string, get_dict, dict_at,
}
use simpletorrent.Bencode.Total.{
  get_integer-Yields, get_string-Yields, get_dict-Yields, dict_at-Yields, field-bind,
}
use simpletorrent.PeerList.{peer_at, insert}
use simpletorrent.PeerList.Members.{Grows, insert-Grows, peer_at-Yields}
use simpletorrent.HttpTracker.{
  HttpTracker, Response, peers_key, ip_key, port_key, request_parameters, send_request, listed_peer,
  add_listed, add_compact, add_peer_data, parse_tracker_response, add_peers,
}
use simpletorrent.HttpTracker.Peers.{add_compact-end}

listed_peer-Yields : (peer : Data) → Yields Any (listed_peer peer)
unfolding listed_peer
listed_peer-Yields peer = Yields-bind Any Any (get_dict peer) _ (get_dict-Yields peer) (λ d a.
    field-bind get_string get_string-Yields Any ip_key d _
      (λ ip. field-bind get_integer get_integer-Yields Any port_key d _ (λ port. tt)))

-- The set has grown, and the loop has ended or thrown an exception.
abbrev pub Left : List (List ℕ) → List (List ℕ) × Result (Unit {0}) → Type 0
Left peer_set (after, end_) = Grows peer_set after × Yields Any end_

Left-insert :
    (s : List ℕ) (peer_set : List (List ℕ)) (r : List (List ℕ) × Result (Unit {0}))
    → Left (insert s peer_set) r
    → Left peer_set r
Left-insert s peer_set (after, end_) (grows, y) = (λ t h. grows t (insert-Grows s peer_set t h), y)

-- One round of a loop, and the rest of it.
Left-round :
    (peer_set : List (List ℕ)) (r : Result (List ℕ))
    (next : List ℕ → List (List ℕ) × Result (Unit {0}))
    → Yields Any r
    → ((s : List ℕ) → Left (insert s peer_set) (next s))
    → Left peer_set (elim r [ fault bad ↦ (peer_set, fault bad) | ok conn_str ↦ next conn_str ])
Left-round peer_set (ok s) next y f = Left-insert s peer_set (next s) (f s)
Left-round peer_set (fault bad) next y f = (λ s h. h, y)

add_listed-Left :
    (items : Items) (peer_set : List (List ℕ)) → Left peer_set (add_listed items peer_set)
unfolding add_listed
add_listed-Left end peer_set = (λ s h. h, tt)
add_listed-Left (item peer rest) peer_set =
    Left-round peer_set (listed_peer peer) (λ s. add_listed rest (insert s peer_set))
      (listed_peer-Yields peer) (λ s. add_listed-Left rest (insert s peer_set))

-- A compact form has six bytes for each peer.
abbrev pub IsWhole : Data → Type 0
IsWhole (string s) = length s % 6 ≡ 0
IsWhole (integer n) = Unit {0}
IsWhole (list items) = Unit {0}
IsWhole (dict entries) = Unit {0}

module _ (address_text : List ℕ → List ℕ) (e : Endian) where
  add_compact-Left :
      (fuel i : ℕ) (s : List ℕ) (peer_set : List (List ℕ))
      → (length s - i) % 6 ≡ 0
      → length s ≤ fuel + i
      → Left peer_set (add_compact address_text e fuel i s peer_set)
  unfolding add_compact
  add_compact-Left zero i s peer_set whole few =
      subst (Left peer_set) (sym (add_compact-end address_text e zero i s peer_set (omega arith)))
        (λ t h. h, tt)
  add_compact-Left (suc fuel) i s peer_set whole few = elim (Bool-cases (ltb i (length s))) [
    | inr over ↦
        subst (Left peer_set)
          (sym (add_compact-end address_text e (suc fuel) i s peer_set (ltb-ge i (length s) over)))
          (λ t h. h, tt)
    | inl inside ↦
        let six : i + 6 ≤ length (s ++ (0 ∷ [])) =
          omega (arith, length-append s (0 ∷ []), ltb→lt i (length s) inside) in
        subst (Left peer_set) (sym (if_true _ _ inside)) (
          Left-round peer_set (peer_at address_text e i (s ++ (0 ∷ [])))
            (λ t. add_compact address_text e fuel (i + 6) s (insert t peer_set))
            (peer_at-Yields address_text e i (s ++ (0 ∷ [])) six)
            (λ t.
              add_compact-Left fuel (i + 6) s (insert t peer_set)
                (omega (arith, ltb→lt i (length s) inside)) (omega arith)))
  ]

  add_peer_data-Left :
      (d : Data) (peer_set : List (List ℕ))
      → IsWhole d
      → Left peer_set (add_peer_data address_text e d peer_set)
  unfolding add_peer_data
  add_peer_data-Left (integer n) peer_set w = (λ t h. h, tt)
  add_peer_data-Left (string s) peer_set w =
      add_compact-Left (length s) 0 s peer_set (omega (arith, w)) (omega arith)
  add_peer_data-Left (list items) peer_set w = add_listed-Left items peer_set
  add_peer_data-Left (dict entries) peer_set w = (λ t h. h, tt)

  -- The data under the key of the peers, if it is there, has no bytes left over.
  abbrev pub HasWholePeers : Data → Type 0
  HasWholePeers (integer n) = Unit {0}
  HasWholePeers (string s) = Unit {0}
  HasWholePeers (list items) = Unit {0}
  HasWholePeers (dict entries) = (d : Data) → dict_at peers_key entries ≡ ok d → IsWhole d

  parse_tracker_response-Left :
      (response : Data) (peer_set : List (List ℕ))
      → HasWholePeers response
      → Left peer_set (parse_tracker_response address_text e response peer_set)
  unfolding parse_tracker_response get_dict
  parse_tracker_response-Left (integer n) peer_set w = (λ t h. h, refl)
  parse_tracker_response-Left (string s) peer_set w = (λ t h. h, refl)
  parse_tracker_response-Left (list items) peer_set w = (λ t h. h, refl)
  parse_tracker_response-Left (dict entries) peer_set w =
      found (dict_at peers_key entries) (dict_at-Yields peers_key entries) w
    where
      found :
          (r : Result Data)
          → Yields Any r
          → ((d : Data) → r ≡ ok d → IsWhole d)
          → Left peer_set (elim r [
            | fault bad ↦ (peer_set, fault bad)
            | ok d ↦ add_peer_data address_text e d peer_set
          ])
      found (ok d) y whole = add_peer_data-Left d peer_set (whole d refl)
      found (fault bad) y whole = (λ t h. h, y)

  caught :
      (peer_set : List (List ℕ)) (left : List (List ℕ) × Result (Unit {0}))
      → Left peer_set left
      → (after : List (List ℕ)) × ((or_else left.1 tt >>= λ done. ok left.0) ≡ ok after)
        × Grows peer_set after
  caught peer_set (after, end_) (grows, y) =
      let (u, same, _) = Yields-or_else Any end_ tt y tt in (after, rw same refl, grows)

  -- For a torrent whose hash is decoded, on a machine of either byte order: whatever the HTTP library
  -- and the bencode library make of the request and its response, if peers in compact form come with
  -- six bytes each, no peer is lost from the set and nothing is read out of bounds; `add_peers` returns,
  -- but where the text of a response of status 200 cannot be decoded, the exception gets out of it.
  pub add_peers-GrowsOrThrows :
      (http_get : List ℕ → List (List ℕ × List ℕ) → Response) (decode : List ℕ → Option Data)
      (t : HttpTracker) (parameters : List (List ℕ × List ℕ)) (peer_set : List (List ℕ))
      → request_parameters t ≡ ok parameters
      → ((d : Data) → decode (http_get t.tracker_url parameters).text ≡ some d → HasWholePeers d)
      → ((after : List (List ℕ)) × (add_peers address_text e http_get decode t peer_set ≡ ok after)
          × Grows peer_set after)
        ⊎ ((add_peers address_text e http_get decode t peer_set ≡ fault thrown)
            × ((http_get t.tracker_url parameters).status_code ≡ 200)
            × (decode (http_get t.tracker_url parameters).text ≡ none))
  unfolding add_peers send_request
  add_peers-GrowsOrThrows http_get decode t parameters peer_set requested whole =
      let response = http_get t.tracker_url parameters in
      elim (Bool-cases (response.status_code == 200)) [
        | inr other ↦ inl (peer_set, rw (requested, other) refl, λ s h. h)
        | inl fine ↦ elim (Option-cases (decode response.text)) [
          | inl none_ ↦
              inr (rw (requested, fine, none_) refl, ==→eq response.status_code 200 fine, none_)
          | inr (d, some_) ↦
              let (after, same, grows) =
                caught peer_set (parse_tracker_response address_text e d peer_set)
                  (parse_tracker_response-Left d peer_set (whole d some_)) in
              inl (after, rw (requested, fine, some_) same, grows)
        ]
      ]
