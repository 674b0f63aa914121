-- ===== src/Tracker/Peers.antt =====
-- What src/tracker.cpp hands on of the peers of its trackers.
use simpletorrent.Base.{
  ℕ, suc, ◌+◌, ◌^◌, ◌<◌, ◌≡◌, refl, sym, ap, ◌∙◌, true, false, some, List, [], ◌∷◌, ◌++◌, map,
  length, ltb, ok, length-append, lt→ltb, arith,
}
use mathlib.Core.List.{append_assoc}
use simpletorrent.Text.{to_string, find_from, substr, substr_from}
use simpletorrent.Text.Decimal.{stoi-to_string}
use simpletorrent.Text.Find.{lacks, find_from-append, substr-middle, substr_from-behind}
use simpletorrent.Util.ByteOrder.{Endian}
use simpletorrent.PeerList.{conn_string}
use simpletorrent.PeerList.Compact.{Address}
use simpletorrent.Tracker.{
  Tracker, Network, add_udp, add_peers, split_conn_string, split_all, get_peers,
}

module _ (address_text : List ℕ → List ℕ) where
  -- The text of the address has no colon, and the port has 16 bits.
  abbrev pub IsPlain : Address → Type 0
  IsPlain a = (lacks 58 (address_text a.ip_bytes) ≡ true) × (a.port < 2 ^ 16)

  abbrev pub ArePlain : List Address → Type 0
  ArePlain [] = Unit {0}
  ArePlain (a ∷ rest) = IsPlain a × ArePlain rest

  split_conn_string-conn_string :
      (a : Address)
      → IsPlain a
      → split_conn_string (conn_string address_text a.ip_bytes a.port)
        ≡ ok (address_text a.ip_bytes, a.port)
  unfolding split_conn_string conn_string
  split_conn_string-conn_string a (plain, small) =
      let ip = address_text a.ip_bytes in
      let port = to_string a.port in
      let found : find_from 58 0 (ip ++ (58 ∷ port)) ≡ some (length ip) =
        find_from-append [] ip port 58 0 refl plain ∙ ap some (omega arith) in
      let first : substr 0 (length ip) (ip ++ (58 ∷ port)) ≡ ok ip =
        substr-middle [] ip (58 ∷ port) 0 (length ip) refl refl in
      let second : substr_from (length ip + 1) (ip ++ (58 ∷ port)) ≡ ok port =
        ap (substr_from (length ip + 1)) (sym (append_assoc ip (58 ∷ []) port))
        ∙ substr_from-behind (ip ++ (58 ∷ [])) port (length ip + 1) (length-append ip (58 ∷ [])) in
      let number = stoi-to_string a.port (omega arith) in
      let fits : ltb 65535 a.port ≡ false = ground arith in
      rw (found, first, second, number, fits) refl

  -- A peer as `get_peers` gives it.
  abbrev pub conn_info : Address → List ℕ × ℕ
  conn_info a = (address_text a.ip_bytes, a.port)

  abbrev pub conn_strings : List Address → List (List ℕ)
  conn_strings ps = map (λ (a : Address). conn_string address_text a.ip_bytes a.port) ps

  split_all-conn_strings :
      (ps : List Address) → ArePlain ps → split_all (conn_strings ps) ≡ ok (map conn_info ps)
  unfolding split_all
  split_all-conn_strings [] h = refl
  split_all-conn_strings (a ∷ rest) (p, h) =
      rw (split_conn_string-conn_string a p, split_all-conn_strings rest h) refl

  -- If the texts of the set, in the order in which it is iterated, are those of some peers with ports
  -- below 2^16, and no address has a colon in its text, `get_peers` returns just these peers, in that
  -- order.
  pub get_peers-conn_strings :
      (order : List (List ℕ) → List (List ℕ)) (t : Tracker) (ps : List Address)
      → order t.peer_set ≡ conn_strings ps
      → ArePlain ps
      → get_peers order t ≡ ok (map conn_info ps)
  unfolding get_peers
  get_peers-conn_strings order t ps same h = ap split_all same ∙ split_all-conn_strings ps h

-- If the trackers on datagrams give a peer, `add_peers` keeps just what they give, and whatever the
-- HTTP library or the bencode library would answer makes no difference.
pub add_peers-add_udp :
    (net : Network) (e : Endian) (t : Tracker) (s : List ℕ) (rest : List (List ℕ))
    → add_udp net e t t.tracker_url_list t.peer_set ≡ ok (s ∷ rest)
    → add_peers net e t ≡ ok (record t { peer_set = s ∷ rest })
unfolding add_peers
add_peers-add_udp net e t s rest h = rw h (rw (lt→ltb 0 (suc (length rest)) (omega arith)) refl)
