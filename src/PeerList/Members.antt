-- ===== src/PeerList/Members.antt =====
-- The set of texts of src/udp_tracker.cpp and src/http_tracker.cpp, by what it contains.
use simpletorrent.Base.{
  ℕ, ◌+◌, ◌≤◌, ◌≡◌, inl, inr, true, List, [], ◌∷◌, ◌++◌, length, Yields, Any, Yields-bind, arith,
  le→leb, Bool-cases,
}
use simpletorrent.Util.ByteOrder.{Endian}
use simpletorrent.Message.{slice}
use simpletorrent.PeerList.{peer_at, insert, contains}

-- Nothing that was in the set is missing.
abbrev pub Grows : List (List ℕ) → List (List ℕ) → Type 0
Grows peer_set after = (s : List ℕ) → contains s peer_set ≡ true → contains s after ≡ true

contains-snoc :
    (s t : List ℕ) (ts : List (List ℕ)) → contains s ts ≡ true → contains s (ts ++ (t ∷ [])) ≡ true
unfolding contains
contains-snoc s t [] h = ground arith
contains-snoc s t (x ∷ ts) h = ground (arith, contains-snoc s t ts)

pub insert-Grows : (t : List ℕ) (peer_set : List (List ℕ)) → Grows peer_set (insert t peer_set)
unfolding insert
insert-Grows t peer_set s h = elim (Bool-cases (contains t peer_set)) [
  | inl there ↦ rw there h
  | inr missing ↦ rw missing (contains-snoc s t peer_set h)
]

pub slice-inside : (i n : ℕ) (bytes : List ℕ) → i + n ≤ length bytes → Yields Any (slice i n bytes)
unfolding slice
slice-inside i n bytes h = rw (le→leb (i + n) (length bytes) h) tt

module _ (address_text : List ℕ → List ℕ) (e : Endian) where
  pub peer_at-Yields :
      (pos : ℕ) (bytes : List ℕ)
      → pos + 6 ≤ length bytes
      → Yields Any (peer_at address_text e pos bytes)
  unfolding peer_at
  peer_at-Yields pos bytes h =
      Yields-bind Any Any (slice pos 4 bytes) _ (slice-inside pos 4 bytes (omega (arith, h)))
        (λ ip done.
          Yields-bind Any Any (slice (pos + 4) 2 bytes) _
            (slice-inside (pos + 4) 2 bytes (omega (arith, h))) (λ port done'. tt))
