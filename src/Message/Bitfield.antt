-- ===== src/Message/Bitfield.antt =====
-- The loops of `get_peer_bitfield` in include/simpletorrent/MessageUtil.h.
use native.Mathlib.Nat.{mod-eq_of_lt}
use simpletorrent.Base.{
  ℕ, true, zero, suc, ◌+◌, ◌*◌, ◌/◌, ◌%◌, ◌^◌, ◌<◌, ◌≤◌, ◌≡◌, refl, sym, ap, ◌∙◌, inl, inr, ◌⊎◌,
  Option, none, some, List, [], ◌∷◌, length, get_elem?, set, replicate, ltb, arith, Bool-cases,
  length-set, length-replicate, get_elem?-set_self, get_elem?-set_ne, get_elem?-replicate,
}
use simpletorrent.Message.{has_piece, read_byte, read_bytes, get_peer_bitfield}

module _ (n : ℕ) where
  read_byte-outside :
      (count j i byte : ℕ) (acc : List ℕ) (k : ℕ)
      → (k < i * 8 + j) ⊎ (i * 8 + j + count ≤ k)
      → i * 8 + j + count ≤ 2 ^ 32
      → get_elem? (read_byte count j i byte n acc) k ≡ get_elem? acc k
  unfolding read_byte
  read_byte-outside zero j i byte acc k out fits = refl
  read_byte-outside (suc count) j i byte acc k out fits =
      let same : (i * 8 + j) % 2 ^ 32 ≡ i * 8 + j = mod-eq_of_lt (omega arith) in
      rw same (elim (Bool-cases (ltb (i * 8 + j) n)) [
        | inl e ↦ rw e (
            read_byte-outside count (j + 1) i byte (set acc (i * 8 + j) (has_piece byte j)) k
              (omega arith) (omega arith)
            ∙ get_elem?-set_ne acc (i * 8 + j) k (has_piece byte j) (λ q. omega arith))
        | inr e ↦ rw e (read_byte-outside count (j + 1) i byte acc k (omega arith) (omega arith))
      ])

  length-read_byte :
      (count j i byte : ℕ) (acc : List ℕ) → length (read_byte count j i byte n acc) ≡ length acc
  unfolding read_byte
  length-read_byte zero j i byte acc = refl
  length-read_byte (suc count) j i byte acc = elim (Bool-cases (ltb ((i * 8 + j) % 2 ^ 32) n)) [
    | inl e ↦ rw e (
        length-read_byte count (j + 1) i byte (set acc ((i * 8 + j) % 2 ^ 32) (has_piece byte j))
        ∙ length-set acc ((i * 8 + j) % 2 ^ 32) (has_piece byte j))
    | inr e ↦ rw e (length-read_byte count (j + 1) i byte acc)
  ]

  read_byte-inside :
      (count j i byte : ℕ) (acc : List ℕ) (d k : ℕ)
      → d < count
      → k ≡ i * 8 + j + d
      → k < n
      → length acc ≡ n
      → i * 8 + j + count ≤ 2 ^ 32
      → get_elem? (read_byte count j i byte n acc) k ≡ some (has_piece byte (j + d))
  unfolding read_byte
  read_byte-inside zero j i byte acc d k more at_k small len fits = absurd (omega arith)
  read_byte-inside (suc count) j i byte acc zero k more at_k small len fits =
      let same : (i * 8 + j) % 2 ^ 32 ≡ i * 8 + j = mod-eq_of_lt (omega arith) in
      let here : ltb (i * 8 + j) n ≡ true = ground arith in
      let first : j + 0 ≡ j = omega arith in
      let k_is : i * 8 + j ≡ k = omega arith in
      rw (same, here, first)
        (read_byte-outside count (j + 1) i byte (set acc (i * 8 + j) (has_piece byte j)) k
            (omega arith) (omega arith)
          ∙ ap (get_elem? (set acc (i * 8 + j) (has_piece byte j))) (sym k_is)
          ∙ get_elem?-set_self acc (i * 8 + j) (has_piece byte j) (omega arith))
  read_byte-inside (suc count) j i byte acc (suc d) k more at_k small len fits =
      let same : (i * 8 + j) % 2 ^ 32 ≡ i * 8 + j = mod-eq_of_lt (omega arith) in
      let next : j + 1 + d ≡ j + suc d = omega arith in
      let here : ltb (i * 8 + j) n ≡ true = ground arith in
      let len_set = length-set acc (i * 8 + j) (has_piece byte j) in
      rw (same, here, ← next)
        (read_byte-inside count (j + 1) i byte (set acc (i * 8 + j) (has_piece byte j)) d k
          (omega arith) (omega arith) small (len_set ∙ len) (omega arith))

  read_bytes-before :
      (payload : List ℕ) (i : ℕ) (acc : List ℕ) (k : ℕ)
      → k < i * 8
      → (i + length payload) * 8 ≤ 2 ^ 32
      → get_elem? (read_bytes payload i n acc) k ≡ get_elem? acc k
  unfolding read_bytes
  read_bytes-before [] i acc k h fits = refl
  read_bytes-before (byte ∷ rest) i acc k h fits =
      read_bytes-before rest (i + 1) (read_byte 8 0 i byte n acc) k (omega arith) (omega arith)
      ∙ read_byte-outside 8 0 i byte acc k (inl (omega arith)) (omega arith)

  -- What stands at an index, given the byte that is there for it and the old entry.
  abbrev pub read_bit : Option ℕ → ℕ → Option ℕ → Option ℕ
  read_bit none j old = old
  read_bit (some byte) j old = some (has_piece byte j)

  read_bytes-get :
      (payload : List ℕ) (i : ℕ) (acc : List ℕ) (k m : ℕ)
      → k / 8 ≡ i + m
      → k < n
      → length acc ≡ n
      → (i + length payload) * 8 ≤ 2 ^ 32
      → get_elem? (read_bytes payload i n acc) k
        ≡ read_bit (get_elem? payload m) (k % 8) (get_elem? acc k)
  unfolding read_bytes
  read_bytes-get [] i acc k m at_k small len fits = refl
  read_bytes-get (byte ∷ rest) i acc k zero at_k small len fits =
      let first : 0 + k % 8 ≡ k % 8 = omega arith in
      read_bytes-before rest (i + 1) (read_byte 8 0 i byte n acc) k (omega arith) (omega arith)
      ∙ read_byte-inside 8 0 i byte acc (k % 8) k (omega arith) (omega arith) small len
          (omega arith)
      ∙ ap (λ (x : ℕ). some (has_piece byte x)) first
  read_bytes-get (byte ∷ rest) i acc k (suc m) at_k small len fits =
      read_bytes-get rest (i + 1) (read_byte 8 0 i byte n acc) k m (omega arith) small
        (length-read_byte 8 0 i byte acc ∙ len) (omega arith)
      ∙ ap (read_bit (get_elem? rest m) (k % 8))
          (read_byte-outside 8 0 i byte acc k (inr (omega arith)) (omega arith))

  -- With a payload of at most 2^29 bytes, the entry of the bitfield for a piece is the bit of the
  -- payload for it, of byte `k / 8` bit `k % 8` from the highest, and 0 if the payload is too short.
  pub get_peer_bitfield-get :
      (payload : List ℕ)
      → length payload * 8 ≤ 2 ^ 32
      → (k : ℕ) → k < n
      → get_elem? (get_peer_bitfield payload n) k
        ≡ read_bit (get_elem? payload (k / 8)) (k % 8) (some 0)
  unfolding get_peer_bitfield
  get_peer_bitfield-get payload fits k small =
      read_bytes-get payload 0 (replicate n 0) k (k / 8) (omega arith) small (length-replicate n 0)
        (omega arith)
      ∙ ap (read_bit (get_elem? payload (k / 8)) (k % 8)) (get_elem?-replicate n 0 k small)

  length-read_bytes :
      (payload : List ℕ) (i : ℕ) (acc : List ℕ) → length (read_bytes payload i n acc) ≡ length acc
  unfolding read_bytes
  length-read_bytes [] i acc = refl
  length-read_bytes (byte ∷ rest) i acc =
      length-read_bytes rest (i + 1) (read_byte 8 0 i byte n acc) ∙ length-read_byte 8 0 i byte acc

  -- The bitfield has an entry for each piece, whatever the payload.
  pub length-get_peer_bitfield : (payload : List ℕ) → length (get_peer_bitfield payload n) ≡ n
  unfolding get_peer_bitfield
  length-get_peer_bitfield payload =
      length-read_bytes payload 0 (replicate n 0) ∙ length-replicate n 0
