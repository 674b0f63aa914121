-- ===== src/Message/Handshake.antt =====
-- The handshake of include/simpletorrent/MessageUtil.h: what one client creates the other accepts.
use mathlib.Core.List.{append_assoc, append-nil}
use simpletorrent.Base.{
  ℕ, zero, suc, ◌+◌, ◌-◌, ◌≤◌, ◌≡◌, refl, sym, ap, ◌∙◌, inl, inr, ◌⊎◌, true, false, Option, none,
  some, List, [], ◌∷◌, ◌++◌, length, take, leb, ltb, list_eq, if◌then◌else◌, ok, arith, Bool-cases,
  length-append, take-append, drop-append, list_eq→eq,
}
use simpletorrent.Util.Hex.{to_hex_string}
use simpletorrent.Message.{
  protocol_identifier, slice, parse_identity, parse_handshake_response, create_handshake,
}

pub slice-middle :
    (xs ys zs : List ℕ) (i n : ℕ)
    → length xs ≡ i
    → length ys ≡ n
    → slice i n (xs ++ (ys ++ zs)) ≡ ok ys
unfolding slice
slice-middle xs ys zs i n p q =
    let inside : leb (length xs + length ys) (length (xs ++ (ys ++ zs))) ≡ true =
      ground (arith, length-append xs (ys ++ zs), length-append ys zs) in
    rw (← p, ← q, inside, drop-append xs (ys ++ zs), take-append ys zs) refl

-- The sizes of the parts behind the name.
pub record Sized (reserved info id : List ℕ) : Type 0 where
  pub reserved_size : length reserved ≡ 8
  pub info_size : length info ≡ 20
  pub id_size : length id ≡ 20

abbrev name_part : List ℕ
name_part = 19 ∷ protocol_identifier

module _ (reserved info id : List ℕ) (z : Sized reserved info id) where
  as_parts : List ℕ
  as_parts = name_part ++ (reserved ++ (info ++ id))

  reserved_slice : slice 20 8 as_parts ≡ ok reserved
  unfolding as_parts
  reserved_slice = slice-middle name_part reserved (info ++ id) 20 8 refl z.reserved_size

  info-slice : slice (20 + 8) 20 as_parts ≡ ok info
  unfolding as_parts
  info-slice =
      ap (slice 28 20) (sym (append_assoc name_part reserved (info ++ id)))
      ∙ slice-middle (name_part ++ reserved) info id 28 20
          (length-append name_part reserved ∙ omega (arith, z.reserved_size)) z.info_size

  id_slice : slice (20 + 28) 20 as_parts ≡ ok id
  unfolding as_parts
  id_slice =
      ap (slice 48 20) (
        ap (λ (r : List ℕ). name_part ++ (reserved ++ (info ++ r))) (sym (append-nil id))
        ∙ sym (append_assoc name_part reserved (info ++ (id ++ [])))
        ∙ sym (append_assoc (name_part ++ reserved) info (id ++ [])))
      ∙ slice-middle ((name_part ++ reserved) ++ info) id [] 48 20
          (length-append (name_part ++ reserved) info
            ∙ omega (arith, length-append name_part reserved, z.reserved_size, z.info_size))
          z.id_size

  abbrev answer : List ℕ → Option (List ℕ)
  answer info_hash =
      if list_eq (to_hex_string info) info_hash then some (to_hex_string id) else none

  parts_identity :
      (info_hash : List ℕ) → parse_identity 20 as_parts info_hash ≡ ok (answer info_hash)
  unfolding parse_identity
  parts_identity info_hash = elim (Bool-cases (list_eq (to_hex_string info) info_hash)) [
    | inl e ↦ rw (reserved_slice, info-slice) (rw (e, id_slice) refl)
    | inr e ↦ rw (reserved_slice, info-slice) (rw e refl)
  ]

  long_enough : ltb (length as_parts) 20 ≡ false
  unfolding as_parts
  long_enough = ground (
    arith,
    length-append reserved (info ++ id),
    length-append info id,
    z.reserved_size,
    z.info_size,
    z.id_size,
  )

  -- A handshake that a client created with a hash of 20 bytes is answered by whether the hash is the
  -- receiver's: with the id of the client if so, and else with nothing.
  pub parse_handshake_response-create_handshake :
      (info_hash : List ℕ)
      → parse_handshake_response (create_handshake reserved info id) info_hash
        ≡ ok (if list_eq (to_hex_string info) info_hash then some (to_hex_string id) else none)
  unfolding parse_handshake_response create_handshake as_parts
  parse_handshake_response-create_handshake info_hash = rw long_enough (parts_identity info_hash)

split_at :
    (n : ℕ) (xs : List ℕ)
    → n ≤ length xs
    → (front bs : List ℕ) × (xs ≡ front ++ bs) × (length front ≡ n) × (length bs ≡ length xs - n)
split_at zero xs h = ([], xs, refl, refl, omega arith)
split_at (suc n) [] h = absurd (omega arith)
split_at (suc n) (x ∷ xs) h =
    let (front, bs, e, p, q) = split_at n xs (omega arith) in
    (x ∷ front, bs, ap (◌∷◌ x) e, omega arith, omega arith)

-- A response whose name is the protocol's is a handshake that `create_handshake` makes.
named-create_handshake :
    (n : ℕ) (rest : List ℕ)
    → length rest ≡ 67
    → 1 + n ≤ 68
    → take n rest ≡ protocol_identifier
    → (reserved info id : List ℕ) × Sized reserved info id
      × (n ∷ rest ≡ create_handshake reserved info id)
unfolding create_handshake
named-create_handshake n rest len fits name =
    let (front, bs, e, p, q) = split_at n rest (omega arith) in
    let is_name : front ≡ protocol_identifier =
      sym (ap (take n) e ∙ ap (λ (j : ℕ). take j (front ++ bs)) (sym p) ∙ take-append front bs)
      ∙ name in
    let n_is : n ≡ 19 = sym p ∙ ap length is_name in
    let (r, tail, e1, p1, q1) = split_at 8 bs (omega arith) in
    let (i, id, e2, p2, q2) = split_at 20 tail (omega arith) in
    (
      r,
      i,
      id,
      record { reserved_size = p1; info_size = p2; id_size = omega arith },
      ap (λ (j : ℕ). j ∷ rest) n_is
          ∙ ap (◌∷◌ 19) (
              e
              ∙ ap (λ (x : List ℕ). x ++ bs) is_name
              ∙ ap (◌++◌ protocol_identifier) (e1 ∙ ap (◌++◌ r) e2)),
    )

-- A handshake that is accepted.
abbrev pub Accepted : List ℕ → List ℕ → Type 0
Accepted response info_hash =
    (reserved info id : List ℕ) × Sized reserved info id
    × (response ≡ create_handshake reserved info id)
    × (to_hex_string info ≡ info_hash)
    × (parse_handshake_response response info_hash ≡ ok (some (to_hex_string id)))

Accepted-cases :
    (response info_hash reserved info id : List ℕ)
    → Sized reserved info id
    → response ≡ create_handshake reserved info id
    → Accepted response info_hash ⊎ (parse_handshake_response response info_hash ≡ ok none)
Accepted-cases response info_hash reserved info id z e =
    let answer = parse_handshake_response-create_handshake reserved info id z info_hash in
    elim (Bool-cases (list_eq (to_hex_string info) info_hash)) [
      | inl same ↦ inl (
        reserved,
        info,
        id,
        z,
        e,
        list_eq→eq (to_hex_string info) info_hash same,
        rw e (rw same at answer),
      )
      | inr other ↦ inr (rw e (rw other at answer))
    ]

-- Of 68 bytes that a peer sends, `parse_handshake_response` never reads past the end: either they
-- are a handshake that `create_handshake` makes with the hash that is asked for, and the result is
-- its id, or the result is nothing.
pub parse_handshake_response-Accepted :
    (response info_hash : List ℕ)
    → length response ≡ 68
    → Accepted response info_hash ⊎ (parse_handshake_response response info_hash ≡ ok none)
unfolding parse_handshake_response
parse_handshake_response-Accepted [] info_hash len = absurd (omega arith)
parse_handshake_response-Accepted (n ∷ rest) info_hash len =
    elim (Bool-cases (ltb (length (n ∷ rest)) (1 + n))) [
      | inl short ↦ inr (rw short refl)
      | inr long ↦ elim (Bool-cases (list_eq (take n rest) protocol_identifier)) [
        | inr other ↦ inr (rw (long, other) refl)
        | inl same ↦
            let (reserved, info, id, z, e) =
              named-create_handshake n rest (omega arith) (ground arith)
                (list_eq→eq (take n rest) protocol_identifier same) in
            Accepted-cases (n ∷ rest) info_hash reserved info id z e
      ]
    ]
