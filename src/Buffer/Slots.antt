-- ===== src/Buffer/Slots.antt =====
-- Taking and giving back the slots of the buffer: `add_piece_to_buffer`, `remove_piece_from_buffer`,
-- `is_full` and `get_pieces_in_buffer` of src/buffer.cpp against the map of held pieces.
use simpletorrent.Base.{
  ℕ, ◌≡◌, refl, sym, ap, ◌∙◌, ◌≢◌, inl, inr, true, false, none, some, List, [], ◌∷◌, map, resize,
  count_if-le, length, get_elem?, set, ◌==◌, if◌then◌else◌, ok, arith, Bool-cases, Option-cases,
  length-set, get_elem?-set_self, get_elem?-set_ne, get_elem?-lt, first_index, all_of-count_if,
  first_index-none, first_index-zero, undefined, length-resize, replicate, count_if-set, ==→eq,
}
use simpletorrent.Types.{BlockState}
use simpletorrent.Base.Maps.{
  find, insert, erase, contains-some, find-insert, find-erase, insert-IsUnique, erase-IsUnique,
  length-insert_new, length-erase,
}
use simpletorrent.Buffer.{
  Buffer, BufferPiece, is_full, set_up, add_piece_to_buffer, remove_piece_from_buffer,
}
use simpletorrent.Buffer.Held.{
  held, IsValid, is_used, held-at, held-missing, held-slot, slot_injective, find_of_held-none,
  contains-held, slot_of-held,
}

-- A buffer that is not full has an empty slot, at the index that the search finds.
pub empty_slot :
    (b : Buffer)
    → IsValid b
    → is_full b ≡ false
    → (i : ℕ) × (s : BufferPiece) × (first_index (λ s. s.empty) b.slots 0 ≡ some i)
      × (get_elem? b.slots i ≡ some s)
      × (s.empty ≡ true)
unfolding is_full
empty_slot b v f = elim (Option-cases (first_index (λ s. s.empty) b.slots 0)) [
  | inl e ↦ ground (
    arith,
    v.counted,
    all_of-count_if is_used b.slots (first_index-none (λ (s : BufferPiece). s.empty) b.slots 0 e),
  )
  | inr (i, e) ↦
      let (s, g, t) = first_index-zero (λ (s : BufferPiece). s.empty) b.slots i e in (i, s, e, g, t)
]

-- The buffer with a new piece in an empty slot.
module _ (b : Buffer) (k i : ℕ) (s t : BufferPiece) (v : IsValid b)
    (new : find k b.piece_buffer_map ≡ none) (g : get_elem? b.slots i ≡ some s)
    (free : s.empty ≡ true) (used : t.empty ≡ false) (same : t.piece_index ≡ k) where
  added : Buffer
  added = record b { slots = set b.slots i t; piece_buffer_map = insert k i b.piece_buffer_map }

  slot_fresh : (j : ℕ) → find j b.piece_buffer_map ≡ some i → ⊥
  slot_fresh j h = let (r, g', u, _) = v.mapped j i h in ground arith

  mapped-added :
      (j l : ℕ)
      → find j (insert k i b.piece_buffer_map) ≡ some l
      → (r : BufferPiece) × (get_elem? (set b.slots i t) l ≡ some r)
        × (r.empty ≡ false)
        × (r.piece_index ≡ j)
  mapped-added j l h = elim (Bool-cases (k == j)) [
    | inl q ↦
        let kj : k ≡ j = ==→eq k j q in
        let il : i ≡ l = ground (arith, find-insert j k i b.piece_buffer_map) in
        (t, rw (← il) (get_elem?-set_self b.slots i t (get_elem?-lt b.slots i g)), used, same ∙ kj)
    | inr q ↦
        let h' : find j b.piece_buffer_map ≡ some l =
          ground (arith, find-insert j k i b.piece_buffer_map) in
        let (r, g', u, p) = v.mapped j l h' in
        (r, get_elem?-set_ne b.slots i l t (λ (il : i ≡ l). slot_fresh j (rw il h')) ∙ g', u, p)
  ]

  added-IsValid : IsValid added
  unfolding added
  added-IsValid = record {
    unique = insert-IsUnique k i b.piece_buffer_map v.unique;
    counted = ground (
      arith,
      count_if-set is_used b.slots i s t g,
      v.counted,
      length-insert_new k i b.piece_buffer_map new,
    );
    mapped = mapped-added;
  }

  held-added : (j : ℕ) → held added j ≡ (if k == j then some t else held b j)
  unfolding added
  held-added j = elim (Bool-cases (k == j)) [
    | inl q ↦ rw q (
        held-at added j i (find-insert j k i b.piece_buffer_map ∙ rw q refl)
        ∙ get_elem?-set_self b.slots i t (get_elem?-lt b.slots i g))
    | inr q ↦ rw q (
        let same_find : find j (insert k i b.piece_buffer_map) ≡ find j b.piece_buffer_map =
          find-insert j k i b.piece_buffer_map ∙ rw q refl in
        elim (Option-cases (find j b.piece_buffer_map)) [
          | inl n ↦ held-missing added j (same_find ∙ n) ∙ sym (held-missing b j n)
          | inr (l, h) ↦
              held-at added j l (same_find ∙ h)
              ∙ get_elem?-set_ne b.slots i l t (λ (il : i ≡ l). slot_fresh j (rw il h))
              ∙ sym (held-at b j l h)
        ])
  ]

-- What a slot holds after it has been set up: a piece of the wanted length with no block.
pub record IsFresh (k num_blocks piece_length : ℕ) (s : BufferPiece) : Type 0 where
  pub index : s.piece_index ≡ k
  pub blocks : s.blocks_state ≡ replicate num_blocks BlockState.dont_have
  pub size : length s.bytes ≡ piece_length

map-const :
    (xs : List BlockState) (n : ℕ)
    → length xs ≡ n
    → map (λ _. BlockState.dont_have) xs ≡ replicate n BlockState.dont_have
map-const [] n h = rw (← h) refl
map-const (x ∷ xs) n h = rw (← h) (ap (◌∷◌ BlockState.dont_have) (map-const xs (length xs) refl))

set_up-IsFresh : (k n l : ℕ) (s : BufferPiece) → IsFresh k n l (set_up k n l s)
unfolding set_up
set_up-IsFresh k n l s = record {
  index = refl;
  blocks =
      map-const (resize s.blocks_state n BlockState.have) n
        (length-resize s.blocks_state n BlockState.have);
  size = length-resize s.bytes l 0;
}

-- The new buffer holds the fresh piece `s` under `k` besides what `b` holds, and stays valid.
pub record Adds (b : Buffer) (k num_blocks piece_length : ℕ) (c : Buffer) : Type 0 where
  pub piece : BufferPiece
  pub fresh : IsFresh k num_blocks piece_length piece
  pub holds : (j : ℕ) → held c j ≡ (if k == j then some piece else held b j)
  pub valid : IsValid c
  pub same_length : c.block_length ≡ b.block_length

-- In a valid buffer that is not full, `add_piece_to_buffer` of a piece that is not held finds a
-- slot, returns true, and adds just that piece, with every block missing, whatever the slot held
-- before.
pub add_piece_to_buffer-Adds :
    (b : Buffer) (k n l : ℕ)
    → IsValid b
    → held b k ≡ none
    → is_full b ≡ false
    → (c : Buffer) × (add_piece_to_buffer k n l b ≡ ok (true, c)) × Adds b k n l c
unfolding add_piece_to_buffer added
add_piece_to_buffer-Adds b k n l v new room =
    let (i, s, e, g, free) = empty_slot b v room in
    let absent = find_of_held-none b k v new in
    let t = set_up k n l s in
    (
      added b k i s t v absent g free (unfold set_up in refl) (unfold set_up in refl),
      rw (room, e) (rw g (unfold added in refl)),
      record {
        piece = t;
        fresh = set_up-IsFresh k n l s;
        holds =
            held-added b k i s t v absent g free (unfold set_up in refl) (unfold set_up in refl);
        valid =
            added-IsValid b k i s t v absent g free (unfold set_up in refl) (unfold set_up in refl);
        same_length = unfold added in refl;
      },
    )

-- A full buffer is left alone.
pub add_piece_to_buffer_full :
    (b : Buffer) (k n l : ℕ) → is_full b ≡ true → add_piece_to_buffer k n l b ≡ ok (false, b)
unfolding add_piece_to_buffer added
add_piece_to_buffer_full b k n l h = rw h refl

-- The buffer without a held piece.
module _ (b : Buffer) (k i : ℕ) (s : BufferPiece) (v : IsValid b)
    (e : find k b.piece_buffer_map ≡ some i) (g : get_elem? b.slots i ≡ some s) where
  removed : Buffer
  removed = record b {
    slots = set b.slots i (record s { empty = true });
    piece_buffer_map = erase k b.piece_buffer_map;
  }

  was_used : s.empty ≡ false
  was_used = let (r, h, u, _) = v.mapped k i e in ground arith

  other_slot : (j l : ℕ) → (k == j) ≡ false → find j b.piece_buffer_map ≡ some l → i ≢ l
  other_slot j l q h il =
      let kj : k ≡ j = slot_injective b k j l v (e ∙ ap some il) h in ground arith

  find-removed :
      (j : ℕ) → (k == j) ≡ false → find j (erase k b.piece_buffer_map) ≡ find j b.piece_buffer_map
  find-removed j q = find-erase j k b.piece_buffer_map ∙ rw q refl

  mapped-removed :
      (j l : ℕ)
      → find j (erase k b.piece_buffer_map) ≡ some l
      → (r : BufferPiece) × (get_elem? (set b.slots i (record s { empty = true })) l ≡ some r)
        × (r.empty ≡ false)
        × (r.piece_index ≡ j)
  mapped-removed j l h = elim (Bool-cases (k == j)) [
    | inl q ↦ ground (arith, find-erase j k b.piece_buffer_map)
    | inr q ↦
        let h' : find j b.piece_buffer_map ≡ some l = sym (find-removed j q) ∙ h in
        let (r, g', u, p) = v.mapped j l h' in
        (r, get_elem?-set_ne b.slots i l _ (other_slot j l q h') ∙ g', u, p)
  ]

  removed-IsValid : IsValid removed
  unfolding removed
  removed-IsValid = record {
    unique = erase-IsUnique k b.piece_buffer_map v.unique;
    counted = ground (
      arith,
      count_if-set is_used b.slots i s (record s { empty = true }) g,
      v.counted,
      was_used,
      length-erase k b.piece_buffer_map v.unique (contains-some k i b.piece_buffer_map e),
    );
    mapped = mapped-removed;
  }

  held-removed : (j : ℕ) → held removed j ≡ (if k == j then none else held b j)
  unfolding removed
  held-removed j = elim (Bool-cases (k == j)) [
    | inl q ↦ rw q (held-missing removed j (find-erase j k b.piece_buffer_map ∙ rw q refl))
    | inr q ↦ rw q (elim (Option-cases (find j b.piece_buffer_map)) [
      | inl n ↦ held-missing removed j (find-removed j q ∙ n) ∙ sym (held-missing b j n)
      | inr (l, h) ↦
          held-at removed j l (find-removed j q ∙ h)
          ∙ get_elem?-set_ne b.slots i l _ (other_slot j l q h)
          ∙ sym (held-at b j l h)
    ])
  ]

  removed_has_room : is_full removed ≡ false
  unfolding removed is_full
  removed_has_room = ground (
    arith,
    length-erase k b.piece_buffer_map v.unique (contains-some k i b.piece_buffer_map e),
    length-set b.slots i (record s { empty = true }),
    count_if-le is_used b.slots,
    v.counted,
  )

-- In a valid buffer `remove_piece_from_buffer` of a held piece succeeds, takes away just that piece,
-- and leaves a valid buffer that is not full.
pub remove_piece_from_buffer_lem :
    (b : Buffer) (k : ℕ) (s : BufferPiece)
    → IsValid b
    → held b k ≡ some s
    → (c : Buffer) × (remove_piece_from_buffer k b ≡ ok c)
      × ((j : ℕ) → held c j ≡ (if k == j then none else held b j))
      × IsValid c
      × (c.block_length ≡ b.block_length)
      × (is_full c ≡ false)
unfolding remove_piece_from_buffer
remove_piece_from_buffer_lem b k s v h =
    let (i, e, g) = held-slot b k s h in
    (
      removed b k i s v e g,
      rw (contains-held b k s h, slot_of-held undefined b k i s e g) (unfold removed in refl),
      held-removed b k i s v e g,
      removed-IsValid b k i s v e g,
      unfold removed in refl,
      removed_has_room b k i s v e g,
    )
