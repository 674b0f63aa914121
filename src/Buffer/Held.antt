-- ===== src/Buffer/Held.antt =====
-- What the buffer of src/buffer.cpp holds, as a finite map from piece indices, and the invariant of
-- its two tables.
use simpletorrent.Base.{
  ℕ, ◌≡◌, refl, sym, ap, ◌∙◌, inl, inr, Bool, true, false, not, Option, none, some, length,
  get_elem?, set, count_if, ◌==◌, if◌then◌else◌, Fault, ok, arith, Bool-cases, Option-cases,
  get_elem?-set_self, get_elem?-set_ne, get_elem?-lt, count_if-set, count_if-replicate, ==→eq,
}
use simpletorrent.Base.Maps.{find, contains, IsUnique, contains-some}
use simpletorrent.Buffer.{Buffer, BufferPiece, init, new_piece, slot_of}

abbrev pub is_used : BufferPiece → Bool
is_used s = not s.empty

-- The slot that the map gives for a piece.
unfoldable pub held : Buffer → ℕ → Option BufferPiece
held b k = elim (find k b.piece_buffer_map) [ none ↦ none | some i ↦ get_elem? b.slots i ]

-- Each entry of the map leads to a slot in use for that piece, and no other slot is in use.
pub record IsValid (b : Buffer) : Type 0 where
  pub unique : IsUnique b.piece_buffer_map
  pub counted : count_if is_used b.slots ≡ length b.piece_buffer_map
  pub mapped :
      (k i : ℕ)
      → find k b.piece_buffer_map ≡ some i
      → (s : BufferPiece) × (get_elem? b.slots i ≡ some s) × (s.empty ≡ false) × (s.piece_index ≡ k)

-- The entry and the slot behind a held piece.
pub held-slot :
    (b : Buffer) (k : ℕ) (s : BufferPiece)
    → held b k ≡ some s
    → (i : ℕ) × (find k b.piece_buffer_map ≡ some i) × (get_elem? b.slots i ≡ some s)
unfolding held
held-slot b k s h = elim (Option-cases (find k b.piece_buffer_map)) [
  | inl e ↦ ground arith
  | inr (i, e) ↦ (i, e, (rw (e, held) at h))
]

pub held-at :
    (b : Buffer) (k i : ℕ) → find k b.piece_buffer_map ≡ some i → held b k ≡ get_elem? b.slots i
unfolding held
held-at b k i e = rw (e, held)

pub held-missing : (b : Buffer) (k : ℕ) → find k b.piece_buffer_map ≡ none → held b k ≡ none
unfolding held
held-missing b k e = rw (e, held)

pub slot_of-held :
    (bad : Fault) (b : Buffer) (k i : ℕ) (s : BufferPiece)
    → find k b.piece_buffer_map ≡ some i
    → get_elem? b.slots i ≡ some s
    → slot_of bad k b ≡ ok (i, s)
unfolding slot_of
slot_of-held bad b k i s e g = rw e (rw g refl)

pub held_of_find :
    (b : Buffer) (k i : ℕ)
    → IsValid b
    → find k b.piece_buffer_map ≡ some i
    → (s : BufferPiece) × (held b k ≡ some s)
      × (get_elem? b.slots i ≡ some s)
      × (s.empty ≡ false)
      × (s.piece_index ≡ k)
unfolding held
held_of_find b k i v e = let (s, g, u, p) = v.mapped k i e in (s, rw (e, held) g, g, u, p)

-- A piece that is not held is not in the map.
pub find_of_held-none :
    (b : Buffer) (k : ℕ) → IsValid b → held b k ≡ none → find k b.piece_buffer_map ≡ none
find_of_held-none b k v h = elim (Option-cases (find k b.piece_buffer_map)) [
  | inl e ↦ e
  | inr (i, e) ↦ let (s, g, _, _, _) = held_of_find b k i v e in cc
]

pub contains-held :
    (b : Buffer) (k : ℕ) (s : BufferPiece)
    → held b k ≡ some s
    → contains k b.piece_buffer_map ≡ true
contains-held b k s h = let (i, e, g) = held-slot b k s h in contains-some k i b.piece_buffer_map e

-- Two pieces never share a slot.
pub slot_injective :
    (b : Buffer) (j k i : ℕ)
    → IsValid b
    → find j b.piece_buffer_map ≡ some i
    → find k b.piece_buffer_map ≡ some i
    → j ≡ k
slot_injective b j k i v p q =
    let (s, g, _, a) = v.mapped j i p in let (t, h, _, c) = v.mapped k i q in ground arith

pub init-IsValid : (bl pl n : ℕ) → IsValid (init bl pl n)
unfolding init find new_piece
init-IsValid bl pl n = record {
  unique = tt;
  counted = count_if-replicate is_used n _ refl;
  mapped = λ k i h. ground arith;
}

-- A new value in the slot of a held piece that stays in use for it.
module _ (b : Buffer) (k i : ℕ) (s t : BufferPiece) (v : IsValid b)
    (e : find k b.piece_buffer_map ≡ some i) (g : get_elem? b.slots i ≡ some s)
    (used : t.empty ≡ false) (same : t.piece_index ≡ k) where
  was_used : s.empty ≡ false
  was_used = let (r, h, u, _) = v.mapped k i e in ground arith

  mapped-update :
      (j l : ℕ)
      → find j b.piece_buffer_map ≡ some l
      → (r : BufferPiece) × (get_elem? (set b.slots i t) l ≡ some r)
        × (r.empty ≡ false)
        × (r.piece_index ≡ j)
  mapped-update j l h = elim (Bool-cases (i == l)) [
    | inl q ↦
        let il : i ≡ l = ==→eq i l q in
        (
          t,
          rw (← il) (get_elem?-set_self b.slots i t (get_elem?-lt b.slots i g)),
          used,
          same ∙ slot_injective b k j l v (e ∙ ap some il) h,
        )
    | inr q ↦
        let (r, g', u, p) = v.mapped j l h in
        (r, get_elem?-set_ne b.slots i l t (λ (il : i ≡ l). ground arith) ∙ g', u, p)
  ]

  pub update-IsValid : IsValid (record b { slots = set b.slots i t })
  update-IsValid = record {
    unique = v.unique;
    counted = ground (arith, count_if-set is_used b.slots i s t g, v.counted, was_used);
    mapped = mapped-update;
  }

  pub held-update :
      (j : ℕ)
      → held (record b { slots = set b.slots i t }) j ≡ (if k == j then some t else held b j)
  held-update j = elim (Bool-cases (k == j)) [
    | inl q ↦
        let kj : k ≡ j = ==→eq k j q in
        rw q (
          held-at (record b { slots = set b.slots i t }) j i (rw (← kj) e)
          ∙ get_elem?-set_self b.slots i t (get_elem?-lt b.slots i g))
    | inr q ↦ rw q (elim (Option-cases (find j b.piece_buffer_map)) [
      | inl n ↦ held-missing (record b { slots = set b.slots i t }) j n ∙ sym (held-missing b j n)
      | inr (l, h) ↦
          held-at (record b { slots = set b.slots i t }) j l h
          ∙ get_elem?-set_ne b.slots i l t (λ (il : i ≡ l).
            let kj : k ≡ j = slot_injective b k j l v (e ∙ ap some il) h in ground arith)
          ∙ sym (held-at b j l h)
    ])
  ]
