-- ===== src/PieceManager/Invariant.antt =====
-- The invariant that ties the tables of `PieceManager` (src/piece_manager.cpp) to its buffer.
use simpletorrent.Base.{
  ℕ, ◌+◌, ◌-◌, ◌/◌, ◌^◌, ◌<◌, ◌≡◌, refl, sym, ◌∙◌, subst, inl, inr, Bool, true, false, some, List,
  length, get_elem?, count_if, all_of, ◌==◌, arith, Bool-cases, ==→eq,
}
use simpletorrent.Base.Maps.{erase_if, AllValues, AllValues-erase_if, AllValues-mono}
use simpletorrent.Types.{
  PieceState, not_started, all_requested, buffered, completed, PeerPieceState, PieceMetadata,
  is_have, is_completed,
}
use simpletorrent.Buffer.{Buffer, BufferPiece}
use simpletorrent.Buffer.Held.{held, IsValid}
use simpletorrent.Buffer.Blocks.{Updates}
use simpletorrent.PieceManager.{PieceManager, remove_affinity}

abbrev pub is_in_buffer : PieceState → Bool
is_in_buffer not_started = false
is_in_buffer all_requested = true
is_in_buffer buffered = true
is_in_buffer completed = false

abbrev pub has_completed : PieceMetadata → Bool
has_completed m = is_completed m.state

abbrev pub IsHeld : Buffer → ℕ → Type 0
IsHeld b k = (s : BufferPiece) × (held b k ≡ some s)

-- A piece has at least one byte, and just the blocks that its bytes fill.
pub record HasShape (block_length : ℕ) (m : PieceMetadata) : Type 0 where
  pub some_bytes : 0 < m.current_piece_length
  pub small : m.current_piece_length < 2 ^ 32
  pub blocks : m.num_blocks ≡ (m.current_piece_length + block_length - 1) / block_length

-- A slot that holds a piece has room for its bytes and blocks, and a block is still missing.
pub record Fits (m : PieceMetadata) (s : BufferPiece) : Type 0 where
  pub blocks : length s.blocks_state ≡ m.num_blocks
  pub size : length s.bytes ≡ m.current_piece_length
  pub unfinished : all_of is_have s.blocks_state ≡ false

-- The pieces in the buffer are just those whose state says so, every affinity piece is among them,
-- every bitfield has an entry for each piece, and the counter counts the completed pieces.
pub record Inv (pm : PieceManager) : Type 0 where
  pub buffer_valid : IsValid pm.buffer
  pub block_pos : 0 < pm.block_length
  pub same_length : pm.buffer.block_length ≡ pm.block_length
  pub few : length pm.pieces < 2 ^ 32
  pub drawn : pm.rng < 2 ^ 32
  pub shaped :
      (k : ℕ) (m : PieceMetadata) → get_elem? pm.pieces k ≡ some m → HasShape pm.block_length m
  pub holds :
      (k : ℕ) (s : BufferPiece)
      → held pm.buffer k ≡ some s
      → (m : PieceMetadata) × (get_elem? pm.pieces k ≡ some m)
        × (is_in_buffer m.state ≡ true)
        × Fits m s
  pub kept :
      (k : ℕ) (m : PieceMetadata)
      → get_elem? pm.pieces k ≡ some m
      → is_in_buffer m.state ≡ true
      → IsHeld pm.buffer k
  pub affinity : AllValues (IsHeld pm.buffer) pm.peer_piece_affinity_map
  pub bitfields :
      AllValues (λ (bf : List PeerPieceState). length bf ≡ length pm.pieces) pm.peers_bitfield_map
  pub counted : count_if has_completed pm.pieces ≡ pm.num_pieces_completed

-- A new draw, a new list of affinities or of bitfields.
pub affinity-Inv :
    (pm : PieceManager) (aff : List (ℕ × ℕ))
    → Inv pm
    → AllValues (IsHeld pm.buffer) aff
    → Inv (record pm { peer_piece_affinity_map = aff })
affinity-Inv pm aff v a = record {
  buffer_valid = v.buffer_valid;
  block_pos = v.block_pos;
  same_length = v.same_length;
  few = v.few;
  drawn = v.drawn;
  shaped = v.shaped;
  holds = v.holds;
  kept = v.kept;
  affinity = a;
  bitfields = v.bitfields;
  counted = v.counted;
}

pub bitfields-Inv :
    (pm : PieceManager) (bfs : List (ℕ × List PeerPieceState))
    → Inv pm
    → AllValues (λ (bf : List PeerPieceState). length bf ≡ length pm.pieces) bfs
    → Inv (record pm { peers_bitfield_map = bfs })
bitfields-Inv pm bfs v a = record {
  buffer_valid = v.buffer_valid;
  block_pos = v.block_pos;
  same_length = v.same_length;
  few = v.few;
  drawn = v.drawn;
  shaped = v.shaped;
  holds = v.holds;
  kept = v.kept;
  affinity = v.affinity;
  bitfields = a;
  counted = v.counted;
}

pub rng-Inv : (pm : PieceManager) (rng : ℕ) → Inv pm → rng < 2 ^ 32 → Inv (record pm { rng = rng })
rng-Inv pm rng v a = record {
  buffer_valid = v.buffer_valid;
  block_pos = v.block_pos;
  same_length = v.same_length;
  few = v.few;
  drawn = a;
  shaped = v.shaped;
  holds = v.holds;
  kept = v.kept;
  affinity = v.affinity;
  bitfields = v.bitfields;
  counted = v.counted;
}

pub remove_affinity-Inv : (pm : PieceManager) (k : ℕ) → Inv pm → Inv (remove_affinity k pm)
unfolding remove_affinity
remove_affinity-Inv pm k v =
    affinity-Inv pm (erase_if (λ (j : ℕ). j == k) pm.peer_piece_affinity_map) v (
      AllValues-mono (λ (j : ℕ). IsHeld pm.buffer j × ((j == k) ≡ false)) (IsHeld pm.buffer) _
        (λ j h. h.0)
        (AllValues-erase_if (IsHeld pm.buffer) (λ (j : ℕ). j == k) pm.peer_piece_affinity_map
          v.affinity))

-- Another piece in the slot of `k`, with as many blocks and bytes, and not all of them there.
module _ (pm : PieceManager) (k : ℕ) (s t : BufferPiece) (c : Buffer) (v : Inv pm)
    (h : held pm.buffer k ≡ some s) (u : Updates pm.buffer k t c)
    (blocks : length t.blocks_state ≡ length s.blocks_state)
    (size : length t.bytes ≡ length s.bytes) (open_ : all_of is_have t.blocks_state ≡ false) where
  still-IsHeld : (j : ℕ) → IsHeld pm.buffer j → IsHeld c j
  still-IsHeld j (r, e) = elim (Bool-cases (k == j)) [
    | inl q ↦ (t, u.holds j ∙ rw q refl)
    | inr q ↦ (r, u.holds j ∙ rw q e)
  ]

  update-holds :
      (j : ℕ) (r : BufferPiece)
      → held c j ≡ some r
      → (m : PieceMetadata) × (get_elem? pm.pieces j ≡ some m)
        × (is_in_buffer m.state ≡ true)
        × Fits m r
  update-holds j r e = elim (Bool-cases (k == j)) [
    | inl q ↦
        let kj : k ≡ j = ==→eq k j q in
        let (m, g, i, f) = v.holds j s (rw (← kj) h) in
        let tr : t ≡ r = ground (arith, u.holds j) in
        (
          m,
          g,
          i,
          subst (Fits m) tr
              (record { blocks = blocks ∙ f.blocks; size = size ∙ f.size; unfinished = open_ }),
        )
    | inr q ↦ v.holds j r (sym (rw q at (u.holds j)) ∙ e)
  ]

  pub update-Inv : Inv (record pm { buffer = c })
  update-Inv = record {
    buffer_valid = u.valid;
    block_pos = v.block_pos;
    same_length = u.same_length ∙ v.same_length;
    few = v.few;
    drawn = v.drawn;
    shaped = v.shaped;
    holds = update-holds;
    kept = λ j m g i. still-IsHeld j (v.kept j m g i);
    affinity = AllValues-mono (IsHeld pm.buffer) (IsHeld c) _ still-IsHeld v.affinity;
    bitfields = v.bitfields;
    counted = v.counted;
  }
