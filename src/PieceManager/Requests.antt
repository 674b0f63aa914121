-- ===== src/PieceManager/Requests.antt =====
-- What `request_block` of src/piece_manager.cpp returns and what it leaves alone.
use native.Mathlib.Nat.{mod-eq_of_lt}
use simpletorrent.Base.{
  ℕ, ◌+◌, ◌-◌, ◌*◌, ◌%◌, ◌^◌, ◌<◌, min, ◌≡◌, refl, ap, ◌∙◌, subst, inl, inr, Bool, true, false,
  Option, none, some, List, length, get_elem?, set, all_of, ◌==◌, if◌then◌else◌, ok, arith,
  Bool-cases, ==→eq, length-set, get_elem?-set_self, get_elem?-lt, not-all_of, get_elem?-set_ne,
}
use simpletorrent.Base.Division.{ceil_block_start}
use simpletorrent.Types.{all_requested, BlockRequest, BlockState, is_have}
use simpletorrent.Buffer.{Buffer, BufferPiece, request_first, is_requested_or_have}
use simpletorrent.Buffer.Held.{held}
use simpletorrent.Buffer.Blocks.{Updates, get_block_index_to_retrieve_lem}
use simpletorrent.PieceManager.{PieceManager, remove_affinity, mark_all_requested, request_block}
use simpletorrent.PieceManager.Invariant.{Inv, IsHeld, update-Inv, remove_affinity-Inv}
use simpletorrent.PieceManager.States.{set_state_lem, within-Inv}
use simpletorrent.PieceManager.Request.{
  request_first-cases, Asks, SameFiles, SameFiles-of, SameFiles-set, in_buffer-not_completed,
  calculate_block_length_lem,
}

-- No piece leaves the buffer, and no byte and no block that has arrived is lost.
abbrev pub Keeps : Buffer → Buffer → Type 0
Keeps b c =
    (j : ℕ) (s : BufferPiece)
    → held b j ≡ some s
    → (t : BufferPiece) × (held c j ≡ some t)
      × (t.bytes ≡ s.bytes)
      × ((i : ℕ)
          → get_elem? s.blocks_state i ≡ some BlockState.have
          → get_elem? t.blocks_state i ≡ some BlockState.have)

pub Updates-Keeps :
    (b c : Buffer) (k : ℕ) (s t : BufferPiece)
    → held b k ≡ some s
    → Updates b k t c
    → t.bytes ≡ s.bytes
    → ((i : ℕ)
        → get_elem? s.blocks_state i ≡ some BlockState.have
        → get_elem? t.blocks_state i ≡ some BlockState.have)
    → Keeps b c
Updates-Keeps b c k s t h u same grows j r e = elim (Bool-cases (k == j)) [
  | inl q ↦
      let kj : k ≡ j = ==→eq k j q in
      let sr : s ≡ r = ground arith in
      (
        t,
        u.holds j ∙ rw q refl,
        same ∙ ap (λ (x : BufferPiece). x.bytes) sr,
        λ i w. grows i (rw sr w),
      )
  | inr q ↦ (r, u.holds j ∙ rw q e, refl, λ i w. w)
]

-- Marking a missing block as requested touches no block that is there.
pub set_requested-have :
    (blocks : List BlockState) (k i : ℕ)
    → get_elem? blocks k ≡ some BlockState.dont_have
    → get_elem? blocks i ≡ some BlockState.have
    → get_elem? (set blocks k BlockState.requested) i ≡ some BlockState.have
set_requested-have blocks k i m h = elim (Bool-cases (k == i)) [
  | inl q ↦ let ki : k ≡ i = ==→eq k i q in ground arith
  | inr q ↦ get_elem?-set_ne blocks k i BlockState.requested (λ (ki : k ≡ i). ground arith) ∙ h
]

-- After the mark the buffer, the lengths and the files are as before.
pub record Marks (pm qm : PieceManager) : Type 0 where
  pub inv : Inv qm
  pub same_buffer : qm.buffer ≡ pm.buffer
  pub same_files : SameFiles pm qm

mark_all_requested_lem :
    (all : Bool) (k : ℕ) (pm : PieceManager)
    → Inv pm
    → IsHeld pm.buffer k
    → (qm : PieceManager) × (mark_all_requested all k pm ≡ ok qm) × Marks pm qm
unfolding mark_all_requested remove_affinity
mark_all_requested_lem false k pm v h = (
  pm,
  refl,
  record { inv = v; same_buffer = refl; same_files = SameFiles-of pm pm refl refl refl refl refl },
)
mark_all_requested_lem true k pm v (s, h) =
    let (m, g, i, _) = v.holds k s h in
    (
      _,
      rw (set_state_lem pm k m all_requested g) refl,
      record {
        inv = remove_affinity-Inv _ k (within-Inv pm k m all_requested v g i refl);
        same_buffer = refl;
        same_files =
            SameFiles-set pm _ k m all_requested g (in_buffer-not_completed m.state all_requested i)
              (λ e. ground arith) refl refl refl refl refl;
      },
    )

-- What `request_block` returns: nothing, or a request for a block that was missing and is marked.
pub data Requested (pm : PieceManager) (k : ℕ) (qm : PieceManager) (r : Option BlockRequest)
    : Type 0 where
  nothing : r ≡ none → Requested pm k qm r
  block :
      (i : ℕ) (request : BlockRequest) (s : BufferPiece)
      → r ≡ some request
      → Asks qm k i request
      → held pm.buffer k ≡ some s
      → get_elem? s.blocks_state i ≡ some BlockState.dont_have
      → held qm.buffer k
        ≡ some (record s { blocks_state = set s.blocks_state i BlockState.requested })
      → Requested pm k qm r

pub record Requests (pm : PieceManager) (k : ℕ) (qm : PieceManager) (r : Option BlockRequest)
    : Type 0 where
  pub inv : Inv qm
  pub keeps : Keeps pm.buffer qm.buffer
  pub same_files : SameFiles pm qm
  pub requested : Requested pm k qm r

module _ (pm : PieceManager) (k : ℕ) (v : Inv pm) (s : BufferPiece)
    (h : held pm.buffer k ≡ some s) where
  open_blocks : all_of is_have s.blocks_state ≡ false
  open_blocks = let (_, _, _, f) = v.holds k s h in f.unfinished

  -- Nothing is left to ask for.
  request_none :
      request_first s.blocks_state ≡ (none, s.blocks_state)
      → (r : Option BlockRequest) × (qm : PieceManager) × (request_block k pm ≡ ok (r, qm))
        × Requests pm k qm r
  unfolding request_block
  request_none e =
      let (c, run, u) = get_block_index_to_retrieve_lem pm.buffer k s v.buffer_valid h in
      let blocks_same : (request_first s.blocks_state).1 ≡ s.blocks_state =
        ap (λ (x : Option ℕ × List BlockState). x.1) e in
      let u' =
        subst (λ (x : List BlockState). Updates pm.buffer k (record s { blocks_state = x }) c)
          blocks_same u in
      let inv = update-Inv pm k s s c v h u' refl refl open_blocks in
      let self : (k == k) ≡ true = ground arith in
      let (qm, marked, mk) =
        mark_all_requested_lem (all_of is_requested_or_have (request_first s.blocks_state).1) k
          (record pm { buffer = c }) inv (s, u'.holds k ∙ rw self refl) in
      (
        none,
        qm,
        rw (run, marked) (rw (ap (λ (x : Option ℕ × List BlockState). x.0) e) refl),
        record {
          inv = mk.inv;
          keeps = rw mk.same_buffer (Updates-Keeps pm.buffer c k s s h u' refl (λ i w. w));
          same_files = record {
            pieces_length = mk.same_files.pieces_length;
            same_pieces = mk.same_files.same_pieces;
            completes_none = mk.same_files.completes_none;
            piece_length = mk.same_files.piece_length;
            block_length = mk.same_files.block_length;
            files = mk.same_files.files;
            completed = mk.same_files.completed;
          };
          requested = nothing refl;
        },
      )

  -- Block `i` is the first that is missing.
  request_some :
      (i : ℕ)
      → request_first s.blocks_state ≡ (some i, set s.blocks_state i BlockState.requested)
      → get_elem? s.blocks_state i ≡ some BlockState.dont_have
      → (r : Option BlockRequest) × (qm : PieceManager) × (request_block k pm ≡ ok (r, qm))
        × Requests pm k qm r
  unfolding request_block
  request_some i e missing =
      let (c, run, u) = get_block_index_to_retrieve_lem pm.buffer k s v.buffer_valid h in
      let t = record s { blocks_state = set s.blocks_state i BlockState.requested } in
      let blocks_new : (request_first s.blocks_state).1 ≡ t.blocks_state =
        ap (λ (x : Option ℕ × List BlockState). x.1) e in
      let u' =
        subst (λ (x : List BlockState). Updates pm.buffer k (record s { blocks_state = x }) c)
          blocks_new u in
      let in_list = get_elem?-lt s.blocks_state i missing in
      let inv =
        update-Inv pm k s t c v h u' (length-set s.blocks_state i BlockState.requested) refl (
          not-all_of is_have t.blocks_state i BlockState.requested
            (get_elem?-set_self s.blocks_state i BlockState.requested in_list) refl) in
      let self : (k == k) ≡ true = ground arith in
      let here : held c k ≡ some t = u'.holds k ∙ rw self refl in
      let (qm, marked, mk) =
        mark_all_requested_lem (all_of is_requested_or_have (request_first s.blocks_state).1) k
          (record pm { buffer = c }) inv (t, here) in
      let now : held qm.buffer k ≡ some t = rw mk.same_buffer here in
      let (m, g, _, f) = mk.inv.holds k t now in
      let sh = mk.inv.shaped k m g in
      let inside : i < m.num_blocks =
        omega (arith, f.blocks, length-set s.blocks_state i BlockState.requested, in_list) in
      let start =
        ceil_block_start m.current_piece_length qm.block_length mk.inv.block_pos i
          (omega (arith, sh.blocks, inside)) in
      let no_wrap : i * qm.block_length % 2 ^ 32 ≡ i * qm.block_length =
        mod-eq_of_lt (omega (arith, start, sh.small)) in
      let request : BlockRequest = record {
        piece_index = k;
        block_offset = i * qm.block_length % 2 ^ 32;
        block_length =
            if k + 1 == length qm.pieces
            then min qm.block_length (m.current_piece_length - i * qm.block_length)
            else qm.block_length;
      } in
      (
        some request,
        qm,
        rw (run, marked)
            (rw (ap (λ (x : Option ℕ × List BlockState). x.0) e)
              (rw (calculate_block_length_lem qm k i m mk.inv g inside) refl)),
        record {
          inv = mk.inv;
          keeps = rw mk.same_buffer (
              Updates-Keeps pm.buffer c k s t h u' refl
                (λ j w. set_requested-have s.blocks_state i j missing w));
          same_files = record {
            pieces_length = mk.same_files.pieces_length;
            same_pieces = mk.same_files.same_pieces;
            completes_none = mk.same_files.completes_none;
            piece_length = mk.same_files.piece_length;
            block_length = mk.same_files.block_length;
            files = mk.same_files.files;
            completed = mk.same_files.completed;
          };
          requested =
              block i request s refl
                (record {
                  metadata = m;
                  piece = g;
                  index = refl;
                  offset = no_wrap;
                  within = rw no_wrap start;
                  size = rw no_wrap refl;
                })
                h missing now;
        },
      )

-- For a piece in the buffer `request_block` returns, and asks for a missing block if there is one.
pub request_block-Requests :
    (pm : PieceManager) (k : ℕ)
    → Inv pm
    → IsHeld pm.buffer k
    → (r : Option BlockRequest) × (qm : PieceManager) × (request_block k pm ≡ ok (r, qm))
      × Requests pm k qm r
request_block-Requests pm k v (s, h) = elim (request_first-cases s.blocks_state) [
  | inl e ↦ request_none pm k v s h e
  | inr (i, e, missing) ↦ request_some pm k v s h i e missing
]
