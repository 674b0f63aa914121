-- ===== src/Buffer/Retrieve.antt =====
-- What `get_block_index_to_retrieve` of src/buffer.cpp chooses, and what it says of the rest.
use simpletorrent.Base.{
  ℕ, ◌<◌, ◌≡◌, ◌≢◌, refl, sym, ap, ◌∙◌, subst, inl, inr, ◌⊎◌, Bool, true, false, not, Option, none,
  some, List, get_elem?, set, all_of, first_index, ok, arith, Bool-cases, Option-cases, all_of-get,
  all_of-false, first_index-zero, first_index_before, first_index-none,
}
use simpletorrent.Types.{BlockState, is_dont_have}
use simpletorrent.Buffer.{
  Buffer, BufferPiece, request_first, is_requested_or_have, get_block_index_to_retrieve,
}
use simpletorrent.Buffer.Held.{held, IsValid}
use simpletorrent.Buffer.Blocks.{Updates, get_block_index_to_retrieve_lem}

abbrev pub NoneMissing : List BlockState → Type 0
NoneMissing blocks = (j : ℕ) → get_elem? blocks j ≢ some BlockState.dont_have

-- The block chosen is missing, those before it are not, and it is marked; without one nothing is
-- missing.
abbrev pub Chooses : List BlockState → List BlockState → Option ℕ → Type 0
Chooses old new none = (new ≡ old) × NoneMissing old
Chooses old new (some i) =
    (get_elem? old i ≡ some BlockState.dont_have)
    × ((j : ℕ) → j < i → get_elem? old j ≢ some BlockState.dont_have)
    × (new ≡ set old i BlockState.requested)

-- Whether a block is missing.
abbrev pub Tells : List BlockState → Bool → Type 0
Tells blocks all =
    ((all ≡ true) × NoneMissing blocks)
    ⊎ ((all ≡ false) × ((j : ℕ) × (get_elem? blocks j ≡ some BlockState.dont_have)))

is_missing : (x : BlockState) → is_dont_have x ≡ true → x ≡ BlockState.dont_have
is_missing BlockState.dont_have h = refl
is_missing BlockState.have h = ground arith
is_missing BlockState.requested h = ground arith

is_left : (x : BlockState) → is_requested_or_have x ≡ false → x ≡ BlockState.dont_have
unfolding is_requested_or_have
is_left BlockState.dont_have h = refl
is_left BlockState.have h = ground arith
is_left BlockState.requested h = ground arith

request_first-Chooses :
    (blocks : List BlockState) → Chooses blocks (request_first blocks).1 (request_first blocks).0
unfolding request_first
request_first-Chooses blocks = elim (Option-cases (first_index is_dont_have blocks 0)) [
  | inl e ↦
      let run : request_first blocks ≡ (none, blocks) = rw (e, request_first) refl in
      subst (λ (r : Option ℕ × List BlockState). Chooses blocks r.1 r.0) (sym run)
        (
          refl,
          λ j g.
              let all = first_index-none is_dont_have blocks 0 e in
              let bad =
                all_of-get (λ (x : BlockState). not (is_dont_have x)) blocks j BlockState.dont_have
                  all g in
              ground arith,
        )
  | inr (i, e) ↦
      let (x, g, d) = first_index-zero is_dont_have blocks i e in
      let run : request_first blocks ≡ (some i, set blocks i BlockState.requested) =
        rw (e, request_first) refl in
      subst (λ (r : Option ℕ × List BlockState). Chooses blocks r.1 r.0) (sym run)
        (
          g ∙ ap some (is_missing x d),
          λ j l q.
              let bad =
                first_index_before is_dont_have blocks 0 i j BlockState.dont_have e (omega arith)
                  q in
              ground arith,
          refl,
        )
]

all_of-Tells : (blocks : List BlockState) → Tells blocks (all_of is_requested_or_have blocks)
unfolding is_requested_or_have
all_of-Tells blocks = elim (Bool-cases (all_of is_requested_or_have blocks)) [
  | inl e ↦ inl (
    e,
    λ j g.
        let bad = all_of-get is_requested_or_have blocks j BlockState.dont_have e g in ground arith,
  )
  | inr e ↦
      let (j, x, g, w) = all_of-false is_requested_or_have blocks e in
      inr (e, (j, g ∙ ap some (is_left x w)))
]

-- For a held piece `get_block_index_to_retrieve` returns the first missing block, one that is neither
-- there nor asked for, and marks it as asked for, or returns none if no block is missing; the flag says
-- whether after that no block is missing; and nothing else changes.
pub get_block_index_to_retrieve-Chooses :
    (b : Buffer) (k : ℕ) (s : BufferPiece)
    → IsValid b
    → held b k ≡ some s
    → (all : Bool) × (chosen : Option ℕ) × (blocks : List BlockState) × (c : Buffer)
      × (get_block_index_to_retrieve k b ≡ ok ((all, chosen), c))
      × Chooses s.blocks_state blocks chosen
      × Tells blocks all
      × Updates b k (record s { blocks_state = blocks }) c
get_block_index_to_retrieve-Chooses b k s v h =
    let (c, run, u) = get_block_index_to_retrieve_lem b k s v h in
    let blocks = (request_first s.blocks_state).1 in
    (
      all_of is_requested_or_have blocks,
      (request_first s.blocks_state).0,
      blocks,
      c,
      run,
      request_first-Chooses s.blocks_state,
      all_of-Tells blocks,
      u,
    )
