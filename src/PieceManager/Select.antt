-- ===== src/PieceManager/Select.antt =====
-- `select_next_block` of src/piece_manager.cpp as a whole.
use simpletorrent.Base.{
  ℕ, ◌≡◌, refl, subst, inl, inr, Option, none, set, get_elem?-set_self, ◌≢◌, some, get_elem?, ok,
  arith, Bool-cases, get_elem?-lt,
}
use simpletorrent.Base.Maps.{contains}
use simpletorrent.Types.{BlockState, BlockRequest}
use simpletorrent.Buffer.{BufferPiece}
use simpletorrent.Buffer.Held.{held}
use simpletorrent.PieceManager.{Platform, PieceManager, select_next_block, request_chosen}
use simpletorrent.PieceManager.Laws.{IsPlatform}
use simpletorrent.PieceManager.Invariant.{Inv}
use simpletorrent.PieceManager.Request.{SameFiles, Asks}
use simpletorrent.PieceManager.Requests.{
  Keeps, Requested, nothing, block, Requests, request_block-Requests,
}
use simpletorrent.PieceManager.Chosen.{
  Ready, Keeps-trans, SameFiles-trans, Ready-none, choose_piece-Returns,
}

-- The outcome of `select_next_block`: no piece leaves the buffer and no block that has arrived is
-- lost, no file and no count changes, and a block that is asked for lies in a piece of the buffer,
-- had not arrived, and is marked as requested.
pub record Selects (pm qm : PieceManager) (r : Option BlockRequest) : Type 0 where
  pub inv : Inv qm
  pub keeps : Keeps pm.buffer qm.buffer
  pub same_files : SameFiles pm qm
  pub asked :
      (request : BlockRequest)
      → r ≡ some request
      → (k : ℕ) × (i : ℕ) × (t : BufferPiece) × Asks qm k i request
        × (held qm.buffer k ≡ some t)
        × (get_elem? t.blocks_state i ≡ some BlockState.requested)
        × ((s : BufferPiece)
            → held pm.buffer k ≡ some s
            → get_elem? s.blocks_state i ≢ some BlockState.have)

module _ (pm am : PieceManager) (k : ℕ) (a : Ready pm (some k) am) where
  asked_block :
      (qm : PieceManager) (r : Option BlockRequest)
      → Requested am k qm r
      → (request : BlockRequest) → r ≡ some request
      → (k : ℕ) × (i : ℕ) × (t : BufferPiece) × Asks qm k i request
        × (held qm.buffer k ≡ some t)
        × (get_elem? t.blocks_state i ≡ some BlockState.requested)
        × ((s : BufferPiece)
            → held pm.buffer k ≡ some s
            → get_elem? s.blocks_state i ≢ some BlockState.have)
  asked_block qm r (nothing e) request h = ground arith
  asked_block qm r (block i req s e asks was missing now) request h =
      let same : req ≡ request = ground arith in
      (
        k,
        i,
        record s { blocks_state = set s.blocks_state i BlockState.requested },
        subst (Asks qm k i) same asks,
        now,
        get_elem?-set_self s.blocks_state i BlockState.requested
            (get_elem?-lt s.blocks_state i missing),
        λ b hb w.
            let (t, ht, _, kt) = a.keeps k b hb in
            let ts : t ≡ s = ground arith in
            let there =
              subst (λ (x : BufferPiece). get_elem? x.blocks_state i ≡ some BlockState.have) ts
                (kt i w) in
            ground arith,
      )

  selects : (qm : PieceManager) (r : Option BlockRequest) → Requests am k qm r → Selects pm qm r
  selects qm r q = record {
    inv = q.inv;
    keeps = Keeps-trans pm.buffer am.buffer qm.buffer a.keeps q.keeps;
    same_files = SameFiles-trans pm am qm a.same_files q.same_files;
    asked = asked_block qm r q.requested;
  }

-- On a state in which the invariant holds, `select_next_block` returns for any peer: it does not
-- throw, fail an assertion, leave the bounds of a table or go round for ever. It keeps the invariant,
-- the pieces that are completed, what has been saved, and what the buffer holds; a request is for a
-- block of a held piece that has not come yet, and the block is then marked as requested.
pub select_next_block-Selects :
    (platform : Platform) (law : IsPlatform platform) (peer : ℕ) (pm : PieceManager)
    → Inv pm
    → (r : Option BlockRequest) × (qm : PieceManager) × (select_next_block platform peer pm
        ≡ ok (r, qm))
      × Selects pm qm r
unfolding select_next_block request_chosen
select_next_block-Selects platform law peer pm v =
    elim (Bool-cases (contains peer pm.peers_bitfield_map)) [
      | inr unknown ↦ (none, pm, rw unknown refl, idle pm (Ready-none pm v))
      | inl known ↦
          let (c, am, e, a) = choose_piece-Returns platform law peer pm v known in
          rw (known, e) (rest c am a)
    ]
  where
    idle : (am : PieceManager) → Ready pm none am → Selects pm am none
    idle am a = record {
      inv = a.inv;
      keeps = a.keeps;
      same_files = a.same_files;
      asked = λ request e. ground arith;
    }

    rest :
        (c : Option ℕ) (am : PieceManager)
        → Ready pm c am
        → (r : Option BlockRequest) × (qm : PieceManager) × (request_chosen c am ≡ ok (r, qm))
          × Selects pm qm r
    rest none am a = (none, am, refl, idle am a)
    rest (some k) am a =
        let (r, qm, e, q) = request_block-Requests am k a.inv (a.chosen k refl) in
        (r, qm, e, selects pm am k a qm r q)
