-- ===== src/PieceManager/Run.antt =====
-- The life of a `PieceManager` (src/piece_manager.cpp): any sequence of the calls that src/peer.cpp
-- and src/peer_manager.cpp make, from the constructor on.
use simpletorrent.Base.{
  ℕ, zero, suc, ◌*◌, ◌%◌, ◌^◌, ◌≡◌, refl, sym, ap, ◌∙◌, subst, inl, inr, ◌⊎◌, some, List, [], ◌∷◌,
  ◌++◌, length, get_elem?, Result, ok, ◌>>=◌, arith,
}
use simpletorrent.Types.{completed, PieceMetadata, Block}
use simpletorrent.Util.Hex.{hex_decode}
use simpletorrent.PieceManager.{
  Platform, PieceManager, select_next_block, add_block, remove_peer, update_piece_frequencies,
}
use simpletorrent.PieceManager.Request.{KeepsPieces, CompletesNone}

-- `select_next_block(peer)`, `add_block`, `update_piece_frequencies(bitfield, peer)`, and
-- `remove_peer(peer)`.
pub data Call : Type 0 where
  select : ℕ → Call
  add : Block → Call
  register : List ℕ → ℕ → Call
  remove : ℕ → Call

unfoldable pub step : Platform → Call → PieceManager → Result PieceManager
step platform (select peer) pm = do (_, qm) ← select_next_block platform peer pm; ok qm
step platform (add block) pm = add_block platform block pm
step platform (register bitfield peer) pm = ok (update_piece_frequencies bitfield peer pm)
step platform (remove peer) pm = ok (remove_peer peer pm)

unfoldable pub run : Platform → List Call → PieceManager → Result PieceManager
run platform [] pm = ok pm
run platform (c ∷ cs) pm = do qm ← step platform c pm; run platform cs qm

-- `get_peer_bitfield` makes a bitfield of one entry for each of `n` pieces.
abbrev pub AllSized : ℕ → List Call → Type 0
AllSized n [] = Unit {0}
AllSized n (select peer ∷ cs) = AllSized n cs
AllSized n (add block ∷ cs) = AllSized n cs
AllSized n (register bitfield peer ∷ cs) = (length bitfield ≡ n) × AllSized n cs
AllSized n (remove peer ∷ cs) = AllSized n cs

-- What the writer's queue has for piece `k`: its bytes, verified, at the offset of the piece.
pub record IsSaved (platform : Platform) (pm : PieceManager) (k : ℕ) (m : PieceMetadata)
    (e : ℕ × List ℕ) : Type 0 where
  pub offset : e.0 ≡ k * pm.piece_length % 2 ^ 32
  pub size : length e.1 ≡ m.current_piece_length
  pub verified : hex_decode (platform.sha1 e.1) ≡ ok m.piece_hash

-- The queue holds just the completed pieces: each entry is a completed piece, each completed piece
-- has an entry, and there are as many entries as completed pieces.
pub record IsFaithful (platform : Platform) (pm : PieceManager) : Type 0 where
  pub sound :
      (i : ℕ) (e : ℕ × List ℕ)
      → get_elem? pm.file_manager.write_queue i ≡ some e
      → (k : ℕ) × (m : PieceMetadata) × (get_elem? pm.pieces k ≡ some m)
        × (m.state ≡ completed)
        × IsSaved platform pm k m e
  pub complete :
      (k : ℕ) (m : PieceMetadata)
      → get_elem? pm.pieces k ≡ some m
      → m.state ≡ completed
      → (i : ℕ) × (e : ℕ × List ℕ) × (get_elem? pm.file_manager.write_queue i ≡ some e)
        × IsSaved platform pm k m e
  pub as_many : length pm.file_manager.write_queue ≡ pm.num_pieces_completed

-- An entry of a list to which one was added.
pub get-snoc-cases {ℓ} :
    {A : Type ℓ} (xs : List A) (x y : A) (i : ℕ)
    → get_elem? (xs ++ (x ∷ [])) i ≡ some y
    → (get_elem? xs i ≡ some y) ⊎ (x ≡ y)
get-snoc-cases [] x y zero h = inr (ground arith)
get-snoc-cases [] x y (suc i) h = ground arith
get-snoc-cases (z ∷ zs) x y zero h = inl h
get-snoc-cases (z ∷ zs) x y (suc i) h = get-snoc-cases zs x y i h

pub get-append {ℓ} :
    {A : Type ℓ} (xs ys : List A) (i : ℕ) (y : A)
    → get_elem? xs i ≡ some y
    → get_elem? (xs ++ ys) i ≡ some y
get-append [] ys i y h = ground arith
get-append (x ∷ xs) ys zero y h = h
get-append (x ∷ xs) ys (suc i) y h = get-append xs ys i y h

pub get-snoc_last {ℓ} :
    {A : Type ℓ} (xs : List A) (x : A) → get_elem? (xs ++ (x ∷ [])) (length xs) ≡ some x
get-snoc_last [] x = refl
get-snoc_last (y ∷ ys) x = get-snoc_last ys x

pub IsSaved-keeps :
    (platform : Platform) (pm qm : PieceManager) (k : ℕ) (m n : PieceMetadata) (e : ℕ × List ℕ)
    → qm.piece_length ≡ pm.piece_length
    → n.piece_hash ≡ m.piece_hash
    → n.current_piece_length ≡ m.current_piece_length
    → IsSaved platform pm k m e
    → IsSaved platform qm k n e
IsSaved-keeps platform pm qm k m n e l h c s = record {
  offset = rw l s.offset;
  size = s.size ∙ sym c;
  verified = s.verified ∙ ap ok (sym h);
}

-- Nothing is saved and no piece becomes completed.
pub same-IsFaithful :
    (platform : Platform) (pm qm : PieceManager)
    → IsFaithful platform pm
    → KeepsPieces pm qm
    → CompletesNone pm qm
    → qm.piece_length ≡ pm.piece_length
    → qm.file_manager ≡ pm.file_manager
    → qm.num_pieces_completed ≡ pm.num_pieces_completed
    → IsFaithful platform qm
same-IsFaithful platform pm qm f kp cn l fm nc = record {
  sound = λ i e g.
      let (k, m, gm, d, s) = f.sound i e (rw fm at g) in
      let (n, gn, h, c, dn) = kp k m gm in
      (k, n, gn, dn d, IsSaved-keeps platform pm qm k m n e l h c s);
  complete = λ k n gn d.
      let (m, gm, dm) = cn k n gn d in
      let (n', gn', h, c, _) = kp k m gm in
      let same : n' ≡ n = ground arith in
      let (i, e, ge, s) = f.complete k m gm dm in
      (
        i,
        e,
        rw fm ge,
        subst (λ (x : PieceMetadata). IsSaved platform qm k x e) same
            (IsSaved-keeps platform pm qm k m n' e l h c s),
      );
  as_many = rw (fm, nc) f.as_many;
}
