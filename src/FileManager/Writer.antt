-- ===== src/FileManager/Writer.antt =====
-- The loop of the writer thread, `file_writer` in src/file_manager.cpp, over a whole queue.
use native.Mathlib.Nat.{mod-eq_of_lt}
use simpletorrent.Base.{
  ℕ, suc, ◌+◌, ◌%◌, ◌^◌, ◌≤◌, ◌<◌, ◌≡◌, refl, sym, ap, ◌∙◌, inl, inr, true, false, none, some, List,
  [], ◌∷◌, ◌++◌, Bool, if◌then◌else◌, length, get_elem?, overwrite, ◌==◌, Result, ok, arith,
  Bool-cases, Option-cases,
}
use simpletorrent.FileManager.{FileManager, Turn, write_value, file_writer}
use simpletorrent.FileManager.Layout.{concat, sum}
use simpletorrent.FileManager.Fill.{HasRoom, fill, write_value-fill}

-- What the turns take off the queue.
abbrev pub taken : List Turn → List (ℕ × List ℕ)
taken [] = []
taken (t ∷ ts) = elim t.dequeued [ none ↦ taken ts | some v ↦ v ∷ taken ts ]

-- No turn finds the download stopped.
abbrev pub AllRunning : List Turn → Type 0
AllRunning [] = Unit {0}
AllRunning (t ∷ ts) = (t.stopped ≡ false) × AllRunning ts

-- Each value ends within the `n` bytes of the torrent.
abbrev pub AllWithin : ℕ → List (ℕ × List ℕ) → Type 0
AllWithin n [] = Unit {0}
AllWithin n (v ∷ vs) = (v.0 < n) × (v.0 + length v.1 ≤ n) × AllWithin n vs

pub AllWithin-get :
    (n : ℕ) (vs : List (ℕ × List ℕ))
    → ((j : ℕ) (v : ℕ × List ℕ) → get_elem? vs j ≡ some v → (v.0 < n) × (v.0 + length v.1 ≤ n))
    → AllWithin n vs
AllWithin-get n [] h = tt
AllWithin-get n (v ∷ vs) h =
    let (a, b) = h 0 v refl in (a, b, AllWithin-get n vs (λ j w g. h (suc j) w g))

-- The row of all bytes after the values have been written over it, one after the other.
abbrev pub writes : List (ℕ × List ℕ) → List ℕ → List ℕ
writes [] row = row
writes (v ∷ vs) row = writes vs (overwrite row v.0 v.1)

module _ (fm : FileManager) (t : Turn) (ts : List Turn) (c : ℕ) (disk : List (List ℕ))
    (running : t.stopped ≡ false) (more : (c == fm.num_pieces) ≡ false) where
  writing_step :
      (v : ℕ × List ℕ) (next : List (List ℕ)) (r : Result (List (List ℕ) × Bool))
      → t.dequeued ≡ some v
      → write_value fm.file_lengths v disk ≡ ok next
      → file_writer fm ts ((c + 1) % 2 ^ 32) next ≡ r
      → file_writer fm (t ∷ ts) c disk ≡ r
  unfolding file_writer
  writing_step v next r d w e = rw (running, more, d) (rw w e)

  idle_step :
      (r : Result (List (List ℕ) × Bool))
      → t.dequeued ≡ none
      → file_writer fm ts c disk ≡ r
      → file_writer fm (t ∷ ts) c disk ≡ r
  unfolding file_writer
  idle_step r d e = rw (running, more, d) e

-- With all pieces written the next turn ends the loop.
end_step :
    (fm : FileManager) (t : Turn) (ts : List Turn) (c : ℕ) (disk : List (List ℕ))
    → (c == fm.num_pieces) ≡ true
    → file_writer fm (t ∷ ts) c disk ≡ ok (disk, true)
unfolding file_writer
end_step fm t ts c disk all = elim (Bool-cases t.stopped) [
  | inl s ↦ rw s refl
  | inr s ↦ rw (s, all) refl
]

-- With `count` pieces written the loop ends by itself if these are all, and else goes on.
abbrev pub goes_on :
    FileManager → Turn → List Turn → ℕ → List (List ℕ) → Result (List (List ℕ) × Bool)
goes_on fm t more count disk =
    if count == fm.num_pieces then ok (disk, true) else file_writer fm (t ∷ more) count disk

-- What the writer makes of the turns `ts` and those that follow: it writes the values, and then ends
-- if these were all pieces, or else goes on.
abbrev pub Written : FileManager → List Turn → Turn → List Turn → ℕ → List (List ℕ) → Type 0
Written fm ts t more c disk =
    (after : List (List ℕ)) × (file_writer fm (ts ++ (t ∷ more)) c disk
      ≡ goes_on fm t more (c + length (taken ts)) after)
    × HasRoom fm.file_lengths after
    × (concat (fill fm.file_lengths after) ≡ writes (taken ts) (concat (fill fm.file_lengths disk)))

taken-none : (vs : List (ℕ × List ℕ)) (c n : ℕ) → c + length vs ≤ n → (c == n) ≡ true → vs ≡ []
taken-none [] c n h e = refl
taken-none (v ∷ vs) c n h e = absurd (ground arith)

taken-some :
    (t : Turn) (ts : List Turn) (v : ℕ × List ℕ)
    → t.dequeued ≡ some v
    → taken (t ∷ ts) ≡ v ∷ taken ts
taken-some t ts v d = rw d refl

taken-idle : (t : Turn) (ts : List Turn) → t.dequeued ≡ none → taken (t ∷ ts) ≡ taken ts
taken-idle t ts d = rw d refl

-- With no file longer than it is to be, as long as the download is not stopped, the writer writes every
-- value that it takes off the queue, in order, if each ends within the torrent and they are no more
-- than the pieces that it still waits for: read with the zeros behind the end of each, the files have
-- changed just by these writes. If that were all the pieces the loop has ended by itself, whatever the
-- next turn finds; and otherwise it goes on from there.
pub file_writer-Written :
    (fm : FileManager) (ts : List Turn) (t : Turn) (more : List Turn) (c : ℕ) (disk : List (List ℕ))
    → AllRunning ts
    → HasRoom fm.file_lengths disk
    → AllWithin (sum fm.file_lengths) (taken ts)
    → c + length (taken ts) ≤ fm.num_pieces
    → fm.num_pieces < 2 ^ 32
    → Written fm ts t more c disk
file_writer-Written fm [] t more c disk running room within few small =
    let none_ : c + 0 ≡ c = omega arith in
    elim (Bool-cases (c == fm.num_pieces)) [
      | inl all ↦ (disk, rw none_ (rw all (end_step fm t more c disk all)), room, refl)
      | inr rest ↦ (disk, rw none_ (rw rest refl), room, refl)
    ]
file_writer-Written fm (s ∷ ts) t more c disk running room within few small =
    elim (Bool-cases (c == fm.num_pieces)) [
      | inl all ↦
          let nothing = taken-none (taken (s ∷ ts)) c fm.num_pieces few all in
          let none_ : c + 0 ≡ c = omega arith in
          (
            disk,
            end_step fm s (ts ++ (t ∷ more)) c disk all ∙ rw (nothing, none_) (rw all refl),
            room,
            rw nothing refl,
          )
      | inr rest ↦ elim (Option-cases s.dequeued) [
        | inl d ↦
            let (after, e, h, w) =
              file_writer-Written fm ts t more c disk running.1 room (rw d at within) (rw d at few)
                small in
            (
              after,
              idle_step fm s (ts ++ (t ∷ more)) c disk running.0 rest _ d (
                  e
                  ∙ ap (λ (vs : List (ℕ × List ℕ)). goes_on fm t more (c + length vs) after)
                      (sym (taken-idle s ts d))),
              h,
              w
                  ∙ ap (λ (vs : List (ℕ × List ℕ)). writes vs (concat (fill fm.file_lengths disk)))
                      (sym (taken-idle s ts d)),
            )
        | inr (v, d) ↦
            let fits : AllWithin (sum fm.file_lengths) (v ∷ taken ts) = rw d at within in
            let left : c + length (v ∷ taken ts) ≤ fm.num_pieces = rw d at few in
            let (next, e, h, w) =
              write_value-fill fm.file_lengths disk v.0 v.1 room fits.0 fits.1 in
            let same : (c + 1) % 2 ^ 32 ≡ c + 1 = mod-eq_of_lt (omega arith) in
            let count : c + 1 + length (taken ts) ≡ c + length (taken (s ∷ ts)) =
              omega (arith, ap length (taken-some s ts v d)) in
            let (after, f, g, u) =
              file_writer-Written fm ts t more (c + 1) next running.1 h fits.2 (omega arith)
                small in
            (
              after,
              writing_step fm s (ts ++ (t ∷ more)) c disk running.0 rest v next _ d e (
                  ap (λ (j : ℕ). file_writer fm (ts ++ (t ∷ more)) j next) same
                  ∙ f
                  ∙ ap (λ (j : ℕ). goes_on fm t more j after) count),
              g,
              u
                  ∙ ap (writes (taken ts)) w
                  ∙ ap (λ (vs : List (ℕ × List ℕ)). writes vs (concat (fill fm.file_lengths disk)))
                      (sym (taken-some s ts v d)),
            )
      ]
    ]
