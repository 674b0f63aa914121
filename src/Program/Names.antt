-- ===== src/Program/Names.antt =====
-- The names of src/main.cpp and the id of src/torrent_client.cpp.
use simpletorrent.Base.{
  ℕ, zero, suc, ◌+◌, ◌-◌, ◌≤◌, ◌<◌, ◌≡◌, refl, sym, ap, ◌∙◌, Bool, true, false, ◌&&◌, ◌||◌, none,
  some, List, [], ◌∷◌, ◌++◌, length, all_of, leb, ◌==◌, ok, arith, length-append, get_elem?-some,
  all_of-get,
}
use mathlib.Core.List.{append_assoc}
use simpletorrent.Text.{substr_from}
use simpletorrent.Text.Find.{lacks, substr_from-behind}
use simpletorrent.Program.{
  find_last, get_filename, alphanum, client_id_from, generate_random_client_id,
}

find_last-lacks : (c : ℕ) (s : List ℕ) (i : ℕ) → lacks c s ≡ true → find_last c s i ≡ none
unfolding find_last
find_last-lacks c [] i h = refl
find_last-lacks c (x ∷ s) i h =
    let later = find_last-lacks c s (i + 1) (ground arith) in
    let other : (x == c) ≡ false = ground arith in rw (later, other) refl

find_last-append :
    (c : ℕ) (dir name : List ℕ) (i : ℕ)
    → lacks c name ≡ true
    → find_last c (dir ++ (c ∷ name)) i ≡ some (i + length dir)
unfolding find_last
find_last-append c [] name i h =
    let same : (c == c) ≡ true = ground arith in
    rw (find_last-lacks c name (i + 1) h, same) (ap some (omega arith))
find_last-append c (x ∷ dir) name i h =
    rw (find_last-append c dir name (i + 1) h) (ap some (omega arith))

-- Of a path whose last part is a name without a slash, `get_filename` gives that name; a text without
-- a slash is its own name.
pub get_filename-name :
    (dir name : List ℕ)
    → lacks b'/' name ≡ true
    → (get_filename (dir ++ (b'/' ∷ name)) ≡ ok name) × (get_filename name ≡ ok name)
unfolding get_filename
get_filename-name dir name h =
    let found : find_last b'/' (dir ++ (b'/' ∷ name)) 0 ≡ some (length dir) =
      find_last-append b'/' dir name 0 h ∙ ap some (omega arith) in
    let behind : substr_from (length dir + 1) (dir ++ (b'/' ∷ name)) ≡ ok name =
      ap (substr_from (length dir + 1)) (sym (append_assoc dir (b'/' ∷ []) name))
      ∙ substr_from-behind (dir ++ (b'/' ∷ [])) name (length dir + 1)
          (length-append dir (b'/' ∷ [])) in
    (rw (found, get_filename) behind, rw (find_last-lacks b'/' name 0 h, get_filename) refl)

abbrev pub is_alphanumeric : ℕ → Bool
is_alphanumeric c =
    (leb b'0' c && leb c b'9') || (leb b'A' c && leb c b'Z') || (leb b'a' c && leb c b'z')

client_id_from-alphanumeric :
    (dist : ℕ → ℕ → ℕ → ℕ)
    → ((a b i : ℕ) → a ≤ b → (a ≤ dist a b i) × (dist a b i ≤ b))
    → (i n : ℕ)
    → (id : List ℕ) × (client_id_from dist i n ≡ ok id)
      × (length id ≡ n)
      × (all_of is_alphanumeric id ≡ true)
unfolding client_id_from
client_id_from-alphanumeric dist law i zero = ([], refl, refl, refl)
client_id_from-alphanumeric dist law i (suc n) =
    let drawn = dist 0 (length alphanum - 1) i in
    let small : drawn < 62 = omega (arith, law 0 (length alphanum - 1) i (omega arith)) in
    let (c, at_n) = get_elem?-some alphanum drawn small in
    let good : is_alphanumeric c ≡ true = all_of-get is_alphanumeric alphanum drawn c refl at_n in
    let (id, e, same, all) = client_id_from-alphanumeric dist law (i + 1) n in
    (c ∷ id, rw (at_n, e) refl, ap suc same, rw (good, all) refl)

-- If each draw from the uniform distribution on `a` to `b` lies in this range, the client makes an id
-- of the wanted length for every length, and of letters and digits only: no index lies behind the
-- table of characters.
pub generate_random_client_id-alphanumeric :
    (dist : ℕ → ℕ → ℕ → ℕ)
    → ((a b i : ℕ) → a ≤ b → (a ≤ dist a b i) × (dist a b i ≤ b))
    → (n : ℕ)
    → (id : List ℕ) × (generate_random_client_id dist n ≡ ok id)
      × (length id ≡ n)
      × (all_of is_alphanumeric id ≡ true)
unfolding generate_random_client_id
generate_random_client_id-alphanumeric dist law n = client_id_from-alphanumeric dist law 0 n
