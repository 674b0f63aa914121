-- ===== src/Parser/Parsed.antt =====
-- What holds of a torrent that src/parser.cpp has parsed.
use simpletorrent.Base.{
  ℕ, suc, ◌+◌, ◌%◌, ◌^◌, ◌<◌, ◌≡◌, refl, sym, ◌∙◌, inl, inr, ◌⊎◌, not, Option, List, [], ◌∷◌,
  length, map, ◌==◌, Result, ok, fault, parse_exception, thrown, or_fault, guard, Yields, Any,
  Yields-bind, Yields-mono, Yields-or_fault, arith, ==_ne, Bool-cases,
}
use simpletorrent.Types.{FileMetadata, TorrentMetadata}
use simpletorrent.FileManager.{data_file_lengths}
use simpletorrent.FileManager.Layout.{sum}
use simpletorrent.Bencode.{
  ℤ, pos, negsuc, Data, Items, end, item, Entries, get_integer, get_string, get_list, get_dict,
  dict_at, has_key,
}
use simpletorrent.Bencode.Total.{
  get_integer-Yields, get_string-Yields, get_list-Yields, get_dict-Yields, dict_at-Yields,
  field-bind,
}
use simpletorrent.Parser.{
  Library, pieces_key, info_key, announce_key, announce_list_key, length_key, files_key, path_key,
  name_key, piece_length_key, to_uint64, parse_piece_hash, calc_info_hash, strings, tiers,
  add_trackers, read_file, read_files, add_files, parse_torrent, rethrow, parse_torrent_file,
}
use simpletorrent.Parser.Hashes.{AreHashes, hashes_from-Cut}

strings-Yields : (items : Items) → Yields Any (strings items)
unfolding strings
strings-Yields end = tt
strings-Yields (item value rest) =
    Yields-bind Any Any (get_string value) _ (get_string-Yields value)
      (λ s a. Yields-bind Any Any (strings rest) _ (strings-Yields rest) (λ more b. tt))

tiers-Yields : (items : Items) → Yields Any (tiers items)
unfolding tiers
tiers-Yields end = tt
tiers-Yields (item value rest) =
    Yields-bind Any Any (get_list value) _ (get_list-Yields value) (λ tier a.
      Yields-bind Any Any (strings tier) _ (strings-Yields tier)
        (λ urls b. Yields-bind Any Any (tiers rest) _ (tiers-Yields rest) (λ more c. tt)))

to_uint64_small : (n : ℤ) → to_uint64 n < 2 ^ 64
unfolding to_uint64
to_uint64_small (pos n) = omega arith
to_uint64_small (negsuc n) = omega arith

lengths : List FileMetadata → List ℕ
lengths files = map (λ (f : FileMetadata). f.file_length) files

-- A file stands in the folder of the torrent.
pub IsRooted : List ℕ → FileMetadata → Type 0
IsRooted output_path file = (rest : List (List ℕ)) × (file.paths ≡ output_path ∷ rest)

pub AreRooted : List ℕ → List FileMetadata → Type 0
AreRooted output_path [] = Unit {0}
AreRooted output_path (file ∷ files) = IsRooted output_path file × AreRooted output_path files

read_file-Yields :
    (output_path : List ℕ) (f : Data) → Yields (IsRooted output_path) (read_file output_path f)
unfolding read_file IsRooted
read_file-Yields output_path f =
    let P = IsRooted output_path in
    Yields-bind Any P (get_dict f) _ (get_dict-Yields f) (λ d a.
      field-bind get_integer get_integer-Yields P length_key d _ (λ n.
        field-bind get_list get_list-Yields P path_key d _ (λ p_list.
          Yields-bind Any P (strings p_list) _ (strings-Yields p_list) (λ paths b. (paths, refl)))))

-- The total of the files that were read, after a total before them.
Totals : List ℕ → ℕ → ℕ × List FileMetadata → Type 0
Totals output_path before (total, files) =
    (total ≡ (before + sum (lengths files)) % 2 ^ 64) × AreRooted output_path files

read_files-Yields :
    (output_path : List ℕ) (items : Items) (total_length : ℕ)
    → total_length < 2 ^ 64
    → Yields (Totals output_path total_length) (read_files output_path items total_length)
unfolding read_files Totals lengths AreRooted
read_files-Yields output_path end total_length h = (omega arith, tt)
read_files-Yields output_path (item f rest) total_length h =
    Yields-bind (IsRooted output_path) (Totals output_path total_length) (read_file output_path f) _
      (read_file-Yields output_path f)
      (λ file rooted.
        let next = (total_length + file.file_length) % 2 ^ 64 in
        Yields-bind (Totals output_path next) (Totals output_path total_length)
          (read_files output_path rest next) _
          (read_files-Yields output_path rest next (omega arith))
          (λ (total, files) (t, rooted'). (omega (arith, t), (rooted, rooted'))))

-- The total of the files that the file manager makes of a torrent is the total that was parsed.
Agrees : List ℕ → ℕ × List FileMetadata → Type 0
Agrees output_path (total, files) =
    (total < 2 ^ 64)
    × AreRooted output_path files
    × ((files ≡ []) ⊎ (total ≡ sum (lengths files) % 2 ^ 64))

add_files-Yields :
    (output_path : List ℕ) (info_dict : Entries)
    → Yields (Agrees output_path) (add_files output_path info_dict)
unfolding add_files Agrees AreRooted Totals
add_files-Yields output_path info_dict =
    let P = Agrees output_path in
    elim (Bool-cases (has_key length_key info_dict)) [
      | inl single ↦ rw single (
          field-bind get_integer get_integer-Yields P length_key info_dict _
            (λ n. (to_uint64_small n, tt, inl refl)))
      | inr several ↦ rw several (
          field-bind get_list get_list-Yields P files_key info_dict _ (λ items.
            Yields-mono (Totals output_path 0) P (read_files output_path items 0)
              (λ (total, files) (t, rooted). agrees output_path total files t rooted)
              (read_files-Yields output_path items 0 (omega arith))))
    ]
  where
    agrees :
        (output_path : List ℕ) (total : ℕ) (files : List FileMetadata)
        → total ≡ (0 + sum (lengths files)) % 2 ^ 64
        → AreRooted output_path files
        → Agrees output_path (total, files)
    agrees output_path total files t rooted = (omega arith, rooted, inr (omega arith))

-- What the parser vouches for.
pub record IsParsed (t : TorrentMetadata) : Type 0 where
  pub some_tracker : 0 < length t.tracker_url_list
  pub hashes : AreHashes t.piece_hashes
  pub piece_length_small : t.piece_length < 2 ^ 64
  pub total_length_small : t.total_length < 2 ^ 64
  pub total : sum (data_file_lengths t) % 2 ^ 64 ≡ t.total_length
  pub rooted : AreRooted t.output_path t.files

parse_piece_hash-Yields : (info_dict : Entries) → Yields AreHashes (parse_piece_hash info_dict)
unfolding parse_piece_hash
parse_piece_hash-Yields info_dict =
    field-bind get_string get_string-Yields AreHashes pieces_key info_dict _
      (λ s. let (hs, e, (w, _)) = hashes_from-Cut s (length s) 0 (omega arith) in rw e w)

calc_info_hash-Yields : (library : Library) (d : Entries) → Yields Any (calc_info_hash library d)
unfolding calc_info_hash
calc_info_hash-Yields library d =
    Yields-bind Any Any (dict_at info_key d) _ (dict_at-Yields info_key d) (λ info a. tt)

add_trackers-Yields : (d : Entries) → Yields Any (add_trackers d)
unfolding add_trackers
add_trackers-Yields d = elim (Bool-cases (has_key announce_list_key d)) [
  | inl several ↦
      rw several
        (field-bind get_list get_list-Yields Any announce_list_key d _ (λ l. tiers-Yields l))
  | inr single ↦
      rw single (field-bind get_string get_string-Yields Any announce_key d _ (λ url. tt))
]

guard-Yields :
    (xs : List (List ℕ))
    → Yields (λ (u : Unit {0}). 0 < length xs) (guard (not (length xs == 0)) parse_exception)
guard-Yields [] = refl
guard-Yields (x ∷ xs) = rw (==_ne (suc (length xs)) 0 (λ e. omega (arith, e))) (omega arith)

file_lengths_total :
    (t : TorrentMetadata) (files : List FileMetadata)
    → t.files ≡ files
    → t.total_length < 2 ^ 64
    → (t.files ≡ []) ⊎ (t.total_length ≡ sum (lengths t.files) % 2 ^ 64)
    → sum (data_file_lengths t) % 2 ^ 64 ≡ t.total_length
unfolding data_file_lengths lengths
file_lengths_total t [] e small agree = rw (e, data_file_lengths) (omega arith)
file_lengths_total t (f ∷ fs) e small (inl none_) = absurd (cons-nil (sym e ∙ none_))
  where
    cons-nil : {x : FileMetadata} {xs : List FileMetadata} → x ∷ xs ≡ [] → ⊥
    cons-nil h = ground arith
file_lengths_total t (f ∷ fs) e small (inr same) = rw (e, data_file_lengths) (sym (rw e at same))

parsed :
    (t : TorrentMetadata)
    → 0 < length t.tracker_url_list
    → AreHashes t.piece_hashes
    → t.piece_length < 2 ^ 64
    → Agrees t.output_path (t.total_length, t.files)
    → IsParsed t
unfolding Agrees data_file_lengths lengths
parsed t some_ hs small (small', rooted, agree) = record {
  some_tracker = some_;
  hashes = hs;
  piece_length_small = small;
  total_length_small = small';
  total = file_lengths_total t t.files refl small' agree;
  rooted = rooted;
}

parse_torrent-Yields :
    (library : Library) (file : Option (List ℕ)) → Yields IsParsed (parse_torrent library file)
unfolding parse_torrent
parse_torrent-Yields library file =
    Yields-bind Any IsParsed (or_fault file parse_exception) _
      (Yields-or_fault file parse_exception refl)
      (λ input a.
        Yields-bind Any IsParsed (or_fault (library.decode input) thrown) _
          (Yields-or_fault (library.decode input) thrown refl)
          (λ decoded b.
            Yields-bind Any IsParsed (get_dict decoded) _ (get_dict-Yields decoded) (λ d c.
              field-bind get_dict get_dict-Yields IsParsed info_key d _ (λ info.
                Yields-bind AreHashes IsParsed (parse_piece_hash info) _
                  (parse_piece_hash-Yields info)
                  (λ hs w.
                    Yields-bind Any IsParsed (add_trackers d) _ (add_trackers-Yields d) (λ urls f.
                      Yields-bind (λ (u : Unit {0}). 0 < length urls) IsParsed
                        (guard (not (length urls == 0)) parse_exception) _ (guard-Yields urls)
                        (λ u some_.
                          field-bind get_string get_string-Yields IsParsed name_key info _ (λ name.
                            Yields-bind Any IsParsed (calc_info_hash library d) _
                              (calc_info_hash-Yields library d)
                              (λ hash g.
                                field-bind get_integer get_integer-Yields IsParsed piece_length_key
                                  info _
                                  (λ n.
                                    Yields-bind (Agrees name) IsParsed (add_files name info) _
                                      (add_files-Yields name info)
                                      (λ (total, files) agree.
                                        parsed _ some_ w (to_uint64_small n) agree)))))))))))

-- Whatever the file holds, and whatever the bencode library makes of it: `parse_torrent_file` returns
-- or throws a `ParseException`, and nothing else. A torrent that it returns has a tracker; every hash
-- but the last has 20 characters, and the last one between 1 and 20; the lengths are below 2^64, the
-- lengths of the files that the file manager makes of it add up to the total length modulo 2^64, and
-- each file of several stands in the folder of the torrent.
pub parse_torrent_file-IsParsed :
    (library : Library) (file : Option (List ℕ))
    → ((t : TorrentMetadata) × (parse_torrent_file library file ≡ ok t) × IsParsed t)
      ⊎ (parse_torrent_file library file ≡ fault parse_exception)
unfolding parse_torrent_file rethrow
parse_torrent_file-IsParsed library file =
    go (parse_torrent library file) refl (parse_torrent-Yields library file)
  where
    go :
        (r : Result TorrentMetadata)
        → parse_torrent library file ≡ r
        → Yields IsParsed r
        → ((t : TorrentMetadata) × (parse_torrent_file library file ≡ ok t) × IsParsed t)
          ⊎ (parse_torrent_file library file ≡ fault parse_exception)
    go (ok t) e w = inl (t, rw (e, parse_torrent_file) refl, w)
    go (fault bad) e w = inr (rw (e, parse_torrent_file) (rw (w, rethrow) refl))
