-- ===== src/Bencode.antt =====
-- The values of the library external/include/bencode.hpp that src/parser.cpp and src/http_tracker.cpp
-- take apart: a variant of four types, where `std::get` throws if the value is of another, and `.at`
-- if a dictionary has no such key.
pub mod Total
use simpletorrent.Base.{
  ℕ, Bool, true, false, ◌||◌, List, [], ◌∷◌, list_eq, if◌then◌else◌, Result, ok, fault,
  out_of_range, thrown,
}

-- A `long long`: `pos n` is n and `negsuc n` is -1 - n.
pub data ℤ : Type 0 where
  pos negsuc : ℕ → ℤ

mutual
  pub data Data : Type 0 where
    integer : ℤ → Data
    string : List ℕ → Data
    list : Items → Data
    dict : Entries → Data

  pub data Items : Type 0 where
    end : Items
    item : Data → Items → Items

  pub data Entries : Type 0 where
    empty : Entries
    entry : List ℕ → Data → Entries → Entries

unfoldable pub get_integer : Data → Result ℤ
get_integer (integer n) = ok n
get_integer _ = fault thrown

unfoldable pub get_string : Data → Result (List ℕ)
get_string (string s) = ok s
get_string _ = fault thrown

unfoldable pub get_list : Data → Result Items
get_list (list items) = ok items
get_list _ = fault thrown

unfoldable pub get_dict : Data → Result Entries
get_dict (dict entries) = ok entries
get_dict _ = fault thrown

unfoldable pub dict_at : List ℕ → Entries → Result Data
dict_at key empty = fault out_of_range
dict_at key (entry name value rest) =
    let later = dict_at key rest in if list_eq key name then ok value else later

unfoldable pub has_key : List ℕ → Entries → Bool
has_key key empty = false
has_key key (entry name value rest) = list_eq key name || has_key key rest
