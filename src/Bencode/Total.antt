-- ===== src/Bencode/Total.antt =====
-- The accessors of values of external/include/bencode.hpp give a value or throw.
use simpletorrent.Base.{
  ℕ, refl, inl, inr, List, list_eq, Result, ◌>>=◌, Yields, Any, Yields-bind, Bool-cases,
}
use simpletorrent.Bencode.{
  Data, integer, string, list, dict, Entries, empty, entry, get_integer, get_string, get_list,
  get_dict, dict_at,
}

pub get_integer-Yields : (d : Data) → Yields Any (get_integer d)
unfolding get_integer
get_integer-Yields (integer n) = tt
get_integer-Yields (string s) = refl
get_integer-Yields (list items) = refl
get_integer-Yields (dict entries) = refl

pub get_string-Yields : (d : Data) → Yields Any (get_string d)
unfolding get_string
get_string-Yields (integer n) = refl
get_string-Yields (string s) = tt
get_string-Yields (list items) = refl
get_string-Yields (dict entries) = refl

pub get_list-Yields : (d : Data) → Yields Any (get_list d)
unfolding get_list
get_list-Yields (integer n) = refl
get_list-Yields (string s) = refl
get_list-Yields (list items) = tt
get_list-Yields (dict entries) = refl

pub get_dict-Yields : (d : Data) → Yields Any (get_dict d)
unfolding get_dict
get_dict-Yields (integer n) = refl
get_dict-Yields (string s) = refl
get_dict-Yields (list items) = refl
get_dict-Yields (dict entries) = tt

pub dict_at-Yields : (key : List ℕ) (entries : Entries) → Yields Any (dict_at key entries)
unfolding dict_at
dict_at-Yields key empty = refl
dict_at-Yields key (entry name value rest) = elim (Bool-cases (list_eq key name)) [
  | inl here ↦ rw here tt
  | inr other ↦ rw other (dict_at-Yields key rest)
]

-- The value of a key, when it has to be of a type, and what follows.
pub field-bind :
    {A B : Type 0} (get : Data → Result A)
    → ((d : Data) → Yields Any (get d))
    → (q : B → Type 0) (key : List ℕ) (entries : Entries) (next : A → Result B)
    → ((a : A) → Yields q (next a))
    → Yields q (dict_at key entries >>= λ value. get value >>= next)
field-bind get total q key entries next f =
    Yields-bind Any q (dict_at key entries) _ (dict_at-Yields key entries)
      (λ value a. Yields-bind Any q (get value) next (total value) (λ x b. f x))
