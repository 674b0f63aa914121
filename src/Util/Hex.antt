-- ===== src/Util/Hex.antt =====
-- `hex_decode` and `to_hex_string` of include/simpletorrent/Util.h. Texts are lists of character
-- codes.
use simpletorrent.Base.{
  ℕ, ◌+◌, ◌-◌, ◌*◌, ◌/◌, ◌%◌, ◌<◌, ◌≡◌, refl, inl, inr, Bool, true, false, ◌&&◌, ◌||◌, Option, none,
  some, List, [], ◌∷◌, length, all_of, ltb, leb, if◌then◌else◌, Result, ok, fault, ◌>>=◌, undefined,
  arith, Bool-cases, Option-cases,
}

-- What `std::from_chars` reads one character as, in base 16.
unfoldable pub hex_value : ℕ → Option ℕ
hex_value c =
    if leb b'0' c && leb c b'9'
    then some (c - 48)
    else if leb b'a' c && leb c b'f'
    then some (c - 87)
    else if leb b'A' c && leb c b'F'
    then some (c - 55)
    else none

-- `std::from_chars(p, p + 2, decoded_byte, 16)`: one or two digits. With no digit at `p` it leaves
-- `decoded_byte` as it was, and the code goes on to read a byte that was never set.
unfoldable pub from_chars : ℕ → ℕ → Result ℕ
from_chars c d = elim (hex_value c) [
  | none ↦ fault undefined
  | some x ↦ elim (hex_value d) [ none ↦ ok x | some y ↦ ok (x * 16 + y) ]
]

-- Behind the last character of a string of odd length stands its terminator, 0.
unfoldable pub hex_decode : List ℕ → Result (List ℕ)
hex_decode [] = ok []
hex_decode (c ∷ []) = do byte ← from_chars c 0; ok (byte ∷ [])
hex_decode (c ∷ d ∷ rest) = do byte ← from_chars c d; bytes ← hex_decode rest; ok (byte ∷ bytes)

unfoldable pub hex_char : ℕ → ℕ
hex_char d = if ltb d 10 then 48 + d else 87 + d

-- `std::hex << std::setw(2) << std::setfill('0')` for each byte.
unfoldable pub to_hex_string : List ℕ → List ℕ
to_hex_string [] = []
to_hex_string (b ∷ bs) = hex_char (b / 16) ∷ hex_char (b % 16) ∷ to_hex_string bs

abbrev pub IsByte : ℕ → Type 0
IsByte b = b < 256

abbrev pub AllBytes : List ℕ → Type 0
AllBytes [] = Unit {0}
AllBytes (b ∷ bs) = IsByte b × AllBytes bs

hex_value-hex_char : (d : ℕ) → d < 16 → hex_value (hex_char d) ≡ some d
unfolding hex_value hex_char
hex_value-hex_char d h = ground arith

from_chars_pair :
    (c d x y : ℕ) → hex_value c ≡ some x → hex_value d ≡ some y → from_chars c d ≡ ok (x * 16 + y)
unfolding from_chars
from_chars_pair c d x y e f = rw (e, f, from_chars)

-- Decoding what `to_hex_string` wrote gives the bytes back.
pub hex_decode-to_hex_string : (bs : List ℕ) → AllBytes bs → hex_decode (to_hex_string bs) ≡ ok bs
unfolding hex_decode to_hex_string
hex_decode-to_hex_string [] h = refl
hex_decode-to_hex_string (b ∷ bs) h =
    let whole : b / 16 * 16 + b % 16 ≡ b = omega arith in
    let pair =
      from_chars_pair (hex_char (b / 16)) (hex_char (b % 16)) (b / 16) (b % 16)
        (hex_value-hex_char (b / 16) (omega arith)) (hex_value-hex_char (b % 16) (omega arith)) in
    rw (pair, hex_decode-to_hex_string bs h.1, whole)

-- A character that `std::from_chars` reads as a digit, and one that `to_hex_string` may write.
unfoldable pub is_hex_digit : ℕ → Bool
is_hex_digit c = elim (hex_value c) [ none ↦ false | some _ ↦ true ]

unfoldable pub is_lower_hex : ℕ → Bool
is_lower_hex c = (leb b'0' c && leb c b'9') || (leb b'a' c && leb c b'f')

from_chars_digit : (c d : ℕ) → is_hex_digit c ≡ true → (x : ℕ) × (from_chars c d ≡ ok x)
unfolding is_hex_digit from_chars
from_chars_digit c d h = elim (Option-cases (hex_value c)) [
  | inl e ↦ ground arith
  | inr (x, e) ↦ elim (Option-cases (hex_value d)) [
    | inl f ↦ (x, rw (e, f, from_chars))
    | inr (y, f) ↦ (x * 16 + y, from_chars_pair c d x y e f)
  ]
]

-- A string of digits, of any length, is decoded without reading an unset byte.
pub hex_decode_total :
    (s : List ℕ) → all_of is_hex_digit s ≡ true → (bs : List ℕ) × (hex_decode s ≡ ok bs)
unfolding hex_decode
hex_decode_total [] h = ([], refl)
hex_decode_total (c ∷ []) h =
    let (x, e) = from_chars_digit c 0 (ground arith) in (x ∷ [], rw e refl)
hex_decode_total (c ∷ d ∷ rest) h =
    let (x, e) = from_chars_digit c d (ground arith) in
    let (bs, f) = hex_decode_total rest (ground arith) in (x ∷ bs, rw (e, f) refl)

lower_value :
    (c : ℕ) → is_lower_hex c ≡ true → (x : ℕ) × (hex_value c ≡ some x) × (x < 16) × (hex_char x ≡ c)
unfolding is_lower_hex hex_value hex_char
lower_value c h = elim (Bool-cases (leb b'0' c && leb c b'9')) [
  | inl e ↦ (c - 48, ground arith, ground arith, ground arith)
  | inr e ↦ (c - 87, ground arith, ground arith, ground arith)
]

-- A string of an even number of lower-case digits is what its decoding is written as.
pub to_hex_string-hex_decode :
    (s : List ℕ)
    → all_of is_lower_hex s ≡ true
    → length s % 2 ≡ 0
    → (bs : List ℕ) × (hex_decode s ≡ ok bs) × (to_hex_string bs ≡ s) × AllBytes bs
unfolding hex_decode to_hex_string
to_hex_string-hex_decode [] h p = ([], refl, refl, tt)
to_hex_string-hex_decode (c ∷ []) h p = absurd (omega arith)
to_hex_string-hex_decode (c ∷ d ∷ rest) h p =
    let (x, e, lx, cx) = lower_value c (ground arith) in
    let (y, f, ly, cy) = lower_value d (ground arith) in
    let (bs, g, back, small) = to_hex_string-hex_decode rest (ground arith) (omega arith) in
    let high : (x * 16 + y) / 16 ≡ x = omega arith in
    let low : (x * 16 + y) % 16 ≡ y = omega arith in
    (
      (x * 16 + y) ∷ bs,
      rw (from_chars_pair c d x y e f, g),
      rw (high, low, cx, cy, back) refl,
      (omega arith, small),
    )
