-- ===== src/Text.antt =====
-- What the code uses of `std::string` and of the conversions between texts and numbers. A text is a
-- list of character codes.
pub mod Decimal
pub mod Find
use simpletorrent.Base.{
  ℕ, zero, suc, ◌+◌, ◌-◌, ◌*◌, ◌/◌, ◌%◌, ◌^◌, Bool, true, false, ◌&&◌, ◌||◌, Option, none, some,
  List, [], ◌∷◌, ◌++◌, length, take, drop, first_index, ltb, leb, ◌==◌, if◌then◌else◌, Result, ok,
  fault, out_of_range, thrown,
}

-- `find(c, pos)`.
unfoldable pub find_from : ℕ → ℕ → List ℕ → Option ℕ
find_from c pos s = first_index (λ x. x == c) (drop pos s) pos

-- `starts_with(prefix)`.
unfoldable pub starts_with : List ℕ → List ℕ → Bool
starts_with [] s = true
starts_with (c ∷ prefix) [] = false
starts_with (c ∷ prefix) (d ∷ s) = (c == d) && starts_with prefix s

-- `find(text)`, in what stands from position `pos` on.
unfoldable pub find_text : List ℕ → List ℕ → ℕ → Option ℕ
find_text text [] pos = if starts_with text [] then some pos else none
find_text text (c ∷ s) pos =
    let later = find_text text s (pos + 1) in if starts_with text (c ∷ s) then some pos else later

-- `substr(pos, n)` and `substr(pos)`, which throw behind the end.
unfoldable pub substr : ℕ → ℕ → List ℕ → Result (List ℕ)
substr pos n s = if leb pos (length s) then ok (take n (drop pos s)) else fault out_of_range

unfoldable pub substr_from : ℕ → List ℕ → Result (List ℕ)
substr_from pos s = if leb pos (length s) then ok (drop pos s) else fault out_of_range

-- The decimal digits of a number of at most `more + 1` digits.
unfoldable pub decimal : ℕ → ℕ → List ℕ
decimal zero n = (48 + n % 10) ∷ []
decimal (suc more) n =
    let before = decimal more (n / 10) in
    if ltb n 10 then (48 + n) ∷ [] else before ++ ((48 + n % 10) ∷ [])

-- `std::to_string` of a number below 2^64, which has at most 20 digits.
unfoldable pub to_string : ℕ → List ℕ
to_string n = decimal 19 n

unfoldable pub is_digit : ℕ → Bool
is_digit c = leb 48 c && leb c 57

unfoldable pub is_space : ℕ → Bool
is_space c = (c == 32) || leb 9 c && leb c 13

unfoldable pub skip_spaces : List ℕ → List ℕ
skip_spaces [] = []
skip_spaces (c ∷ s) = let rest = skip_spaces s in if is_space c then rest else c ∷ s

-- Whether there is a minus, and what follows a sign.
unfoldable pub read_sign : List ℕ → Bool × List ℕ
read_sign [] = (false, [])
read_sign (c ∷ s) = if c == 45 then (true, s) else if c == 43 then (false, s) else (false, c ∷ s)

unfoldable pub leading_digits : List ℕ → List ℕ
leading_digits [] = []
leading_digits (c ∷ s) = let rest = leading_digits s in if is_digit c then c ∷ rest else []

unfoldable pub digits_value : ℕ → List ℕ → ℕ
digits_value n [] = n
digits_value n (c ∷ s) = digits_value (n * 10 + (c - 48)) s

-- `std::stoi`: whether the number is negative, and its magnitude. What follows the digits is passed
-- over; without a digit it throws, and so it does for what is no `int`.
unfoldable pub stoi : List ℕ → Result (Bool × ℕ)
stoi s =
    let (negative, rest) = read_sign (skip_spaces s) in
    let digits = leading_digits rest in
    let n = digits_value 0 digits in
    if length digits == 0
    then fault thrown
    else if leb n (if negative then 2 ^ 31 else 2 ^ 31 - 1)
    then ok (negative, n)
    else fault out_of_range
