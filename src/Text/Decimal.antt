-- ===== src/Text/Decimal.antt =====
-- `std::stoi` reads what `std::to_string` writes.
use simpletorrent.Base.{
  ℕ, zero, suc, ◌+◌, ◌-◌, ◌*◌, ◌/◌, ◌%◌, ◌^◌, ◌<◌, ◌≡◌, refl, ap, ◌∙◌, inl, inr, Bool, true, false,
  List, [], ◌∷◌, ◌++◌, length, all_of, ltb, leb, ◌==◌, ok, le→leb, ==_ne, length-append, arith,
  Bool-cases,
}
use native.Mathlib.Nat.{pow-suc}
use simpletorrent.Text.{
  decimal, to_string, is_digit, is_space, skip_spaces, read_sign, leading_digits, digits_value,
  stoi,
}

digits_value-snoc :
    (xs : List ℕ) (n c : ℕ) → digits_value n (xs ++ (c ∷ [])) ≡ digits_value n xs * 10 + (c - 48)
unfolding digits_value
digits_value-snoc [] n c = refl
digits_value-snoc (x ∷ xs) n c = digits_value-snoc xs (n * 10 + (x - 48)) c

all_of-snoc :
    (p : ℕ → Bool) (xs : List ℕ) (c : ℕ)
    → all_of p xs ≡ true
    → p c ≡ true
    → all_of p (xs ++ (c ∷ [])) ≡ true
all_of-snoc p [] c h k = ground arith
all_of-snoc p (x ∷ xs) c h k = ground (arith, all_of-snoc p xs c)

decimal_value : (more n : ℕ) → n < 10 ^ suc more → digits_value 0 (decimal more n) ≡ n
unfolding decimal
decimal_value zero n h = unfold digits_value in omega arith
decimal_value (suc more) n h = elim (Bool-cases (ltb n 10)) [
  | inl short ↦ rw short (unfold digits_value in omega arith)
  | inr long ↦ rw long (
      digits_value-snoc (decimal more (n / 10)) 0 (48 + n % 10)
      ∙ (let v = decimal_value more (n / 10) (omega (arith, pow-suc 10 (suc more))) in
          rw v (omega arith)))
]

pub decimal-digits : (more n : ℕ) → all_of is_digit (decimal more n) ≡ true
unfolding decimal
decimal-digits zero n = unfold is_digit in ground arith
decimal-digits (suc more) n = elim (Bool-cases (ltb n 10)) [
  | inl short ↦ rw short (unfold is_digit in ground arith)
  | inr long ↦ rw long (
      all_of-snoc is_digit (decimal more (n / 10)) (48 + n % 10) (decimal-digits more (n / 10))
        (unfold is_digit in ground arith))
]

leading_digits_self : (s : List ℕ) → all_of is_digit s ≡ true → leading_digits s ≡ s
unfolding leading_digits
leading_digits_self [] h = refl
leading_digits_self (c ∷ s) h = ground (arith, leading_digits_self s)

-- A text of digits has neither spaces nor a sign before them.
digits_bare :
    (c : ℕ) (s : List ℕ) → is_digit c ≡ true → read_sign (skip_spaces (c ∷ s)) ≡ (false, c ∷ s)
unfolding read_sign skip_spaces is_digit is_space
digits_bare c s h = ground arith

stoi-digits :
    (s : List ℕ)
    → all_of is_digit s ≡ true
    → 0 < length s
    → digits_value 0 s < 2 ^ 31
    → stoi s ≡ ok (false, digits_value 0 s)
unfolding stoi
stoi-digits [] h k b = absurd (omega arith)
stoi-digits (c ∷ s) h k b =
    let first : is_digit c ≡ true = ground arith in
    let small : leb (digits_value 0 (c ∷ s)) (2 ^ 31 - 1) ≡ true = le→leb _ _ (omega arith) in
    let any : (length (c ∷ s) == 0) ≡ false = ==_ne _ _ (λ e. omega (arith, e)) in
    rw (digits_bare c s first, leading_digits_self (c ∷ s) h, any, small) refl

length-decimal : (more n : ℕ) → 0 < length (decimal more n)
unfolding decimal
length-decimal zero n = omega arith
length-decimal (suc more) n = elim (Bool-cases (ltb n 10)) [
  | inl short ↦ rw short (omega arith)
  | inr long ↦ rw long (omega (arith, length-append (decimal more (n / 10)) ((48 + n % 10) ∷ [])))
]

pub stoi-to_string : (n : ℕ) → n < 2 ^ 31 → stoi (to_string n) ≡ ok (false, n)
unfolding to_string
stoi-to_string n h =
    let v = decimal_value 19 n (omega arith) in
    let b : digits_value 0 (decimal 19 n) < 2 ^ 31 = rw v h in
    stoi-digits (decimal 19 n) (decimal-digits 19 n) (length-decimal 19 n) b
    ∙ ap (λ (m : ℕ). ok (false, m)) v
