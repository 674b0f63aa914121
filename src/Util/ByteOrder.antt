-- ===== src/Util/ByteOrder.antt =====
-- `convert_bo` of include/simpletorrent/Util.h, and the bytes by which an integer stands in memory.
use mathlib.Core.List.{reverse, reverse-reverse, reverse-cons, reverse-append}
use native.Mathlib.Nat.{pow-suc, pow-succ', div-div-eq-div-mul}
use simpletorrent.Base.{
  ℕ, zero, suc, ◌+◌, ◌*◌, ◌/◌, ◌%◌, ◌^◌, ◌<◌, ◌≡◌, refl, ap, List, [], ◌∷◌, ◌++◌, length, arith,
  length-append, sym, ◌∙◌,
}
use simpletorrent.Util.Hex.{AllBytes}

-- `std::endian::native`.
pub data Endian : Type 0 where
  little big : Endian

unfoldable pub le_bytes : ℕ → ℕ → List ℕ
le_bytes zero x = []
le_bytes (suc n) x = (x % 256) ∷ le_bytes n (x / 256)

unfoldable pub of_le : List ℕ → ℕ
of_le [] = 0
of_le (b ∷ bs) = b + 256 * of_le bs

-- What `memcpy` from an `n`-byte integer copies, and what `memcpy` into one reads.
unfoldable pub to_memory : Endian → ℕ → ℕ → List ℕ
to_memory little n x = le_bytes n x
to_memory big n x = reverse (le_bytes n x)

unfoldable pub of_memory : Endian → List ℕ → ℕ
of_memory little bs = of_le bs
of_memory big bs = of_le (reverse bs)

-- `n` is `sizeof(T)`.
unfoldable pub convert_bo : Endian → ℕ → ℕ → ℕ
unfolding to_memory of_memory
convert_bo little n x = of_memory little (reverse (to_memory little n x))
convert_bo big n x = x

-- The bytes of network order, the highest first.
unfoldable pub network_bytes : ℕ → ℕ → List ℕ
network_bytes zero x = []
network_bytes (suc n) x = (x / 256 ^ n % 256) ∷ network_bytes n x

pub length-le_bytes : (n x : ℕ) → length (le_bytes n x) ≡ n
unfolding le_bytes
length-le_bytes zero x = refl
length-le_bytes (suc n) x = ap suc (length-le_bytes n (x / 256))

pub le_bytes-AllBytes : (n x : ℕ) → AllBytes (le_bytes n x)
unfolding le_bytes
le_bytes-AllBytes zero x = tt
le_bytes-AllBytes (suc n) x = (omega arith, le_bytes-AllBytes n (x / 256))

pub AllBytes-append : (xs ys : List ℕ) → AllBytes xs → AllBytes ys → AllBytes (xs ++ ys)
AllBytes-append [] ys p q = q
AllBytes-append (x ∷ xs) ys p q = (p.0, AllBytes-append xs ys p.1 q)

pub reverse-AllBytes : (xs : List ℕ) → AllBytes xs → AllBytes (reverse xs)
reverse-AllBytes [] h = tt
reverse-AllBytes (x ∷ xs) h =
    rw (reverse-cons x xs)
      (AllBytes-append (reverse xs) (x ∷ []) (reverse-AllBytes xs h.1) (h.0, tt))

pub length-reverse : (xs : List ℕ) → length (reverse xs) ≡ length xs
length-reverse [] = refl
length-reverse (x ∷ xs) =
    ap length (reverse-cons x xs)
    ∙ length-append (reverse xs) (x ∷ [])
    ∙ omega (arith, length-reverse xs)

le_bytes-of_le : (bs : List ℕ) → AllBytes bs → le_bytes (length bs) (of_le bs) ≡ bs
unfolding le_bytes of_le
le_bytes-of_le [] h = refl
le_bytes-of_le (b ∷ bs) h =
    let low : (b + 256 * of_le bs) % 256 ≡ b = omega arith in
    let high : (b + 256 * of_le bs) / 256 ≡ of_le bs = omega arith in
    rw (low, high, le_bytes-of_le bs h.1)

of_le-le_bytes : (n x : ℕ) → x < 256 ^ n → of_le (le_bytes n x) ≡ x
unfolding le_bytes of_le
of_le-le_bytes zero x h = omega arith
of_le-le_bytes (suc n) x h =
    omega (arith, of_le-le_bytes n (x / 256) (omega (arith, pow-suc 256 n)))

le_bytes-snoc : (n x : ℕ) → le_bytes (suc n) x ≡ le_bytes n x ++ (x / 256 ^ n % 256) ∷ []
unfolding le_bytes
le_bytes-snoc zero x = ap (λ (y : ℕ). y % 256 ∷ []) (omega arith)
le_bytes-snoc (suc n) x =
    let shift : x / 256 / 256 ^ n ≡ x / 256 ^ suc n =
      div-div-eq-div-mul x 256 (256 ^ n) ∙ ap (λ (y : ℕ). x / y) (sym (pow-succ' 256 n)) in
    rw (← shift) (ap (◌∷◌ (x % 256)) (le_bytes-snoc n (x / 256)))

-- Network order is the little-endian order reversed.
pub reverse-le_bytes : (n x : ℕ) → reverse (le_bytes n x) ≡ network_bytes n x
unfolding network_bytes
reverse-le_bytes zero x = unfold le_bytes in refl
reverse-le_bytes (suc n) x = rw (
  le_bytes-snoc n x,
  reverse-append (le_bytes n x) ((x / 256 ^ n % 256) ∷ []),
  reverse-le_bytes n x,
)

pub length-network_bytes : (n x : ℕ) → length (network_bytes n x) ≡ n
unfolding network_bytes
length-network_bytes zero x = refl
length-network_bytes (suc n) x = ap suc (length-network_bytes n x)

pub network_bytes-AllBytes : (n x : ℕ) → AllBytes (network_bytes n x)
network_bytes-AllBytes n x =
    rw (← reverse-le_bytes n x) (reverse-AllBytes (le_bytes n x) (le_bytes-AllBytes n x))

le_bytes-of_le-reverse :
    (n x : ℕ) → le_bytes n (of_le (reverse (le_bytes n x))) ≡ reverse (le_bytes n x)
le_bytes-of_le-reverse n x =
    let size : length (reverse (le_bytes n x)) ≡ n =
      length-reverse (le_bytes n x) ∙ length-le_bytes n x in
    ap (λ (m : ℕ). le_bytes m (of_le (reverse (le_bytes n x)))) (sym size)
    ∙ le_bytes-of_le (reverse (le_bytes n x))
        (reverse-AllBytes (le_bytes n x) (le_bytes-AllBytes n x))

-- Whatever the byte order of the machine, the converted integer lies in memory in network order.
pub to_memory-convert_bo :
    (e : Endian) (n x : ℕ) → to_memory e n (convert_bo e n x) ≡ network_bytes n x
unfolding to_memory of_memory convert_bo
to_memory-convert_bo little n x = le_bytes-of_le-reverse n x ∙ reverse-le_bytes n x
to_memory-convert_bo big n x = reverse-le_bytes n x

-- And an integer that is read from bytes in network order is converted to the one they stand for, if
-- it fits that many bytes.
pub convert_bo-of_memory :
    (e : Endian) (n x : ℕ) → x < 256 ^ n → convert_bo e n (of_memory e (network_bytes n x)) ≡ x
unfolding convert_bo of_memory to_memory
convert_bo-of_memory little n x h =
    rw (← reverse-le_bytes n x, le_bytes-of_le-reverse n x, reverse-reverse) (of_le-le_bytes n x h)
convert_bo-of_memory big n x h = rw (← reverse-le_bytes n x, reverse-reverse) (of_le-le_bytes n x h)

-- Converting twice gives the integer back.
pub convert_bo_involutive :
    (e : Endian) (n x : ℕ) → x < 256 ^ n → convert_bo e n (convert_bo e n x) ≡ x
unfolding convert_bo of_memory to_memory
convert_bo_involutive little n x h =
    rw (le_bytes-of_le-reverse n x, reverse-reverse) (of_le-le_bytes n x h)
convert_bo_involutive big n x h = refl
