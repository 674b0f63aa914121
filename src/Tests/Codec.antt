-- ===== src/Tests/Codec.antt =====
-- include/simpletorrent/Util.h and include/simpletorrent/FastRandom.h at concrete inputs.
use simpletorrent.Base.{ℕ, ◌≡◌, refl, List, [], ◌∷◌, ok, arith}
use simpletorrent.Util.Hex.{
  hex_value, from_chars, hex_decode, hex_char, to_hex_string, hex_decode-to_hex_string,
  to_hex_string-hex_decode, AllBytes, is_lower_hex,
}
use simpletorrent.Util.ByteOrder.{
  little, convert_bo, to_memory, of_memory, network_bytes, le_bytes, of_le, convert_bo_involutive,
  to_memory-convert_bo,
}

-- "7f0a" and "7F0a".
abbrev written : List ℕ
written = 55 ∷ 102 ∷ 48 ∷ 97 ∷ []

reads_lower : hex_decode written ≡ ok (127 ∷ 10 ∷ [])
unfolding hex_decode from_chars hex_value
reads_lower = refl

reads_upper : hex_decode (55 ∷ 70 ∷ 48 ∷ 97 ∷ []) ≡ ok (127 ∷ 10 ∷ [])
unfolding hex_decode from_chars hex_value
reads_upper = refl

writes_lower : to_hex_string (127 ∷ 10 ∷ []) ≡ written
unfolding to_hex_string hex_char
writes_lower = refl

swaps_bytes : convert_bo little 4 16909060 ≡ 67305985
unfolding convert_bo to_memory of_memory le_bytes of_le
swaps_bytes = refl

hex_decode-to_hex_string_example : hex_decode (to_hex_string (127 ∷ 10 ∷ [])) ≡ ok (127 ∷ 10 ∷ [])
hex_decode-to_hex_string_example =
    hex_decode-to_hex_string (127 ∷ 10 ∷ []) (omega arith, (omega arith, tt))

to_hex_string-hex_decode_example :
    (bs : List ℕ) × (hex_decode written ≡ ok bs) × (to_hex_string bs ≡ written) × AllBytes bs
unfolding is_lower_hex
to_hex_string-hex_decode_example = to_hex_string-hex_decode written refl refl

to_memory-convert_bo_example :
    to_memory little 4 (convert_bo little 4 16909060) ≡ network_bytes 4 16909060
to_memory-convert_bo_example = to_memory-convert_bo little 4 16909060

convert_bo_involutive_example : convert_bo little 2 (convert_bo little 2 258) ≡ 258
convert_bo_involutive_example = convert_bo_involutive little 2 258 (omega arith)
