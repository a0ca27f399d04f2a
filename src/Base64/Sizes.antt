-- ===== src/Base64/Sizes.antt =====
-- The lengths of the results against the sizes of the buffers, and what the decoder refuses.
use alilua.Prelude.{
  ℕ, zero, suc, ◌+◌, ◌*◌, ◌/◌, ◌%◌, ◌≤◌, ◌≡◌, inl, inr, [], ◌∷◌, Bytes, arith, take, length,
  Option-cases,
}
use alilua.Base64.{
  base64encode, scan, decode_groups, base64_decode_internal, base64_encoded_length,
  base64_decoded_length,
}

-- The encoder fills its buffer of `base64_encoded_length` bytes exactly.
pub length-base64encode :
    (xs : Bytes) → length (base64encode xs) ≡ base64_encoded_length (length xs)
unfolding base64encode
length-base64encode (a ∷ b ∷ c ∷ rest) = omega (arith, length-base64encode rest)
length-base64encode (a ∷ b ∷ []) = omega arith
length-base64encode (a ∷ []) = omega arith
length-base64encode [] = omega arith

length-take-le : (n : ℕ) (xs : Bytes) → length (take n xs) ≤ length xs
length-take-le zero xs = omega arith
length-take-le (suc n) [] = omega arith
length-take-le (suc n) (x ∷ xs) = omega (arith, length-take-le n xs)

length-decode_groups :
    (basis : ℕ → ℕ) (xs : Bytes)
    → length (decode_groups basis xs) ≤ length xs / 4 * 3 + length xs % 4
unfolding decode_groups
length-decode_groups basis (p ∷ q ∷ r ∷ s ∷ rest) = omega (arith, length-decode_groups basis rest)
length-decode_groups basis (p ∷ q ∷ r ∷ []) = omega arith
length-decode_groups basis (p ∷ q ∷ []) = omega arith
length-decode_groups basis (p ∷ []) = omega arith
length-decode_groups basis [] = omega arith

-- Whatever the text and the table, the decoder writes at most `base64_decoded_length` bytes.
pub length-base64_decode_internal-le :
    (basis : ℕ → ℕ) (src : Bytes)
    → length (base64_decode_internal basis src) ≤ base64_decoded_length (length src)
unfolding base64_decode_internal
length-base64_decode_internal-le basis src = elim (Option-cases (scan basis src 0)) [
  | inl e ↦ rw (base64_decode_internal, e) (omega arith)
  | inr (len, e) ↦
      rw (base64_decode_internal, e)
        (ground (arith, length-decode_groups basis (take len src), length-take-le len src))
]
