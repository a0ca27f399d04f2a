-- ===== src/Base64/RoundTrip.antt =====
-- Decoding undoes encoding. The encoder's output is the letters of a list of sextets, and padding.
use mathlib.Core.List.{map}
use alilua.Prelude.{
  ℕ, ◌+◌, ◌*◌, ◌/◌, ◌%◌, ◌<◌, ◌≡◌, ◌≢◌, refl, ◌∙◌, ap, some, [], ◌∷◌, ◌++◌, Bytes, arith, take,
  length, All, IsByte,
}
use alilua.Base64.{
  digit, base64encode, scan, decode_groups, base64_decode_internal, base64decode, digit_value,
}
use alilua.Base64.Bits.{
  high_six, low_two, low_four, low_six, second_sextet, third_sextet, first_byte, second_byte,
  third_byte, decode-digit, digit-ne-pad,
}

-- The six-bit groups of a byte string, in plain arithmetic.
abbrev pub sextets : Bytes → Bytes
sextets (a ∷ b ∷ c ∷ rest) =
    a / 4 ∷ (a % 4 * 16 + b / 16) ∷ (b % 16 * 4 + c / 64) ∷ c % 64 ∷ sextets rest
sextets (a ∷ b ∷ []) = a / 4 ∷ (a % 4 * 16 + b / 16) ∷ b % 16 * 4 ∷ []
sextets (a ∷ []) = a / 4 ∷ a % 4 * 16 ∷ []
sextets [] = []

abbrev pub padding : Bytes → Bytes
padding (a ∷ b ∷ c ∷ rest) = padding rest
padding (a ∷ b ∷ []) = b'=' ∷ []
padding (a ∷ []) = b'=' ∷ b'=' ∷ []
padding [] = []

abbrev IsSextet : ℕ → Type 0
IsSextet i = i < 64

sextets-IsSextet : (xs : Bytes) → All IsByte xs → All IsSextet (sextets xs)
sextets-IsSextet (a ∷ b ∷ c ∷ rest) h =
    let later = sextets-IsSextet rest h.1.1.1 in
    (omega arith, (omega arith, (omega arith, (omega arith, later))))
sextets-IsSextet (a ∷ b ∷ []) h = omega arith
sextets-IsSextet (a ∷ []) h = omega arith
sextets-IsSextet [] h = tt

-- What the bit operations of `base64encode` compute.
pub base64encode-sextets :
    (xs : Bytes) → All IsByte xs → base64encode xs ≡ map digit (sextets xs) ++ padding xs
unfolding base64encode
base64encode-sextets (a ∷ b ∷ c ∷ rest) (ha, (hb, (hc, hr))) =
    rw
      (
        high_six a ha,
        second_sextet a b ha hb,
        third_sextet b c hb hc,
        low_six c hc,
        base64encode-sextets rest hr,
      )
      refl
base64encode-sextets (a ∷ b ∷ []) (ha, (hb, _)) =
    rw (high_six a ha, second_sextet a b ha hb, low_four b hb) refl
base64encode-sextets (a ∷ []) (ha, _) = rw (high_six a ha, low_two a ha) refl
base64encode-sextets [] h = refl

-- The scan passes over letters, and stops at the padding.
scan-padding : (xs : Bytes) (n : ℕ) → scan digit_value (padding xs) n ≡ some n
unfolding scan
scan-padding (a ∷ b ∷ c ∷ rest) n = scan-padding rest n
scan-padding (a ∷ b ∷ []) n = refl
scan-padding (a ∷ []) n = refl
scan-padding [] n = refl

scan-digits :
    (s : Bytes) (n : ℕ) (xs : Bytes)
    → All IsSextet s
    → scan digit_value (map digit s ++ padding xs) n ≡ some (n + length s)
unfolding scan
scan-digits [] n xs h = scan-padding xs n ∙ ap some (omega arith)
scan-digits (i ∷ s) n xs (hi, hs) =
    ground (arith, digit-ne-pad i hi, decode-digit i hi, scan-digits s (n + 1) xs hs)

take-letters : (s p : Bytes) → take (length s) (map digit s ++ p) ≡ map digit s
take-letters [] p = refl
take-letters (i ∷ s) p = ap (◌∷◌ (digit i)) (take-letters s p)

length-sextets : (xs : Bytes) → length (sextets xs) % 4 ≢ 1
length-sextets (a ∷ b ∷ c ∷ rest) = omega (arith, length-sextets rest)
length-sextets (a ∷ b ∷ []) = omega arith
length-sextets (a ∷ []) = omega arith
length-sextets [] = omega arith

decode_groups-sextets :
    (xs : Bytes) → All IsByte xs → decode_groups digit_value (map digit (sextets xs)) ≡ xs
unfolding decode_groups
decode_groups-sextets (a ∷ b ∷ c ∷ rest) (ha, (hb, (hc, hr))) = ground (
  arith,
  first_byte (a / 4) (a % 4 * 16 + b / 16) (omega arith) (omega arith),
  second_byte (a % 4 * 16 + b / 16) (b % 16 * 4 + c / 64) (omega arith) (omega arith),
  third_byte (b % 16 * 4 + c / 64) (c % 64) (omega arith) (omega arith),
  decode_groups-sextets rest hr,
)
decode_groups-sextets (a ∷ b ∷ []) (ha, (hb, _)) = ground (
  arith,
  first_byte (a / 4) (a % 4 * 16 + b / 16) (omega arith) (omega arith),
  second_byte (a % 4 * 16 + b / 16) (b % 16 * 4) (omega arith) (omega arith),
)
decode_groups-sextets (a ∷ []) (ha, _) =
    ground (arith, first_byte (a / 4) (a % 4 * 16) (omega arith) (omega arith))
decode_groups-sextets [] h = refl

-- Decoding the text that a list of bytes was encoded to gives the bytes back, whatever their number.
pub base64decode-base64encode : (xs : Bytes) → All IsByte xs → base64decode (base64encode xs) ≡ xs
unfolding base64decode base64_decode_internal
base64decode-base64encode xs h =
    rw
      (
        base64encode-sextets xs h,
        base64_decode_internal,
        scan-digits (sextets xs) 0 xs (sextets-IsSextet xs h),
      )
      (ground (arith, length-sextets xs, letters, decode_groups-sextets xs h))
  where
    letters : take (length (sextets xs)) (base64encode xs) ≡ map digit (sextets xs)
    letters = rw (base64encode-sextets xs h) (take-letters (sextets xs) (padding xs))
