-- ===== src/Base64/Bits.antt =====
-- The bit operations of the coder as arithmetic, and the tables on the sixty-four digits.
use alilua.Prelude.{
  ℕ, ◌+◌, ◌*◌, ◌/◌, ◌%◌, ◌<◌, ◌≡◌, refl, bit_and, bit_or, agree_below, eq_of_agree_below, arith,
  false, ◌==◌, if◌then◌else◌,
}
use alilua.Base64.{digit, digit_value}

pub high_six : (a : ℕ) → a < 256 → bit_and (a / 4) 0x3f ≡ a / 4
unfolding agree_below
high_six = eq_of_agree_below (λ a. bit_and (a / 4) 0x3f) (λ a. a / 4) 256 refl

pub low_two : (a : ℕ) → a < 256 → bit_and a 3 ≡ a % 4
unfolding agree_below
low_two = eq_of_agree_below _ _ 256 refl

pub low_four : (a : ℕ) → a < 256 → bit_and a 0x0f ≡ a % 16
unfolding agree_below
low_four = eq_of_agree_below _ _ 256 refl

pub low_six : (a : ℕ) → a < 256 → bit_and a 0x3f ≡ a % 64
unfolding agree_below
low_six = eq_of_agree_below _ _ 256 refl

-- `(hi << 4) | lo` and its like: the fields do not overlap.
or_16_table : (x : ℕ) → x < 64 * 16 → bit_or (x / 16 * 16) (x % 16) ≡ x
unfolding agree_below
or_16_table = eq_of_agree_below (λ x. bit_or (x / 16 * 16) (x % 16)) (λ x. x) (64 * 16) refl

pub or_16 : (hi lo : ℕ) → hi < 64 → lo < 16 → bit_or (hi * 16) lo ≡ hi * 16 + lo
or_16 hi lo h l = ground (arith, or_16_table (hi * 16 + lo))

or_4_table : (x : ℕ) → x < 64 * 4 → bit_or (x / 4 * 4) (x % 4) ≡ x
unfolding agree_below
or_4_table = eq_of_agree_below (λ x. bit_or (x / 4 * 4) (x % 4)) (λ x. x) (64 * 4) refl

or_64_table : (x : ℕ) → x < 64 * 64 → bit_or (x / 64 * 64) (x % 64) ≡ x
unfolding agree_below
or_64_table = eq_of_agree_below (λ x. bit_or (x / 64 * 64) (x % 64)) (λ x. x) (64 * 64) refl

pub or_4 : (hi lo : ℕ) → hi < 64 → lo < 4 → bit_or (hi * 4) lo ≡ hi * 4 + lo
or_4 hi lo h l = ground (arith, or_4_table (hi * 4 + lo))

pub or_64 : (hi lo : ℕ) → hi < 64 → lo < 64 → bit_or (hi * 64) lo ≡ hi * 64 + lo
or_64 hi lo h l = ground (arith, or_64_table (hi * 64 + lo))

-- Decoding a digit's letter gives the digit.
pub decode-digit : (i : ℕ) → i < 64 → digit_value (digit i) ≡ i
unfolding agree_below digit digit_value
decode-digit = eq_of_agree_below (λ i. digit_value (digit i)) (λ i. i) 64 refl

-- A digit's letter is not `=`.
pad_mark : ℕ → ℕ
pad_mark i = if digit i == b'=' then 1 else 0

pub digit-ne-pad : (i : ℕ) → i < 64 → (digit i == b'=') ≡ false
unfolding agree_below digit pad_mark
digit-ne-pad i h = ground (arith, eq_of_agree_below pad_mark (λ i. 0) 64 refl i h)

-- The second and the third sextet of a group, as the encoder computes them.
pub second_sextet :
    (a b : ℕ) → a < 256 → b < 256 → bit_or (bit_and a 3 * 16) (b / 16) ≡ a % 4 * 16 + b / 16
second_sextet a b ha hb = rw (low_two a ha) (or_16 (a % 4) (b / 16) (omega arith) (omega arith))

pub third_sextet :
    (b c : ℕ) → b < 256 → c < 256 → bit_or (bit_and b 0x0f * 4) (c / 64) ≡ b % 16 * 4 + c / 64
third_sextet b c hb hc = rw (low_four b hb) (or_4 (b % 16) (c / 64) (omega arith) (omega arith))

-- The three bytes of a group, as the decoder joins them from four sextets.
pub first_byte :
    (p q : ℕ)
    → p < 64
    → q < 64
    → bit_or (digit_value (digit p) * 4) (digit_value (digit q) / 16) % 256 ≡ (p * 4 + q / 16) % 256
first_byte p q hp hq =
    rw (decode-digit p hp, decode-digit q hq, or_4 p (q / 16) hp (omega arith)) refl

pub second_byte :
    (q r : ℕ)
    → q < 64
    → r < 64
    → bit_or (digit_value (digit q) * 16) (digit_value (digit r) / 4) % 256 ≡ (q * 16 + r / 4) % 256
second_byte q r hq hr =
    rw (decode-digit q hq, decode-digit r hr, or_16 q (r / 4) hq (omega arith)) refl

pub third_byte :
    (r s : ℕ)
    → r < 64
    → s < 64
    → bit_or (digit_value (digit r) * 64) (digit_value (digit s)) % 256 ≡ (r * 64 + s) % 256
third_byte r s hr hs = rw (decode-digit r hr, decode-digit s hs, or_64 r s hr hs) refl
