-- ===== src/Base64.antt =====
-- deps/string_utils.c: `base64encode`, `base64_decode_internal` with its two tables, and the
-- functions `lua_f_base64_encode` and `lua_f_base64_decode` that Lua calls. A buffer is the list of
-- its bytes, and the C functions' result `d - dst` is the length of the list that is returned.
mod Tables
mod Bits
pub mod Sizes
pub mod RoundTrip
pub mod Url
mod Tests
use Tables.{basis64, decode_basis, url_basis}
use alilua.Prelude.{
  ℕ, zero, suc, ◌+◌, ◌*◌, ◌/◌, ◌%◌, Bool, Option, none, some, List, [], ◌∷◌, Bytes, bit_and, bit_or,
  get_or, take, length, ◌==◌, if◌then◌else◌,
}

-- `basis64[i]` of `base64encode`.
pub digit : ℕ → ℕ
digit i = get_or basis64 i 0

-- `while(len > 2)` and, for the last one or two bytes, `if(len)`.
pub base64encode : Bytes → Bytes
base64encode (a ∷ b ∷ c ∷ rest) =
    digit (bit_and (a / 4) 0x3f)
    ∷ digit (bit_or (bit_and a 3 * 16) (b / 16))
    ∷ digit (bit_or (bit_and b 0x0f * 4) (c / 64))
    ∷ digit (bit_and c 0x3f)
    ∷ base64encode rest
base64encode (a ∷ b ∷ []) =
    digit (bit_and (a / 4) 0x3f)
    ∷ digit (bit_or (bit_and a 3 * 16) (b / 16))
    ∷ digit (bit_and b 0x0f * 4)
    ∷ b'='
    ∷ []
base64encode (a ∷ []) = digit (bit_and (a / 4) 0x3f) ∷ digit (bit_and a 3 * 16) ∷ b'=' ∷ b'=' ∷ []
base64encode [] = []

module _ (basis : ℕ → ℕ) where
  -- The first loop: the index of the first `=`, or the length; `none` for its `return 0`.
  pub scan : Bytes → ℕ → Option ℕ
  scan [] len = some len
  scan (c ∷ cs) len =
      let rest = scan cs (len + 1) in
      if c == b'=' then some len else if basis c == 77 then none else rest

  -- The second loop and the two `if`s behind it. A result is stored in an unsigned char.
  pub decode_groups : Bytes → Bytes
  decode_groups (p ∷ q ∷ r ∷ s ∷ rest) =
      bit_or (basis p * 4) (basis q / 16) % 256
      ∷ bit_or (basis q * 16) (basis r / 4) % 256
      ∷ bit_or (basis r * 64) (basis s) % 256
      ∷ decode_groups rest
  decode_groups (p ∷ q ∷ r ∷ []) =
      bit_or (basis p * 4) (basis q / 16) % 256 ∷ bit_or (basis q * 16) (basis r / 4) % 256 ∷ []
  decode_groups (p ∷ q ∷ []) = bit_or (basis p * 4) (basis q / 16) % 256 ∷ []
  decode_groups _ = []

  -- Only the first `len` bytes are read after the scan.
  pub base64_decode_internal : Bytes → Bytes
  base64_decode_internal src = elim (scan src 0) [
    | none ↦ []
    | some len ↦ if len % 4 == 1 then [] else decode_groups (take len src)
  ]

-- `basis64[c]` of `base64decode`, and of `base64decode_url`.
pub digit_value : ℕ → ℕ
digit_value c = get_or decode_basis c 0

pub url_digit_value : ℕ → ℕ
url_digit_value c = get_or url_basis c 0

pub base64decode : Bytes → Bytes
base64decode = base64_decode_internal digit_value

pub base64decode_url : Bytes → Bytes
base64decode_url = base64_decode_internal url_digit_value

-- `base64_encoded_length` and `base64_decoded_length`, the sizes of the buffers.
abbrev pub base64_encoded_length : ℕ → ℕ
base64_encoded_length len = (len + 2) / 3 * 4

abbrev pub base64_decoded_length : ℕ → ℕ
base64_decoded_length len = (len + 3) / 4 * 3

-- The argument is `none` for nil.
abbrev source : Option Bytes → Bytes
source none = []
source (some src) = src

pub lua_f_base64_encode : Option Bytes → Bytes
lua_f_base64_encode arg = base64encode (source arg)

pub lua_f_base64_decode : Option Bytes → Bytes
lua_f_base64_decode arg = base64decode (source arg)
