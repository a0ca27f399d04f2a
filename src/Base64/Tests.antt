-- ===== src/Base64/Tests.antt =====
-- Runs of the coder, and the theorems at concrete inputs.
use alilua.Prelude.{◌≡◌, refl, none, some, [], ◌∷◌, arith, codes}
use alilua.Base64.{
  digit, base64encode, scan, decode_groups, base64_decode_internal, base64decode, digit_value,
  lua_f_base64_encode, lua_f_base64_decode,
}
use alilua.Base64.RoundTrip.{base64decode-base64encode}

encode_runs : lua_f_base64_encode (some (codes "light work.")) ≡ codes "bGlnaHQgd29yay4="
unfolding lua_f_base64_encode base64encode digit
encode_runs = refl

decode_runs : lua_f_base64_decode (some (codes "bGlnaHQgd29yaw==")) ≡ codes "light work"
unfolding lua_f_base64_decode base64decode base64_decode_internal scan decode_groups digit_value
decode_runs = refl

decode_refuses : lua_f_base64_decode (some (codes "bGl*aHQ=")) ≡ []
unfolding lua_f_base64_decode base64decode base64_decode_internal scan decode_groups digit_value
decode_refuses = refl

nil_runs : lua_f_base64_decode none ≡ lua_f_base64_encode none
unfolding lua_f_base64_decode lua_f_base64_encode base64encode base64decode base64_decode_internal
    scan decode_groups
nil_runs = refl

base64decode-base64encode_example :
    base64decode (base64encode (0 ∷ 255 ∷ 16 ∷ 131 ∷ [])) ≡ 0 ∷ 255 ∷ 16 ∷ 131 ∷ []
base64decode-base64encode_example =
    base64decode-base64encode (0 ∷ 255 ∷ 16 ∷ 131 ∷ []) (omega arith)
