-- ===== src/Base64/Url.antt =====
-- `base64decode_url` against `base64decode`: the two tables differ by a translation of letters.
use mathlib.Core.List.{map}
use alilua.Prelude.{
  ℕ, zero, suc, ◌+◌, ◌<◌, ◌≡◌, refl, ap, inl, inr, [], ◌∷◌, Bytes, arith, take, All, IsByte, ◌==◌,
  ◌||◌, if◌then◌else◌, Option-cases, agree_below, eq_of_agree_below,
}
use alilua.Base64.{
  scan, decode_groups, base64_decode_internal, base64decode, base64decode_url, digit_value,
  url_digit_value,
}

-- `-` and `_` stand for `+` and `/`, which are no letters of the alphabet for URLs.
pub to_standard : ℕ → ℕ
to_standard c =
    if c == b'-' then b'+' else if c == b'_' then b'/' else if c == b'+' || c == b'/' then 0 else c

url_digit_value-to_standard : (c : ℕ) → c < 256 → url_digit_value c ≡ digit_value (to_standard c)
unfolding agree_below url_digit_value digit_value to_standard
url_digit_value-to_standard =
    eq_of_agree_below url_digit_value (λ c. digit_value (to_standard c)) 256 refl

pad-to_standard : (c : ℕ) → (to_standard c == b'=') ≡ (c == b'=')
unfolding to_standard
pad-to_standard c = ground arith

scan-to_standard :
    (s : Bytes) (n : ℕ)
    → All IsByte s
    → scan url_digit_value s n ≡ scan digit_value (map to_standard s) n
unfolding scan
scan-to_standard [] n h = refl
scan-to_standard (c ∷ s) n (hc, hs) =
    rw (pad-to_standard c, url_digit_value-to_standard c hc, scan-to_standard s (n + 1) hs) refl

decode_groups-to_standard :
    (s : Bytes)
    → All IsByte s
    → decode_groups url_digit_value s ≡ decode_groups digit_value (map to_standard s)
unfolding decode_groups
decode_groups-to_standard (p ∷ q ∷ r ∷ s ∷ rest) (hp, (hq, (hr, (hs, h)))) =
    rw
      (
        url_digit_value-to_standard p hp,
        url_digit_value-to_standard q hq,
        url_digit_value-to_standard r hr,
        url_digit_value-to_standard s hs,
        decode_groups-to_standard rest h,
      )
      refl
decode_groups-to_standard (p ∷ q ∷ r ∷ []) (hp, (hq, (hr, _))) =
    rw
      (
        url_digit_value-to_standard p hp,
        url_digit_value-to_standard q hq,
        url_digit_value-to_standard r hr,
      )
      refl
decode_groups-to_standard (p ∷ q ∷ []) (hp, (hq, _)) =
    rw (url_digit_value-to_standard p hp, url_digit_value-to_standard q hq) refl
decode_groups-to_standard (p ∷ []) h = refl
decode_groups-to_standard [] h = refl

map-take : (f : ℕ → ℕ) (n : ℕ) (s : Bytes) → map f (take n s) ≡ take n (map f s)
map-take f zero s = refl
map-take f (suc n) [] = refl
map-take f (suc n) (c ∷ s) = ap (◌∷◌ (f c)) (map-take f n s)

All-take : (n : ℕ) (s : Bytes) → All IsByte s → All IsByte (take n s)
All-take zero s h = tt
All-take (suc n) [] h = tt
All-take (suc n) (c ∷ s) (hc, hs) = (hc, All-take n s hs)

-- On bytes, the decoder for URLs is the plain decoder after the translation of letters, refusals
-- included.
pub base64decode_url-to_standard :
    (src : Bytes) → All IsByte src → base64decode_url src ≡ base64decode (map to_standard src)
unfolding base64decode_url base64decode base64_decode_internal
base64decode_url-to_standard src h =
    elim (Option-cases (scan digit_value (map to_standard src) 0)) [
      | inl e ↦ rw (base64_decode_internal, scan-to_standard src 0 h, e) refl
      | inr (len, e) ↦
          rw
            (
              base64_decode_internal,
              scan-to_standard src 0 h,
              e,
              ← map-take to_standard len src,
              decode_groups-to_standard (take len src) (All-take len src h),
            )
            refl
    ]
