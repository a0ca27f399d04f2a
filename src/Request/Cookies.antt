-- ===== src/Request/Cookies.antt =====
-- src/worker.c: the loop of `worker_process` that makes the table `_COOKIE`.
use alilua.Prelude.{
  ℕ, zero, suc, ◌+◌, ◌<◌, ◌≡◌, refl, ap, Bool, true, false, Option, none, some, List, [], ◌∷◌, ◌++◌,
  Bytes, length, arith, All,
}
use alilua.CString.{cut, strtok, saved, skip_space}
use alilua.CString.Laws.{Without, cut_all, strtok-append, strtok_all}
use alilua.Request.Printed.{Without-append}

-- `urldecode` of the coevent library, on a whole text.
module _ (urldecode : Bytes → Bytes) where
  -- One cookie: the call of `lua_setfield`, if there is one. It takes the name up to its first byte 0.
  pub cookie : Bytes → List (Bytes × Bytes)
  cookie text = elim (strtok b'=' text) [
    | none ↦ []
    | some (t2, behind) ↦ elim (strtok b'=' (saved behind)) [
      | none ↦ []
      | some (t3, more) ↦ (skip_space (cut 0 (urldecode t2)).0, urldecode t3) ∷ []
    ]
  ]

  -- The loop; `none` where the fuel ran out.
  pub read_cookies : ℕ → Bytes → Option (List (Bytes × Bytes))
  read_cookies zero cookies = none
  read_cookies (suc fuel) cookies = elim (strtok b';' cookies) [
    | none ↦ some []
    | some (t1, behind) ↦ elim (read_cookies fuel (saved behind)) [
      | none ↦ none
      | some found ↦ some (cookie t1 ++ found)
    ]
  ]

abbrev pub pair_text : Bytes × Bytes → Bytes
pair_text (name, value) = name ++ b'=' ∷ value

-- The header that a client sends, as in RFC 6265.
abbrev pub print_cookies : List (Bytes × Bytes) → Bytes
print_cookies [] = []
print_cookies (c ∷ []) = pair_text c
print_cookies (c ∷ d ∷ ds) = pair_text c ++ b';' ∷ b' ' ∷ print_cookies (d ∷ ds)

abbrev leading : Bool → Bytes → Bytes
leading false t = t
leading true t = b' ' ∷ t

module _ (urldecode : Bytes → Bytes)
    (urldecode_space : (t : Bytes) → urldecode (b' ' ∷ t) ≡ b' ' ∷ urldecode t) where
  abbrev pub IsCookie : Bytes × Bytes → Type 0
  IsCookie (name, value) =
      (0 < length name)
      × Without b';' name
      × Without b'=' name
      × (skip_space (urldecode name) ≡ urldecode name)
      × Without 0 (urldecode name)
      × (0 < length value)
      × Without b';' value
      × Without b'=' value

  abbrev pub decoded : List (Bytes × Bytes) → List (Bytes × Bytes)
  decoded [] = []
  decoded ((name, value) ∷ cs) = (urldecode name, urldecode value) ∷ decoded cs

  cookie-leading :
      (b : Bool) (name value : Bytes)
      → IsCookie (name, value)
      → cookie urldecode (leading b (pair_text (name, value)))
        ≡ (urldecode name, urldecode value) ∷ []
  unfolding cookie
  cookie-leading false name value (p, s, e, k, z, v, vs, ve) =
      rw
        (
          strtok-append b'=' name value p e,
          cookie,
          strtok_all b'=' value v ve,
          ap (λ (x : Bytes × Option Bytes). x.0) (cut_all 0 (urldecode name) z),
          k,
        )
        refl
  cookie-leading true name value (p, s, e, k, z, v, vs, ve) =
      rw
        (
          strtok-append b'=' (b' ' ∷ name) value (omega arith) (omega arith, e),
          cookie,
          strtok_all b'=' value v ve,
          urldecode_space name,
          ap (λ (x : Bytes × Option Bytes). x.0)
              (cut_all 0 (b' ' ∷ urldecode name) (omega arith, z)),
        )
        refl

  leading-Without :
      (b : Bool) (c : Bytes × Bytes)
      → IsCookie c
      → (0 < length (leading b (pair_text c))) × Without b';' (leading b (pair_text c))
  leading-Without false ([], value) (p, s, e, k, z, v, vs, ve) = absurd (omega arith)
  leading-Without false (x ∷ xs, value) (p, s, e, k, z, v, vs, ve) =
      (omega arith, Without-append b';' (x ∷ xs) (b'=' ∷ value) s (omega arith, vs))
  leading-Without true (name, value) (p, s, e, k, z, v, vs, ve) =
      (omega arith, (omega arith, Without-append b';' name (b'=' ∷ value) s (omega arith, vs)))

  read_cookies-step :
      (fuel : ℕ) (text t : Bytes) (behind : Option Bytes) (c found : List (Bytes × Bytes))
      → strtok b';' text ≡ some (t, behind)
      → cookie urldecode t ≡ c
      → read_cookies urldecode fuel (saved behind) ≡ some found
      → read_cookies urldecode (suc fuel) text ≡ some (c ++ found)
  unfolding read_cookies
  read_cookies-step fuel text t behind c found e d g = rw (e, read_cookies, g, d) refl

  leading-append : (b : Bool) (s t : Bytes) → leading b (s ++ t) ≡ leading b s ++ t
  leading-append true s t = refl
  leading-append false s t = refl

  read_cookies-leading :
      (fuel : ℕ) (b : Bool) (c : Bytes × Bytes) (cs : List (Bytes × Bytes))
      → All IsCookie (c ∷ cs)
      → length cs + 1 < fuel
      → read_cookies urldecode fuel (leading b (print_cookies (c ∷ cs))) ≡ some (decoded (c ∷ cs))
  read_cookies-leading zero b c cs h lt = absurd (omega arith)
  read_cookies-leading (suc zero) b c cs h lt = absurd (omega arith)
  read_cookies-leading (suc (suc fuel)) b c [] (h, k) lt =
      let (p, w) = leading-Without b c h in
      read_cookies-step (suc fuel) (leading b (pair_text c)) (leading b (pair_text c)) none
        ((urldecode c.0, urldecode c.1) ∷ []) [] (strtok_all b';' (leading b (pair_text c)) p w)
        (cookie-leading b c.0 c.1 h) (unfold read_cookies strtok in refl)
  read_cookies-leading (suc (suc fuel)) b c (d ∷ ds) (h, k) lt =
      let (p, w) = leading-Without b c h in
      read_cookies-step (suc fuel) (leading b (print_cookies (c ∷ d ∷ ds)))
        (leading b (pair_text c)) (some (b' ' ∷ print_cookies (d ∷ ds)))
        ((urldecode c.0, urldecode c.1) ∷ []) (decoded (d ∷ ds))
        (rw (leading-append b (pair_text c) (b';' ∷ b' ' ∷ print_cookies (d ∷ ds)))
          (strtok-append b';' (leading b (pair_text c)) (b' ' ∷ print_cookies (d ∷ ds)) p w))
        (cookie-leading b c.0 c.1 h) (read_cookies-leading (suc fuel) true d ds k (omega arith))

  -- The cookies that a client sends, as in RFC 6265, are set one after another under their decoded
  -- names and values, where no name or value is empty or has a `;` or a `=`, no name begins with a
  -- space or has a byte 0 when it is decoded, and the fuel is more than the number of cookies and one.
  pub read_cookies-print_cookies :
      (fuel : ℕ) (cs : List (Bytes × Bytes))
      → All IsCookie cs
      → length cs + 1 < fuel
      → read_cookies urldecode fuel (print_cookies cs) ≡ some (decoded cs)
  read_cookies-print_cookies zero [] h lt = absurd (omega arith)
  read_cookies-print_cookies (suc fuel) [] h lt = unfold read_cookies strtok in refl
  read_cookies-print_cookies fuel (c ∷ cs) h lt =
      read_cookies-leading fuel false c cs h (omega arith)
