-- ===== src/Request/Noted.antt =====
-- What one header changes of a request, and what it keeps.
use alilua.Prelude.{
  ℕ, ◌≡◌, refl, sym, ap, ◌∙◌, Bool, true, false, Option, none, some, List, [], ◌∷◌, ◌++◌, Bytes,
  codes, length, ◌&&◌, if◌then◌else◌, arith, Option-cases, inl, inr, if_ind, if_false,
}
use alilua.CString.{cut, str_eq, to_lower, map_bytes}
use alilua.CString.Laws.{str_eq-≡}
use alilua.Request.{Request, is_none, note_type, note_other, note_header}
use alilua.Request.Printed.{Header}

-- The value of the first header with a name.
abbrev pub first_value : Bytes → List Header → Option Bytes
first_value key [] = none
first_value key ((name, value) ∷ hs) =
    if str_eq (map_bytes to_lower name) key then some value else first_value key hs

abbrev pub lower_names : List Header → List Header
lower_names [] = []
lower_names ((name, value) ∷ hs) = (map_bytes to_lower name, value) ∷ lower_names hs

abbrev pub without_port : Option Bytes → Option Bytes
without_port none = none
without_port (some v) = some (cut b':' v).0

abbrev pub or_first : Option Bytes → Option Bytes → Option Bytes
or_first (some v) o = some v
or_first none o = o

other_key :
    (key : Bytes) → str_eq key (codes "content-type") ≡ true → str_eq key (codes "cookie") ≡ false
other_key key e = ap (λ k. str_eq k (codes "cookie")) (str_eq-≡ key (codes "content-type") e)

host_key :
    (key : Bytes) (a b : Bool)
    → a ≡ str_eq key (codes "host")
    → (a && b) ≡ true
    → str_eq key (codes "cookie") ≡ false
host_key key true b d e = ap (λ k. str_eq k (codes "cookie")) (str_eq-≡ key (codes "host") (sym d))
host_key key false b d e = absurd (ground arith)

-- What a header leaves as it is.
abbrev Keeps : Request → Request → Type 0
Keeps r x =
    (x.fields ≡ r.fields)
    × (x.host ≡ r.host)
    × (x.method ≡ r.method)
    × (x.uri ≡ r.uri)
    × (x.query ≡ r.query)
    × (x.http_ver ≡ r.http_ver)

-- The request with the field that each header sets.
abbrev added : Request → Bytes → Bytes → Request
added r key v = record r { fields = r.fields ++ (key, v) ∷ [] }

module _ (stristr : Bytes → Bytes → ℕ → Option ℕ) where
  -- The content type changes none of these.
  note_type-Keeps :
      (r : Request) (v : Bytes)
      → Keeps r (note_type stristr r v) × ((note_type stristr r v).cookies ≡ r.cookies)
  unfolding note_type
  note_type-Keeps r v = elim (Option-cases (stristr v (codes "x-www-form-urlencoded") (length v))) [
    | inr (i, e) ↦ rw (e, note_type) (((refl, refl, refl, refl, refl, refl), refl))
    | inl e ↦ elim (Option-cases (stristr v (codes "multipart/form-data") (length v))) [
      | inl d ↦ rw (e, note_type, d) (((refl, refl, refl, refl, refl, refl), refl))
      | inr (i, d) ↦ rw (e, note_type, d) (((refl, refl, refl, refl, refl, refl), refl))
    ]
  ]

  note_other-Keeps : (r : Request) (key v : Bytes) → Keeps r (note_other stristr r key v)
  unfolding note_other
  note_other-Keeps r key v =
      if_ind (Keeps r) (str_eq key (codes "content-type")) (λ e. (note_type-Keeps r v).0)
        (λ e.
          if_ind (Keeps r) (str_eq key (codes "cookie") && is_none r.cookies)
            (λ e. (refl, refl, refl, refl, refl, refl))
            (λ e.
              if_ind (Keeps r) (str_eq key (codes "user-agent") && is_none r.user_agent)
                (λ e. (refl, refl, refl, refl, refl, refl))
                (λ e.
                  if_ind (Keeps r) (str_eq key (codes "referer") && is_none r.referer)
                    (λ e. (refl, refl, refl, refl, refl, refl))
                    (λ e.
                      if_ind (Keeps r)
                        (str_eq key (codes "if-modified-since") && is_none r.if_modified_since)
                        (λ e. (refl, refl, refl, refl, refl, refl))
                        (λ e. (refl, refl, refl, refl, refl, refl))))))

  pub note_header-fields :
      (r : Request) (key v : Bytes)
      → (note_header stristr r key (b' ' ∷ v)).fields ≡ r.fields ++ (key, v) ∷ []
  unfolding note_header
  note_header-fields r key v =
      let (f, h, m, u, q, w) = note_other-Keeps (added r key v) key (b' ' ∷ v) in
      if_ind (λ (x : Request). x.fields ≡ r.fields ++ (key, v) ∷ [])
        (str_eq key (codes "host") && is_none r.host) (λ e. refl) (λ e. f)

  or_first-skipped :
      (o : Option Bytes) (b : Bool) (w : Option Bytes)
      → (b && is_none o) ≡ false
      → o ≡ (if b then or_first o w else o)
  or_first-skipped none true w h = absurd (ground arith)
  or_first-skipped none false w h = refl
  or_first-skipped (some x) true w h = refl
  or_first-skipped (some x) false w h = refl

  or_first-taken :
      (o : Option Bytes) (b : Bool) (w : Option Bytes)
      → (b && is_none o) ≡ true
      → w ≡ (if b then or_first o w else o)
  or_first-taken none true w h = refl
  or_first-taken none false w h = absurd (ground arith)
  or_first-taken (some x) true w h = absurd (ground arith)
  or_first-taken (some x) false w h = absurd (ground arith)

  pub note_header-host :
      (r : Request) (key v : Bytes)
      → (note_header stristr r key (b' ' ∷ v)).host
        ≡ (if str_eq key (codes "host") then or_first r.host (some (cut b':' v).0) else r.host)
  unfolding note_header cut
  note_header-host r key v =
      let (f, h, m, u, q, w) = note_other-Keeps (added r key v) key (b' ' ∷ v) in
      if_ind
        (λ (x : Request).
          x.host
          ≡ (if str_eq key (codes "host") then or_first r.host (some (cut b':' v).0) else r.host))
        (str_eq key (codes "host") && is_none r.host)
        (λ e. or_first-taken r.host (str_eq key (codes "host")) (some (cut b':' v).0) e)
        (λ e. h ∙ or_first-skipped r.host (str_eq key (codes "host")) (some (cut b':' v).0) e)

  -- The branches behind that of the content type.
  note_other-cookies :
      (r : Request) (key v : Bytes)
      → (note_other stristr r key (b' ' ∷ v)).cookies
        ≡ (if str_eq key (codes "cookie") then or_first r.cookies (some v) else r.cookies)
  unfolding note_other
  note_other-cookies r key v =
      let wanted = if str_eq key (codes "cookie") then or_first r.cookies (some v) else r.cookies in
      let P = λ (x : Request). x.cookies ≡ wanted in
      if_ind P (str_eq key (codes "content-type"))
        (λ e.
          (note_type-Keeps r (b' ' ∷ v)).1
          ∙ sym (if_false (str_eq key (codes "cookie")) _ (other_key key e)))
        (λ e.
          if_ind P (str_eq key (codes "cookie") && is_none r.cookies)
            (λ e. or_first-taken r.cookies (str_eq key (codes "cookie")) (some v) e)
            (λ e.
              let kept = or_first-skipped r.cookies (str_eq key (codes "cookie")) (some v) e in
              if_ind P (str_eq key (codes "user-agent") && is_none r.user_agent) (λ e. kept)
                (λ e.
                  if_ind P (str_eq key (codes "referer") && is_none r.referer) (λ e. kept)
                    (λ e.
                      if_ind P
                        (str_eq key (codes "if-modified-since") && is_none r.if_modified_since)
                        (λ e. kept) (λ e. kept)))))

  pub note_header-cookies :
      (r : Request) (key v : Bytes)
      → (note_header stristr r key (b' ' ∷ v)).cookies
        ≡ (if str_eq key (codes "cookie") then or_first r.cookies (some v) else r.cookies)
  unfolding note_header
  note_header-cookies r key v =
      if_ind
        (λ (x : Request).
          x.cookies
          ≡ (if str_eq key (codes "cookie") then or_first r.cookies (some v) else r.cookies))
        (str_eq key (codes "host") && is_none r.host)
        (λ e. sym (
          if_false (str_eq key (codes "cookie")) _
            (host_key key (str_eq key (codes "host")) (is_none r.host) refl e)))
        (λ e. note_other-cookies (added r key v) key v)

  pub note_header-first :
      (r : Request) (key v : Bytes)
      → ((note_header stristr r key (b' ' ∷ v)).method ≡ r.method)
        × ((note_header stristr r key (b' ' ∷ v)).uri ≡ r.uri)
        × ((note_header stristr r key (b' ' ∷ v)).query ≡ r.query)
        × ((note_header stristr r key (b' ' ∷ v)).http_ver ≡ r.http_ver)
  unfolding note_header
  note_header-first r key v =
      let (f, h, m, u, q, w) = note_other-Keeps (added r key v) key (b' ' ∷ v) in
      if_ind
        (λ (x : Request).
          (x.method ≡ r.method) × (x.uri ≡ r.uri) × (x.query ≡ r.query) × (x.http_ver ≡ r.http_ver))
        (str_eq key (codes "host") && is_none r.host) (λ e. (refl, refl, refl, refl))
        (λ e. (m, u, q, w))
