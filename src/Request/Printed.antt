-- ===== src/Request/Printed.antt =====
-- What is read of a head in the form that RFC 7230 gives it.
use alilua.Prelude.{
  ℕ, zero, suc, ◌<◌, ◌≡◌, ◌≢◌, refl, ap, ◌∙◌, false, Option, some, List, [], ◌∷◌, ◌++◌, Bytes,
  length, get_or, ltb, ◌==◌, arith, All,
}
use alilua.CString.{cut, strtok, to_lower, map_bytes}
use alilua.CString.Laws.{Without, strtok-append, drop_cr-append}
use alilua.Request.{Request, note_header, value_of, left_to_read, header_line, read_lines}

-- A header's name and value.
abbrev pub Header : Type 0
Header = Bytes × Bytes

abbrev pub header_text : Header → Bytes
header_text (name, value) = name ++ (b':' ∷ b' ' ∷ (value ++ b'\r' ∷ []))

-- The headers and the empty line, whose newline the code has replaced by the end of the text.
abbrev pub print_headers : List Header → Bytes
print_headers [] = b'\r' ∷ []
print_headers (h ∷ hs) = header_text h ++ b'\n' ∷ print_headers hs

-- A name has no colon and does not begin with a carriage return.
abbrev pub IsHeader : Header → Type 0
IsHeader (name, value) =
    (0 < length name)
    × Without b':' name
    × Without b'\n' name
    × (get_or name 0 0 ≢ b'\r')
    × Without b'\n' value

pub Without-append : (d : ℕ) (xs ys : Bytes) → Without d xs → Without d ys → Without d (xs ++ ys)
Without-append d [] ys hx hy = hy
Without-append d (x ∷ xs) ys (h, hx) hy = (h, Without-append d xs ys hx hy)

header_text-Without : (h : Header) → IsHeader h → Without b'\n' (header_text h)
header_text-Without (name, value) (p, c, n, r, v) =
    Without-append b'\n' name _ n
      (omega arith, (omega arith, Without-append b'\n' value _ v (omega arith)))

length-header_text : (h : Header) → 0 < length (header_text h)
length-header_text ([], value) = omega arith
length-header_text (c ∷ cs, value) = omega arith

module _ (stristr : Bytes → Bytes → ℕ → Option ℕ) (body : Bytes) where
  -- What the headers set, one after another.
  unfoldable pub noted : Request → List Header → Request
  noted r [] = r
  noted r ((name, value) ∷ hs) =
      noted (note_header stristr r (map_bytes to_lower name) (b' ' ∷ value)) hs

  header_line-header_text :
      (r : Request) (h : Header) (rest : Bytes)
      → IsHeader h
      → header_line stristr body r (header_text h) (some rest)
        ≡ (note_header stristr r (map_bytes to_lower h.0) (b' ' ∷ h.1), some rest)
  unfolding header_line value_of left_to_read
  header_line-header_text r (name, value) rest (p, c, n, cr, v) =
      let other : (get_or name 0 0 == b'\r') ≡ false = ground arith in
      let long : ltb (length (b' ' ∷ value)) 1 ≡ false = ground arith in
      rw
        (
          strtok-append b':' name (b' ' ∷ (value ++ b'\r' ∷ [])) p c,
          header_line,
          other,
          drop_cr-append (b' ' ∷ value),
          long,
        )
        refl

  read_lines-step :
      (fuel : ℕ) (r r' : Request) (text line next : Bytes) (rest : Option Bytes)
      → strtok b'\n' text ≡ some (line, rest)
      → header_line stristr body r line rest ≡ (r', some next)
      → read_lines stristr (suc fuel) body r text ≡ read_lines stristr fuel body r' next
  unfolding read_lines
  read_lines-step fuel r r' text line next rest e d =
      rw (e, read_lines, d) (ap (λ p. read_lines stristr fuel body p.0 next) d)

  pub read_lines-print_headers :
      (fuel : ℕ) (r : Request) (hs : List Header)
      → All IsHeader hs
      → length hs < fuel
      → read_lines stristr fuel body r (print_headers hs) ≡ some (noted r hs)
  unfolding noted read_lines
  read_lines-print_headers zero r hs h lt = absurd (omega arith)
  read_lines-print_headers (suc fuel) r [] h lt = unfold header_line strtok cut in refl
  read_lines-print_headers (suc fuel) r (x ∷ hs) (hx, h) lt =
      read_lines-step fuel r (note_header stristr r (map_bytes to_lower x.0) (b' ' ∷ x.1))
        (print_headers (x ∷ hs)) (header_text x) (print_headers hs) (some (print_headers hs))
        (strtok-append b'\n' (header_text x) (print_headers hs) (length-header_text x)
          (header_text-Without x hx))
        (header_line-header_text r x (print_headers hs) hx)
      ∙ read_lines-print_headers fuel (note_header stristr r (map_bytes to_lower x.0) (b' ' ∷ x.1))
          hs h (omega arith)
