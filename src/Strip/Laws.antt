-- ===== src/Strip/Laws.antt =====
-- What `lua_f_strip` keeps and what it removes.
use alilua.Prelude.{
  ℕ, ◌≤◌, ◌≡◌, ◌≢◌, refl, ap, ◌∙◌, false, some, List, [], ◌∷◌, ◌++◌, Bytes, length, arith, All,
}
use alilua.Strip.{Scan, scan_byte, strip_from, start, lua_f_strip}

-- The output is never longer than the text.
pub length-strip_from : (s : Scan) (cs : Bytes) → length (strip_from s cs) ≤ length cs
unfolding strip_from
length-strip_from s [] = omega arith
length-strip_from s (c ∷ cs) =
    let s' : Scan = record ((scan_byte s c).0) { prev = some c } in
    ground (arith, length-strip_from s' cs)

abbrev pub NoLt : ℕ → Type 0
NoLt c = c ≢ b'<'

scan_byte-NoLt :
    (s : Scan) (c : ℕ)
    → s.needle ≡ 0
    → NoLt c
    → ((scan_byte s c).0.needle ≡ 0) × ((scan_byte s c).1 ≡ false)
unfolding scan_byte
scan_byte-NoLt s c h hc = ground arith

strip_from-NoLt : (s : Scan) (cs : Bytes) → s.needle ≡ 0 → All NoLt cs → strip_from s cs ≡ cs
unfolding strip_from
strip_from-NoLt s [] h k = refl
strip_from-NoLt s (c ∷ cs) h (hc, k) =
    let (needle, kept) = scan_byte-NoLt s c h hc in
    let s' : Scan = record ((scan_byte s c).0) { prev = some c } in
    ground (arith, strip_from-NoLt s' cs needle k)

-- Inside a tag no byte but `>` counts, quotes included.
scan_byte_inside : (s : Scan) (c : ℕ) → s.needle ≡ b'<' → c ≢ b'>' → (scan_byte s c).0 ≡ s
unfolding scan_byte
scan_byte_inside s c h hc = ground arith

strip_from_inside :
    (s : Scan) (body rest : Bytes)
    → s.needle ≡ b'<'
    → All (λ c. c ≢ b'>') body
    → strip_from s (body ++ b'>' ∷ rest)
      ≡ strip_from (record s { needle = 0; prev = some b'>' }) rest
unfolding strip_from
strip_from_inside s [] rest h k = unfold scan_byte in ground arith
strip_from_inside s (c ∷ body) rest h (hc, k) =
    let s' : Scan = record ((scan_byte s c).0) { prev = some c } in
    ground (
      arith,
      scan_byte_inside s c h hc,
      strip_from_inside s' body rest (ground (arith, scan_byte_inside s c h hc)) k,
    )

-- Outside quotes, a tag is removed from its `<` to the first `>`: the rest is read as if the tag
-- had not been there, but for the byte that stands before it.
pub strip_from_tag :
    (s : Scan) (body rest : Bytes)
    → s.quot ≡ 0
    → s.needle ≡ 0
    → All (λ c. c ≢ b'>') body
    → strip_from s (b'<' ∷ (body ++ b'>' ∷ rest)) ≡ strip_from (record s { prev = some b'>' }) rest
unfolding strip_from
strip_from_tag s body rest q n k =
    unfold scan_byte in
    ground
      (arith, strip_from_inside (record s { needle = b'<'; prev = some b'<' }) body rest refl k)

-- A text with no `<` is returned as it is.
pub lua_f_strip-NoLt : (str : Bytes) → All NoLt str → lua_f_strip (some str) ≡ some str
unfolding lua_f_strip
lua_f_strip-NoLt str h = ap some (strip_from-NoLt start str refl h)

-- Text outside tags that opens no tag and no quote.
pub record IsText (c : ℕ) : Type 0 where
  pub no_lt : c ≢ b'<'
  pub no_quot : c ≢ b'"'
  pub no_apos : c ≢ b'\''

-- Neither a tag nor a quote is open.
abbrev IsOutside : Scan → Type 0
IsOutside s = (s.quot ≡ 0) × (s.needle ≡ 0)

scan_byte-IsText :
    (s : Scan) (c : ℕ)
    → IsOutside s
    → IsText c
    → IsOutside (scan_byte s c).0 × ((scan_byte s c).1 ≡ false)
unfolding scan_byte
scan_byte-IsText s c h hc = ground arith

strip_from-IsText :
    (s : Scan) (text cs out : Bytes)
    → ((s' : Scan) → IsOutside s' → strip_from s' cs ≡ out)
    → IsOutside s
    → All IsText text
    → strip_from s (text ++ cs) ≡ text ++ out
unfolding strip_from
strip_from-IsText s [] cs out later h k = later s h
strip_from-IsText s (c ∷ text) cs out later h (hc, k) =
    let (outside, kept) = scan_byte-IsText s c h hc in
    let s' : Scan = record ((scan_byte s c).0) { prev = some c } in
    ground (arith, strip_from-IsText s' text cs out later outside k)

-- A document: each piece is what stands between `<` and `>`, and the text behind it.
abbrev pub markup : List (Bytes × Bytes) → Bytes
markup [] = []
markup ((tag, text) ∷ rest) = b'<' ∷ (tag ++ b'>' ∷ (text ++ markup rest))

abbrev pub texts : List (Bytes × Bytes) → Bytes
texts [] = []
texts ((tag, text) ∷ rest) = text ++ texts rest

abbrev pub IsPiece : Bytes × Bytes → Type 0
IsPiece (tag, text) = All (λ c. c ≢ b'>') tag × All IsText text

strip_from-markup :
    (pieces : List (Bytes × Bytes)) (s : Scan)
    → All IsPiece pieces
    → IsOutside s
    → strip_from s (markup pieces) ≡ texts pieces
unfolding strip_from
strip_from-markup [] s h k = refl
strip_from-markup ((tag, text) ∷ rest) s ((ht, hx), h) (q, n) =
    strip_from_tag s tag (text ++ markup rest) q n ht
    ∙ strip_from-IsText (record s { prev = some b'>' }) text (markup rest) (texts rest)
        (λ s' k. strip_from-markup rest s' h k) (q, n) hx

-- From a document of tags and of texts without `<` and quotes, what is left is the texts in order,
-- whatever the tags hold but `>`.
pub lua_f_strip-markup :
    (front : Bytes) (pieces : List (Bytes × Bytes))
    → All IsText front
    → All IsPiece pieces
    → lua_f_strip (some (front ++ markup pieces)) ≡ some (front ++ texts pieces)
unfolding lua_f_strip
lua_f_strip-markup front pieces h k = ap some (
    strip_from-IsText start front (markup pieces) (texts pieces)
      (λ s outside. strip_from-markup pieces s k outside) (refl, refl) h)
