-- ===== src/Strip.antt =====
-- deps/string_utils.c: `lua_f_strip`, which removes the tags of a text.
pub mod Laws
mod Tests
use alilua.Prelude.{
  ℕ, Bool, true, false, not, Option, none, some, [], ◌∷◌, Bytes, ◌==◌, ◌||◌, ◌&&◌, if◌then◌else◌,
}

-- `quot` is 0 or the quote that is open, `needle` is 0 or `<`, and `prev` is `str[tail - 1]`.
pub record Scan : Type 0 where
  pub quot : ℕ
  pub needle : ℕ
  pub prev : Option ℕ

-- `tail && str[tail - 1] != C_BSLASH`
abbrev pub unescaped : Option ℕ → Bool
unescaped none = false
unescaped (some p) = not (p == b'\\')

-- The switch. The flag is the `continue` of the case for `>`.
pub scan_byte : Scan → ℕ → Scan × Bool
scan_byte s c =
    if c == b'<'
    then (if s.quot == 0 then record s { needle = c } else s, false)
    else if c == b'>'
    then (record s { needle = 0 }, not (s.needle == 0))
    else if (c == b'"' || c == b'\'') && (s.needle == 0 && unescaped s.prev)
    then (
      (if s.quot == 0
          then record s { quot = c }
          else if s.quot == c
          then record s { quot = 0 }
          else s),
      false,
    )
    else (s, false)

-- The loop over `str[tail]`, from `tail` on: what is written to `chaser`.
pub strip_from : Scan → Bytes → Bytes
strip_from s [] = []
strip_from s (c ∷ cs) =
    let (s', skipped) = scan_byte s c in
    let rest = strip_from (record s' { prev = some c }) cs in
    if not skipped && s'.needle == 0 then c ∷ rest else rest

abbrev pub start : Scan
start = record { quot = 0; needle = 0; prev = none }

-- For a string argument; for any other, nothing is returned.
pub lua_f_strip : Option Bytes → Option Bytes
lua_f_strip none = none
lua_f_strip (some str) = some (strip_from start str)
