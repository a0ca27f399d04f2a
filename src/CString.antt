-- ===== src/CString.antt =====
-- The functions of C's <string.h>, <ctype.h> and <stdlib.h> that the modelled code calls, on texts
-- that end before their first NUL.
pub mod Laws
use alilua.Prelude.{
  ℕ, zero, suc, ◌+◌, ◌-◌, ◌*◌, Bool, true, false, Option, none, some, List, [], ◌∷◌, ◌++◌, Bytes,
  ltb, leb, ◌==◌, ◌&&◌, ◌||◌, if◌then◌else◌,
}
use alilua.Prelude.Int.{ℤ, pos, negsuc}

-- A text up to the first `d`, and what stands behind that, if there is one.
unfoldable pub cut : ℕ → Bytes → Bytes × Option Bytes
cut d [] = ([], none)
cut d (c ∷ cs) =
    let (token, behind) = cut d cs in if c == d then ([], some cs) else (c ∷ token, behind)

-- `strtok_r` with one delimiter: leading delimiters are passed over. `behind` is none where the
-- token ends with the text.
unfoldable pub strtok : ℕ → Bytes → Option (Bytes × Option Bytes)
unfolding cut
strtok d [] = none
strtok d (c ∷ cs) =
    let later = strtok d cs in
    let (token, behind) = cut d cs in if c == d then later else some (c ∷ token, behind)

-- What `strtok_r` goes on with.
abbrev pub saved : Option Bytes → Bytes
saved none = []
saved (some behind) = behind

-- `strcmp(a, b) == 0`
abbrev pub str_eq : Bytes → Bytes → Bool
str_eq [] [] = true
str_eq [] (b ∷ bs) = false
str_eq (a ∷ as') [] = false
str_eq (a ∷ as') (b ∷ bs) = let rest = str_eq as' bs in if a == b then rest else false

-- `toupper`, in the C locale.
unfoldable pub to_upper : ℕ → ℕ
to_upper c = if leb b'a' c && leb c b'z' then c - 32 else c

-- `c >= 'A' && c <= 'Z' ? c | 0x60 : c`
unfoldable pub to_lower : ℕ → ℕ
to_lower c = if leb b'A' c && leb c b'Z' then c + 32 else c

abbrev pub map_bytes : (ℕ → ℕ) → Bytes → Bytes
map_bytes f [] = []
map_bytes f (c ∷ cs) = f c ∷ map_bytes f cs

unfoldable pub last_byte : Bytes → ℕ
last_byte [] = 0
last_byte (c ∷ []) = c
last_byte (c ∷ d ∷ ds) = last_byte (d ∷ ds)

-- The text without its last byte.
unfoldable pub but_last : Bytes → Bytes
but_last [] = []
but_last (c ∷ []) = []
but_last (c ∷ d ∷ ds) = c ∷ but_last (d ∷ ds)

-- `if(t[len - 1] == 13) t[len - 1] = '\0'`
unfoldable pub drop_cr : Bytes → Bytes
unfolding last_byte but_last
drop_cr t = if last_byte t == b'\r' then but_last t else t

-- `t + (t[0] == ' ' ? 1 : 0)`
abbrev pub skip_space : Bytes → Bytes
skip_space [] = []
skip_space (c ∷ cs) = if c == b' ' then cs else c ∷ cs

-- The digits that `atoi` reads, as far as they go.
unfoldable pub digits_value : ℕ → Bytes → ℕ
digits_value n [] = n
digits_value n (c ∷ cs) =
    let more = digits_value (n * 10 + (c - b'0')) cs in if leb b'0' c && leb c b'9' then more else n

-- `isspace`, in the C locale.
unfoldable pub is_space : ℕ → Bool
is_space c = c == b' ' || (leb 9 c && leb c 13)

abbrev pub negated : ℕ → ℤ
negated zero = pos 0
negated (suc n) = negsuc n

-- `atoi`, as far as the number fits an `int`.
unfoldable pub atoi : Bytes → ℤ
unfolding is_space digits_value
atoi [] = pos 0
atoi (c ∷ cs) =
    let rest = atoi cs in
    if is_space c
    then rest
    else if c == b'-'
    then negated (digits_value 0 cs)
    else if c == b'+'
    then pos (digits_value 0 cs)
    else pos (digits_value 0 (c ∷ cs))

-- `strncmp(t, prefix, strlen(prefix)) == 0`
unfoldable pub has_prefix : Bytes → Bytes → Bool
has_prefix [] t = true
has_prefix (p ∷ ps) [] = false
has_prefix (p ∷ ps) (c ∷ cs) = let rest = has_prefix ps cs in if p == c then rest else false
