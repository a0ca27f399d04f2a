-- ===== src/Strip/Tests.antt =====
-- Runs of `lua_f_strip`, and its theorems at concrete inputs.
use alilua.Prelude.{◌≡◌, refl, none, some, List, [], ◌∷◌, ◌++◌, Bytes, arith, codes}
use alilua.Strip.{scan_byte, strip_from, lua_f_strip}
use alilua.Strip.Laws.{markup, texts, lua_f_strip-markup}

strip_runs :
    lua_f_strip (some (codes "a<b x='>'>c</b> \"<i>\" d")) ≡ some (codes "a'>c</b> \"<i>\" d")
unfolding lua_f_strip strip_from scan_byte
strip_runs = refl

strip_other : lua_f_strip none ≡ none
unfolding lua_f_strip
strip_other = refl

abbrev pieces : List (Bytes × Bytes)
pieces = (codes "b", codes "bold") ∷ (codes "/b", codes " plain") ∷ []

lua_f_strip-markup_example :
    lua_f_strip (some (codes "so " ++ markup pieces)) ≡ some (codes "so " ++ texts pieces)
lua_f_strip-markup_example = lua_f_strip-markup (codes "so ") pieces (omega arith) (omega arith)
