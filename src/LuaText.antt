-- ===== src/LuaText.antt =====
-- The text that the functions of deps/string_utils.c build on the Lua stack, piece by piece.
use alilua.Prelude.{◌≡◌, refl, sym, Option, none, some, ◌++◌, append_assoc, Bytes}

-- `lua_pushlstring` of a piece, and `lua_concat` with the text below it, if there is one.
abbrev pub concat_top : Option Bytes → Bytes → Bytes
concat_top none piece = piece
concat_top (some text) piece = text ++ piece

pub concat_top-append :
    (text : Option Bytes) (xs ys : Bytes) → concat_top text (xs ++ ys) ≡ concat_top text xs ++ ys
concat_top-append none xs ys = refl
concat_top-append (some text) xs ys = sym (append_assoc text xs ys)
