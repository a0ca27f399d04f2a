-- ===== src/Escape.antt =====
-- deps/string_utils.c: `lua_f_escape`, which quotes a text for a database. Its output goes through
-- `temp_buf`, which is handed to Lua and emptied whenever it holds four bytes or more.
pub mod Laws
mod Tests
use alilua.LuaText.{concat_top}
use alilua.Prelude.{
  ℕ, Option, none, some, [], ◌∷◌, ◌++◌, Bytes, length, ltb, ◌==◌, ◌||◌, if◌then◌else◌,
}

-- `temp_buf` with its `j` bytes, and the text on the Lua stack once `has` is 1.
pub record Output : Type 0 where
  pub pushed : Option Bytes
  pub buf : Bytes

-- `lua_pushlstring(L, temp_buf, j)`, and `lua_concat` if there is a text below it.
pub push_buf : Output → Bytes
push_buf o = concat_top o.pushed o.buf

-- `if(j >= 4)`
pub flush : Output → Output
flush o = if ltb (length o.buf) 4 then o else record { pushed = some (push_buf o); buf = [] }

-- The switch: what one byte of the source puts into the buffer.
pub escape_byte : ℕ → Bytes
escape_byte c =
    if c == b'\r'
    then b'\\' ∷ b'r' ∷ []
    else if c == b'\n'
    then b'\\' ∷ b'n' ∷ []
    else if c == b'\\' || c == b'\'' || c == b'"'
    then b'\\' ∷ c ∷ []
    else if c == 8
    then b'\\' ∷ b'b' ∷ []
    else if c == b'\t'
    then b'\\' ∷ b't' ∷ []
    else if c == 0
    then b'\\' ∷ b'0' ∷ []
    else if c == 26
    then b'\\' ∷ b'Z' ∷ []
    else c ∷ []

-- One round of the loop.
pub escape_step : Output → ℕ → Output
escape_step o c = let o' = flush o in record o' { buf = o'.buf ++ escape_byte c }

pub escape_loop : Output → Bytes → Bytes
escape_loop o [] = push_buf o
escape_loop o (c ∷ cs) = escape_loop (escape_step o c) cs

-- The argument is `none` for nil.
pub lua_f_escape : Option Bytes → Bytes
lua_f_escape none = escape_loop (record { pushed = none; buf = [] }) []
lua_f_escape (some src) = escape_loop (record { pushed = none; buf = [] }) src
