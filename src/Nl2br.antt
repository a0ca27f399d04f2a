-- ===== src/Nl2br.antt =====
-- deps/string_utils.c: `lua_f_nl2br`. Its output goes through `temp_buf`, which is handed to Lua
-- and emptied when it holds more than 4090 bytes.
pub mod Laws
mod Tests
use mathlib.Core.List.{reverse}
use alilua.LuaText.{concat_top}
use alilua.Prelude.{ℕ, Option, none, some, [], ◌∷◌, ◌++◌, Bytes, length, ltb, ◌==◌, if◌then◌else◌}

-- `temp_buf` with its `k` bytes, the last of them first, and the text on the Lua stack once
-- `hasone` is 1.
pub record Output : Type 0 where
  pub pushed : Option Bytes
  pub last_first : Bytes

pub push_buf : Output → Bytes
push_buf o = concat_top o.pushed (reverse o.last_first)

-- `if(k > 4090)`
pub flush : Output → Output
flush o =
    if ltb 4090 (length o.last_first)
    then record { pushed = some (push_buf o); last_first = [] }
    else o

-- What a newline does to `temp_buf`: a carriage return at `temp_buf[k - 1]` becomes the `<`. With
-- nothing in the buffer that is the byte before it, `before`, and the `<` is written there.
pub break_line : ℕ → Bytes → Bytes
break_line before [] =
    if before == b'\r'
    then b'>' ∷ b'/' ∷ b'r' ∷ b'b' ∷ []
    else b'>' ∷ b'/' ∷ b'r' ∷ b'b' ∷ b'<' ∷ []
break_line before (c ∷ buf) =
    if c == b'\r'
    then b'>' ∷ b'/' ∷ b'r' ∷ b'b' ∷ b'<' ∷ buf
    else b'>' ∷ b'/' ∷ b'r' ∷ b'b' ∷ b'<' ∷ c ∷ buf

-- One round of the loop.
pub nl2br_step : ℕ → Output → ℕ → Output
nl2br_step before o c =
    let o' = flush o in
    record o' {
      last_first = if c == b'\n' then break_line before o'.last_first else c ∷ o'.last_first;
    }

pub nl2br_loop : ℕ → Output → Bytes → Bytes
nl2br_loop before o [] = push_buf o
nl2br_loop before o (c ∷ cs) = nl2br_loop before (nl2br_step before o c) cs

-- For a string argument; for any other, nothing is returned. `before` is the byte of the program's
-- memory in front of `temp_buf`.
pub lua_f_nl2br : ℕ → Option Bytes → Option Bytes
lua_f_nl2br before none = none
lua_f_nl2br before (some src) =
    some (nl2br_loop before (record { pushed = none; last_first = [] }) src)
