-- ===== src/Escape/Tests.antt =====
-- Runs of `lua_f_escape`, and a theorem at a concrete input.
use alilua.Prelude.{◌≡◌, refl, true, false, none, some, [], Bytes, codes}
use alilua.Escape.{push_buf, flush, escape_byte, escape_step, escape_loop, lua_f_escape}
use alilua.Escape.Laws.{unescape, may_stand, unescape-lua_f_escape}

abbrev line : Bytes
line = codes "it's \"a\"\n\\b"

escape_runs : lua_f_escape (some line) ≡ codes "it\\'s \\\"a\\\"\\n\\\\b"
unfolding lua_f_escape escape_loop escape_step flush push_buf escape_byte
escape_runs = refl

escape_nil : lua_f_escape none ≡ []
unfolding lua_f_escape escape_loop push_buf
escape_nil = refl

unescape-lua_f_escape_example :
    (unescape (lua_f_escape (some line)) ≡ line)
    × (may_stand false (lua_f_escape (some line)) ≡ true)
unescape-lua_f_escape_example = unescape-lua_f_escape line
