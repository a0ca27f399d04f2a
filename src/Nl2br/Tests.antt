-- ===== src/Nl2br/Tests.antt =====
-- Runs of `lua_f_nl2br`.
use alilua.Prelude.{◌≡◌, refl, none, some, codes}
use alilua.Nl2br.{push_buf, flush, break_line, nl2br_step, nl2br_loop, lua_f_nl2br}

nl2br_runs : lua_f_nl2br 0 (some (codes "a\r\nb\nc")) ≡ some (codes "a<br/>b<br/>c")
unfolding lua_f_nl2br nl2br_loop nl2br_step flush push_buf break_line
nl2br_runs = refl

nl2br_other : lua_f_nl2br 0 none ≡ none
unfolding lua_f_nl2br
nl2br_other = refl
