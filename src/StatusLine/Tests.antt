-- ===== src/StatusLine/Tests.antt =====
-- Reasons of some codes.
use alilua.Prelude.{◌≡◌, refl, none, some, codes}
use alilua.StatusLine.{reason_below_500, reason}

not_found : reason 404 ≡ some (codes "Not Found")
unfolding reason reason_below_500
not_found = refl

teapot : reason 418 ≡ none
unfolding reason reason_below_500
teapot = refl
