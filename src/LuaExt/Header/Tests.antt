-- ===== src/LuaExt/Header/Tests.antt =====
-- Headers that a Lua program sets.
use alilua.Prelude.{◌≡◌, refl, true, none, some, List, Option, [], ◌∷◌, Bytes, codes, update, arith}
use alilua.Network.Epd.{Epd, idle}
use alilua.Network.Header.{is_status}
use alilua.Network.Header.Lines.{Response, render}
use alilua.LuaExt.Header.{many, taken, is_content_length, set_head, lua_header}
use alilua.LuaExt.Header.Lines.{IsHead, add_kept, lua_header-render}
use alilua.Samples.{sample_site}

abbrev page : Response
page = record { status = codes "HTTP/1.1 200 OK"; headers = codes "X-A: b" ∷ [] }

abbrev begun : Epd
begun = record idle { iov = update (λ i. none) 0 (some (render page)) }

page-begins : is_status (page.status) ≡ true
unfolding is_status
page-begins = refl

page-IsHead : IsHead page
page-IsHead = record { begins = page-begins; one_line = omega arith }

abbrev some_headers : List (Option Bytes)
some_headers = some (codes "HTTP/1.1 404 Not Found") ∷ none ∷ some (codes "X-C: d") ∷ []

lua_header-render_example :
    ((lua_header (sample_site 4096) true (λ b. true) [] begun (many some_headers)).0
      ≡ set_head begun
          (some (render (add_kept (sample_site 4096) true (λ b. true) [] 0 page some_headers))))
    × ((lua_header (sample_site 4096) true (λ b. true) [] begun (many some_headers)).1 ≡ taken)
unfolding is_content_length
lua_header-render_example =
    lua_header-render (sample_site 4096) true (λ b. true) [] begun page some_headers refl
      (omega arith) refl page-IsHead (omega arith) (omega arith)
