-- ===== src/Network/Header/Tests.antt =====
-- Heads of responses.
use alilua.Prelude.{◌≡◌, refl, Bool, true, none, some, [], ◌∷◌, ◌++◌, Bytes, codes}
use alilua.Prelude.Int.{pos}
use alilua.Network.Header.{
  is_status, last_byte, default_status, append_header, put_header, network_send_header,
}
use alilua.Network.Header.Lines.{Response}

abbrev always : Bytes → Bool
always b = true

abbrev page : Response
page = record { status = codes "HTTP/1.1 200 OK"; headers = codes "X-A: b" ∷ [] }

-- A header that is no redirect, but begins with `L`.
link_redirects :
    network_send_header 4096 true always [] 0 none (codes "Link: a")
    ≡ (some (codes "HTTP/1.1 302 Moved\r\nLink: a\r\n"), pos 1)
unfolding network_send_header put_header append_header default_status is_status last_byte
link_redirects = refl

-- A first header that begins with `H` comes without a status line.
no_status_line :
    network_send_header 4096 true always [] 0 none (codes "Header: a")
    ≡ (some (codes "Header: a\r\n"), pos 1)
unfolding network_send_header put_header append_header default_status is_status last_byte
no_status_line = refl

-- Behind a header that ends its line itself, two bytes of memory are counted.
counts_stale :
    network_send_header 4096 true always (0 ∷ 0 ∷ []) 0 none (codes "X: a\n")
    ≡ (some (codes "HTTP/1.1 200 OK\r\nX: a\n" ++ 0 ∷ 0 ∷ []), pos 1)
unfolding network_send_header put_header append_header default_status is_status last_byte
counts_stale = refl

page_begins : is_status (page.status) ≡ true
unfolding is_status
page_begins = refl
