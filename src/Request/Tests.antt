-- ===== src/Request/Tests.antt =====
-- Heads and cookies as they are read, and the examples of the theorems on requests.
use alilua.Prelude.{
  ℕ, ◌≡◌, ◌≢◌, ◌<◌, refl, Option, none, some, List, [], ◌∷◌, ◌++◌, Bytes, codes, length, arith, All,
}
use alilua.CString.{cut, strtok, drop_cr, to_upper, to_lower}
use alilua.CString.Laws.{Without, lacks-Without}
use alilua.Request.{
  unfinished, bad_request, split_uri, uri_of, run_on, begin_request, value_of, note_header,
  note_other, header_line, read_head,
}
use alilua.Request.Printed.{Header, IsHeader}
use alilua.Request.Line.{Asked, IsWord, IsAsked, print_head}
use alilua.Request.RoundTrip.{Reads, read_head-print_head}
use alilua.Request.Ends.{read_head-ne-unfinished}
use alilua.Request.Errors.{read_head-two_words}
use alilua.Request.Cookies.{read_cookies, decoded, print_cookies, read_cookies-print_cookies}

abbrev no_match : Bytes → Bytes → ℕ → Option ℕ
no_match text wanted n = none

abbrev verbatim : Bytes → Bytes
verbatim text = text

abbrev asked : Asked
asked = record {
  method = codes "get";
  path = codes "/a";
  query = some (codes "b=1");
  http_ver = codes "HTTP/1.1";
}

abbrev headers : List Header
headers = (codes "Host", codes "x.org:80") ∷ (codes "Cookie", codes "k=v") ∷ []

IsWord-lacks : (t : Bytes) → 0 < length t → Without b' ' t → Without b'\n' t → IsWord t
IsWord-lacks t p s n = (p, s, n)

asked-IsAsked : IsAsked asked
asked-IsAsked = (
  (omega arith, lacks-Without b' ' (codes "get") refl, lacks-Without b'\n' (codes "get") refl),
  (omega arith, lacks-Without b' ' (codes "/a") refl, lacks-Without b'\n' (codes "/a") refl),
  lacks-Without b'?' (codes "/a") refl,
  (
    (omega arith, lacks-Without b' ' (codes "b=1") refl, lacks-Without b'\n' (codes "b=1") refl),
    lacks-Without b'?' (codes "b=1") refl,
  ),
  (
    omega arith,
    lacks-Without b' ' (codes "HTTP/1.1") refl,
    lacks-Without b'\n' (codes "HTTP/1.1") refl,
  ),
)

headers-IsHeader : All IsHeader headers
headers-IsHeader = (
  (
    omega arith,
    lacks-Without b':' (codes "Host") refl,
    lacks-Without b'\n' (codes "Host") refl,
    omega arith,
    lacks-Without b'\n' (codes "x.org:80") refl,
  ),
  (
    (
      omega arith,
      lacks-Without b':' (codes "Cookie") refl,
      lacks-Without b'\n' (codes "Cookie") refl,
      omega arith,
      lacks-Without b'\n' (codes "k=v") refl,
    ),
    omega arith,
  ),
)

read_head-print_head_example :
    Reads asked headers (read_head no_match 3 (print_head asked headers) [])
read_head-print_head_example =
    read_head-print_head no_match [] 3 asked headers asked-IsAsked headers-IsHeader (omega arith)

read_head-ne-unfinished_example : read_head no_match 60 (print_head asked headers) [] ≢ unfinished
read_head-ne-unfinished_example =
    read_head-ne-unfinished no_match 60 (print_head asked headers) [] (omega arith)

read_head-two_words_example :
    read_head no_match 9 (codes "GET" ++ b' ' ∷ (codes "/" ++ b'\n' ∷ codes "A: b")) []
    ≡ bad_request
read_head-two_words_example =
    read_head-two_words no_match 9 (codes "GET") (codes "/") (codes "A: b") []
      (omega arith, lacks-Without b' ' (codes "GET") refl, lacks-Without b'\n' (codes "GET") refl)
      (omega arith, lacks-Without b' ' (codes "/") refl, lacks-Without b'\n' (codes "/") refl)

abbrev two_cookies : List (Bytes × Bytes)
two_cookies = (codes "a", codes "1") ∷ (codes "b", codes "2") ∷ []

read_cookies-print_cookies_example :
    read_cookies verbatim 4 (print_cookies two_cookies)
    ≡ some (decoded verbatim (λ t. refl) two_cookies)
read_cookies-print_cookies_example =
    read_cookies-print_cookies verbatim (λ t. refl) 4 two_cookies
      (
        (
          omega arith,
          lacks-Without b';' (codes "a") refl,
          lacks-Without b'=' (codes "a") refl,
          refl,
          lacks-Without 0 (codes "a") refl,
          omega arith,
          lacks-Without b';' (codes "1") refl,
          lacks-Without b'=' (codes "1") refl,
        ),
        (
          (
            omega arith,
            lacks-Without b';' (codes "b") refl,
            lacks-Without b'=' (codes "b") refl,
            refl,
            lacks-Without 0 (codes "b") refl,
            omega arith,
            lacks-Without b';' (codes "2") refl,
            lacks-Without b'=' (codes "2") refl,
          ),
          omega arith,
        ),
      )
      (omega arith)

-- Without a colon the value is the text behind the line, and with an empty value reading ends.
colonless_test :
    (header_line no_match []
      (begin_request (codes "G") (codes "/") (codes "H"))
      (codes "Name")
      (some (codes "A: b\nC: d"))).0.fields
    ≡ (codes "method", codes "G")
      ∷ (codes "uri", codes "/")
      ∷ (codes "name", codes "A: b\nC: d")
      ∷ []
unfolding header_line note_header note_other strtok cut drop_cr begin_request split_uri uri_of
    run_on to_upper to_lower value_of
colonless_test = refl

empty_value_test :
    (header_line no_match []
      (begin_request (codes "G") (codes "/") (codes "H"))
      (codes "Accept:\r")
      (some (codes "A: b"))).1
    ≡ none
unfolding header_line strtok cut drop_cr value_of
empty_value_test = refl
