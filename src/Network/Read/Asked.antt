-- ===== src/Network/Read/Asked.antt =====
-- From the pieces of a request on the wire to what `worker_process` reads from it.
use alilua.Prelude.{
  ℕ, ◌+◌, ◌<◌, ◌≡◌, ◌≢◌, refl, ap, ap₂, sym, ◌∙◌, false, none, List, [], ◌∷◌, ◌++◌, Bytes, codes,
  length, get_or, take, All, arith, append_assoc,
}
use mathlib.Core.Path.{subst}
use alilua.ServStatus.{ServStatus}
use alilua.CString.Laws.{Without}
use alilua.Request.{read_head}
use alilua.Request.Printed.{Header, IsHeader, header_text, print_headers, Without-append}
use alilua.Request.Line.{
  Asked, IsAsked, target, print_line, print_head, target-IsWord, length-append-pos,
}
use alilua.Request.RoundTrip.{Reads, read_head-print_head}
use alilua.Network.Epd.{bytes_of}
use alilua.Network.Write.{concat}
use alilua.Network.Reader.{Reader, Config}
use alilua.Network.Reader.Blank.{Finds}
use alilua.Network.Read.{processes, asks_status, network_be_read}
use alilua.Network.Read.Pieces.{deliveries, IsPiece, Allows}
use alilua.Network.Read.Lines.{IsLine, join}
use alilua.Network.Read.Whole.{IsFresh, Started, network_be_read-Started, take-append}

-- The request line and the headers, without their ends.
abbrev line_of : Asked → Bytes
line_of a = a.method ++ b' ' ∷ (target a.path a.query ++ b' ' ∷ a.http_ver)

abbrev header_of : Header → Bytes
header_of (name, value) = name ++ b':' ∷ b' ' ∷ value

abbrev headers_of : List Header → List Bytes
headers_of [] = []
headers_of (h ∷ hs) = header_of h ∷ headers_of hs

-- No carriage return stands in the parts.
abbrev pub HasNoCr : Asked → List Header → Type 0
HasNoCr a hs =
    Without b'\r' a.method
    × Without b'\r' (target a.path a.query)
    × Without b'\r' a.http_ver
    × All (λ (h : Header). Without b'\r' h.0 × Without b'\r' h.1) hs

print_line-line_of : (a : Asked) (rest : Bytes) → print_line a ++ rest ≡ line_of a ++ b'\r' ∷ rest
print_line-line_of a rest = simp append_assoc

header_text-header_of :
    (h : Header) (rest : Bytes) → header_text h ++ rest ≡ header_of h ++ b'\r' ∷ rest
header_text-header_of (name, value) rest = simp append_assoc

print_headers-join : (hs : List Header) → print_headers hs ≡ join (headers_of hs)
print_headers-join [] = refl
print_headers-join (h ∷ hs) =
    header_text-header_of h (b'\n' ∷ print_headers hs)
    ∙ ap (λ t. header_of h ++ b'\r' ∷ b'\n' ∷ t) (print_headers-join hs)

print_head-join :
    (a : Asked) (hs : List Header) → print_head a hs ≡ join (line_of a ∷ headers_of hs)
print_head-join a hs =
    print_line-line_of a (b'\n' ∷ print_headers hs)
    ∙ ap (λ t. line_of a ++ b'\r' ∷ b'\n' ∷ t) (print_headers-join hs)

words-Without :
    (d : ℕ) (m t v : Bytes)
    → b' ' ≢ d
    → Without d m
    → Without d t
    → Without d v
    → Without d (m ++ b' ' ∷ (t ++ b' ' ∷ v))
words-Without d m t v s hm ht hv = Without-append d m _ hm (s, Without-append d t _ ht (s, hv))

line_of-IsLine : (a : Asked) (hs : List Header) → IsAsked a → HasNoCr a hs → IsLine (line_of a)
line_of-IsLine a hs (m, p, w, q, v) (cm, ct, cv, ch) =
    let (m0, m1, m2) = m in
    let (v0, v1, v2) = v in
    let (t0, t1, t2) = target-IsWord a.path a.query p q in
    (
      length-append-pos a.method _ m0,
      words-Without b'\r' a.method (target a.path a.query) a.http_ver (omega arith) cm ct cv,
      words-Without b'\n' a.method (target a.path a.query) a.http_ver (omega arith) m2 t2 v2,
    )

headers_of-IsLine :
    (hs : List Header)
    → All IsHeader hs
    → All (λ (h : Header). Without b'\r' h.0 × Without b'\r' h.1) hs
    → All IsLine (headers_of hs)
headers_of-IsLine [] h k = tt
headers_of-IsLine ((name, value) ∷ hs) ((p, c, n, r, v), h) ((cn, cv), k) = (
  (
    length-append-pos name _ p,
    Without-append b'\r' name _ cn (omega arith, (omega arith, cv)),
    Without-append b'\n' name _ n (omega arith, (omega arith, v)),
  ),
  headers_of-IsLine hs h k,
)

get_or-first : (s t : Bytes) → 0 < length s → get_or (s ++ t) 0 0 ≡ get_or s 0 0
get_or-first [] t h = absurd (omega arith)
get_or-first (c ∷ cs) t h = refl

-- A request in the form of RFC 7230, with a method that does not begin with P, no carriage return
-- in its parts, and a query, if there is one, that is not empty and has no second `?`, is received in any pieces on a connection that waits for one; there is memory, the
-- limit allows the head, `stristr` finds only what stands there, and the request neither asks for the
-- status page nor expects "100-continue". Then `worker_process` is called, and what it reads of the
-- text that it finds, whatever lies behind that, is what was asked: the method in upper case, path,
-- query, version and all headers in their order; `epd->uri` is the path with `?` and the query.
pub network_be_read-Reads :
    (c : Config) (now : ℕ) (serv : ServStatus) (r : Reader) (fuel : ℕ) (body : Bytes) (a : Asked)
    (hs : List Header) (p : Bytes) (ps : List Bytes)
    → Finds c.stristr
    → Allows c (length (print_head a hs) + 1)
    → IsFresh r
    → IsAsked a
    → All IsHeader hs
    → HasNoCr a hs
    → length hs < fuel
    → get_or a.method 0 0 ≢ b'P'
    → get_or a.method 0 0 ≢ b'p'
    → c.stristr
        (print_head a hs ++ 0 ∷ 0 ∷ [])
        (codes "100-continue")
        (length (print_head a hs) + 1)
      ≡ none
    → asks_status (print_head a hs) ≡ false
    → All IsPiece (p ∷ ps)
    → concat (p ∷ ps) ≡ print_head a hs ++ b'\n' ∷ []
    → ((network_be_read c now serv r (deliveries (p ∷ ps))).next ≡ processes)
      × Reads a hs (
          read_head c.stristr fuel
            (take
              (network_be_read c now serv r (deliveries (p ∷ ps))).reader.header_len
              (bytes_of (network_be_read c now serv r (deliveries (p ∷ ps))).reader.headers))
            body)
network_be_read-Reads c now serv r fuel body a hs p ps finds al f asked headers no_cr lt not_P not_p
      no_continue no_status pieces e =
    let eq = print_head-join a hs in
    let ls = headers_of hs in
    let o = network_be_read c now serv r (deliveries (p ∷ ps)) in
    let first = get_or-first a.method _ (asked.0).0 in
    let s : Started (print_head a hs) o =
      subst (λ t. Started t o) (sym eq)
        (network_be_read-Started c now serv r (line_of a) ls p ps finds
          (subst (λ t. Allows c (length t + 1)) eq al) f
          (line_of-IsLine a hs asked no_cr, headers_of-IsLine hs headers no_cr.3)
          (λ d. not_P (sym first ∙ d)) (λ d. not_p (sym first ∙ d))
          (subst (λ t. c.stristr (t ++ 0 ∷ 0 ∷ []) (codes "100-continue") (length t + 1) ≡ none) eq
            no_continue)
          (subst (λ t. asks_status t ≡ false) eq no_status) pieces
          (e ∙ ap (λ t. t ++ b'\n' ∷ []) eq)) in
    let text : take o.reader.header_len (bytes_of o.reader.headers) ≡ print_head a hs =
      ap₂ (λ n t. take n (bytes_of t)) s.header_len s.headers
      ∙ take-append (print_head a hs) (0 ∷ 0 ∷ []) in
    (
      s.started,
      subst (λ t. Reads a hs (read_head c.stristr fuel t body)) (sym text)
          (read_head-print_head c.stristr body fuel a hs asked headers lt),
    )
