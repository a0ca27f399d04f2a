-- ===== src/Request/Line.antt =====
-- The request line that a client prints, and reading it.
use alilua.Prelude.{
  ◌<◌, ◌≤◌, ◌≡◌, refl, false, Option, none, some, List, [], ◌∷◌, ◌++◌, Bytes, codes, length, arith,
  ap, append-nil, ◌==◌,
}
use alilua.CString.{strtok, to_upper, map_bytes}
use alilua.CString.Laws.{cut_all, Without, strtok-append, strtok_all, drop_cr-append}
use alilua.Request.{
  Request, with_mark, first_token, split_uri, run_on, uri_of, set_field, begin_request,
  request_line,
}
use alilua.Request.Printed.{Header, print_headers, Without-append}

-- What a client asks for.
pub record Asked : Type 0 where
  pub method : Bytes
  pub path : Bytes
  pub query : Option Bytes
  pub http_ver : Bytes

abbrev pub target : Bytes → Option Bytes → Bytes
target path none = path
target path (some q) = path ++ b'?' ∷ q

abbrev pub print_line : Asked → Bytes
print_line a = a.method ++ b' ' ∷ (target a.path a.query ++ b' ' ∷ (a.http_ver ++ b'\r' ∷ []))

abbrev pub print_head : Asked → List Header → Bytes
print_head a hs = print_line a ++ b'\n' ∷ print_headers hs

-- A word of the request line.
abbrev pub IsWord : Bytes → Type 0
IsWord t = (0 < length t) × Without b' ' t × Without b'\n' t

abbrev pub IsQuery : Option Bytes → Type 0
IsQuery none = 0 ≤ 0
IsQuery (some q) = IsWord q × Without b'?' q

abbrev pub IsAsked : Asked → Type 0
IsAsked a =
    IsWord a.method × IsWord a.path × Without b'?' a.path × IsQuery a.query × IsWord a.http_ver

IsWord-append : (s t : Bytes) → IsWord s → IsWord t → IsWord (s ++ b'?' ∷ t)
IsWord-append [] t (p, h, k) w = absurd (omega arith)
IsWord-append (c ∷ cs) t (p, s, n) (p', s', n') = (
  omega arith,
  Without-append b' ' (c ∷ cs) (b'?' ∷ t) s (omega arith, s'),
  Without-append b'\n' (c ∷ cs) (b'?' ∷ t) n (omega arith, n'),
)

pub target-IsWord :
    (path : Bytes) (q : Option Bytes) → IsWord path → IsQuery q → IsWord (target path q)
target-IsWord path none p h = p
target-IsWord path (some q) p (h, w) = IsWord-append path q p h

pub print_line-Without : (a : Asked) → IsAsked a → Without b'\n' (print_line a)
print_line-Without a (m, p, w, q, v) =
    let (m0, m1, m2) = m in
    let (v0, v1, v2) = v in
    let (t0, t1, t2) = target-IsWord a.path a.query p q in
    Without-append b'\n' a.method _ m2 (
      omega arith,
      Without-append b'\n' (target a.path a.query) _ t2
          (omega arith, Without-append b'\n' a.http_ver _ v2 (omega arith, omega arith)),
    )

pub length-append-pos : (s t : Bytes) → 0 < length s → 0 < length (s ++ t)
length-append-pos [] t h = absurd (omega arith)
length-append-pos (c ∷ cs) t h = omega arith

split_uri-target :
    (path : Bytes) (q : Option Bytes)
    → IsWord path
    → Without b'?' path
    → IsQuery q
    → split_uri (target path q) ≡ (some path, with_mark q)
unfolding split_uri strtok
split_uri-target path none (p, h, n) w k = rw (strtok_all b'?' path p w, split_uri) refl
split_uri-target path (some q) (p, h, n) w ((k, h', n'), w') =
    rw (strtok-append b'?' path q p w, split_uri, first_token, strtok_all b'?' q k w') refl

uri_of-target :
    (path : Bytes) (q : Option Bytes)
    → IsWord path
    → Without b'?' path
    → IsQuery q
    → uri_of (target path q) ≡ some (target path q)
unfolding uri_of run_on
uri_of-target path none (p, h, n) w k = rw (strtok_all b'?' path p w, uri_of, append-nil path) refl
uri_of-target path (some []) (p, h, n) w ((k, h', n'), w') = absurd (omega arith)
uri_of-target path (some (c ∷ cs)) (p, h, n) w ((k, h', n'), (ne, w')) =
    let other : (c == b'?') ≡ false = ground arith in
    rw
      (
        strtok-append b'?' path (c ∷ cs) p w,
        uri_of,
        other,
        ap (λ (x : Bytes × Option Bytes). x.0) (cut_all b'?' (c ∷ cs) (ne, w')),
      )
      refl

pub request_line-print_line :
    (m t ver : Bytes)
    → IsWord m
    → IsWord t
    → IsWord ver
    → request_line (m ++ b' ' ∷ (t ++ b' ' ∷ (ver ++ b'\r' ∷ [])))
      ≡ some (begin_request m t (ver ++ b'\r' ∷ []))
unfolding request_line
request_line-print_line m t ver (m0, m1, m2) (t0, t1, t2) (v0, v1, v2) =
    rw
      (
        strtok-append b' ' m (t ++ b' ' ∷ (ver ++ b'\r' ∷ [])) m0 m1,
        request_line,
        strtok-append b' ' t (ver ++ b'\r' ∷ []) t0 t1,
        strtok_all b' ' (ver ++ b'\r' ∷ []) (length-append-pos ver (b'\r' ∷ []) v0)
            (Without-append b' ' ver _ v1 (omega arith, omega arith)),
      )
      refl

-- The request that the first line stands for.
abbrev pub begun : Asked → Request
begun a = record {
  fields =
      set_field ((codes "method", map_bytes to_upper a.method) ∷ (codes "uri", a.path) ∷ [])
        (codes "query") (with_mark a.query);
  method = map_bytes to_upper a.method;
  uri = some (target a.path a.query);
  query = with_mark a.query;
  http_ver = a.http_ver;
  host = none;
  user_agent = none;
  referer = none;
  if_modified_since = none;
  cookies = none;
  boundary = none;
  is_form_post = false;
}

pub begin_request-begun :
    (a : Asked)
    → IsAsked a
    → begin_request a.method (target a.path a.query) (a.http_ver ++ b'\r' ∷ []) ≡ begun a
unfolding begin_request
begin_request-begun a (m, p, w, q, v) =
    rw
      (
        split_uri-target a.path a.query p w q,
        begin_request,
        uri_of-target a.path a.query p w q,
        drop_cr-append a.http_ver,
      )
      refl
