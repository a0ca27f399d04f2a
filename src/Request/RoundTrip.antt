-- ===== src/Request/RoundTrip.antt =====
-- Reading a head that a client has printed gives back what it was printed from.
use alilua.Prelude.{
  ℕ, ◌<◌, ◌≡◌, refl, sym, ap, ◌∙◌, Option, none, some, List, [], ◌∷◌, ◌++◌, Bytes, codes, length,
  Bool-cases, Option-cases, inl, inr, All, append_assoc, append-nil,
}
use alilua.CString.{cut, strtok, str_eq, to_upper, to_lower, map_bytes}
use alilua.CString.Laws.{strtok-append}
use alilua.Request.{
  Request, with_mark, note_header, request_line, Parsed, request, read_lines, read_head,
}
use alilua.Request.Line.{
  target, print_line, Asked, print_head, IsAsked, begun, target-IsWord, print_line-Without,
  length-append-pos, request_line-print_line, begin_request-begun,
}
use alilua.Request.Noted.{
  or_first, without_port, first_value, lower_names, note_header-fields, note_header-host,
  note_header-cookies, note_header-first,
}
use alilua.Request.Printed.{Header, IsHeader, print_headers, noted, read_lines-print_headers}

-- That reading has given what was asked, with the names of the headers in lower case; the host is the
-- first one named, without a port. Lua gets the path as `uri` (in `begun`); `epd->uri` goes on with the
-- query.
pub record Reads (a : Asked) (hs : List Header) (p : Parsed) : Type 0 where
  pub r : Request
  pub is_read : p ≡ request r
  pub method : r.method ≡ map_bytes to_upper a.method
  pub uri : r.uri ≡ some (target a.path a.query)
  pub query : r.query ≡ with_mark a.query
  pub http_ver : r.http_ver ≡ a.http_ver
  pub fields : r.fields ≡ (begun a).fields ++ lower_names hs
  pub host : r.host ≡ without_port (first_value (codes "host") hs)
  pub cookies : r.cookies ≡ first_value (codes "cookie") hs

or_first_assoc : (a b c : Option Bytes) → or_first (or_first a b) c ≡ or_first a (or_first b c)
or_first_assoc none b c = refl
or_first_assoc (some x) b c = refl

module _ (stristr : Bytes → Bytes → ℕ → Option ℕ) (body : Bytes) where
  abbrev after_header : Request → Header → Request
  after_header r (name, value) = note_header stristr r (map_bytes to_lower name) (b' ' ∷ value)

  noted-fields :
      (r : Request) (hs : List Header)
      → (noted stristr body r hs).fields ≡ r.fields ++ lower_names hs
  unfolding noted
  noted-fields r [] = sym (append-nil r.fields)
  noted-fields r ((name, value) ∷ hs) =
      rw
        (
          noted-fields (after_header r (name, value)) hs,
          note_header-fields stristr r (map_bytes to_lower name) value,
          append_assoc r.fields ((map_bytes to_lower name, value) ∷ []) (lower_names hs),
        )
        refl

  noted-host :
      (r : Request) (hs : List Header)
      → (noted stristr body r hs).host
        ≡ or_first r.host (without_port (first_value (codes "host") hs))
  unfolding noted
  noted-host r [] = elim (Option-cases r.host) [ inl e ↦ rw e refl | inr (x, e) ↦ rw e refl ]
  noted-host r ((name, value) ∷ hs) =
      rw
        (
          noted-host (after_header r (name, value)) hs,
          note_header-host stristr r (map_bytes to_lower name) value,
        )
        (elim (Bool-cases (str_eq (map_bytes to_lower name) (codes "host"))) [
          | inl e ↦ rw e (
              or_first_assoc r.host (some (cut b':' value).0)
                (without_port (first_value (codes "host") hs)))
          | inr e ↦ rw e refl
        ])

  noted-cookies :
      (r : Request) (hs : List Header)
      → (noted stristr body r hs).cookies ≡ or_first r.cookies (first_value (codes "cookie") hs)
  unfolding noted
  noted-cookies r [] = elim (Option-cases r.cookies) [ inl e ↦ rw e refl | inr (x, e) ↦ rw e refl ]
  noted-cookies r ((name, value) ∷ hs) =
      rw
        (
          noted-cookies (after_header r (name, value)) hs,
          note_header-cookies stristr r (map_bytes to_lower name) value,
        )
        (elim (Bool-cases (str_eq (map_bytes to_lower name) (codes "cookie"))) [
          | inl e ↦ rw e (or_first_assoc r.cookies (some value) (first_value (codes "cookie") hs))
          | inr e ↦ rw e refl
        ])

  noted-first :
      (r : Request) (hs : List Header)
      → ((noted stristr body r hs).method ≡ r.method)
        × ((noted stristr body r hs).uri ≡ r.uri)
        × ((noted stristr body r hs).query ≡ r.query)
        × ((noted stristr body r hs).http_ver ≡ r.http_ver)
  unfolding noted
  noted-first r [] = (refl, refl, refl, refl)
  noted-first r ((name, value) ∷ hs) =
      let (m, u, q, v) = note_header-first stristr r (map_bytes to_lower name) value in
      let (m', u', q', v') = noted-first (after_header r (name, value)) hs in
      (m' ∙ m, u' ∙ u, q' ∙ q, v' ∙ v)

  read_head-steps :
      (fuel : ℕ) (text line rest : Bytes) (r r' : Request)
      → strtok b'\n' text ≡ some (line, some rest)
      → request_line line ≡ some r
      → read_lines stristr fuel body r rest ≡ some r'
      → read_head stristr fuel text body ≡ request r'
  unfolding read_head
  read_head-steps fuel text line rest r r' e d g = rw (e, read_head, d, g) refl

  read_head-noted :
      (fuel : ℕ) (a : Asked) (hs : List Header)
      → IsAsked a
      → All IsHeader hs
      → length hs < fuel
      → read_head stristr fuel (print_head a hs) body ≡ request (noted stristr body (begun a) hs)
  read_head-noted fuel a hs h k lt =
      let (m, p, w, q, v) = h in
      read_head-steps fuel (print_head a hs) (print_line a) (print_headers hs) (begun a)
        (noted stristr body (begun a) hs)
        (strtok-append b'\n' (print_line a) (print_headers hs) (length-append-pos a.method _ m.0)
          (print_line-Without a h))
        (request_line-print_line a.method (target a.path a.query) a.http_ver m
            (target-IsWord a.path a.query p q) v
          ∙ ap some (begin_request-begun a h))
        (read_lines-print_headers stristr body fuel (begun a) hs k lt)

  -- A head in the form of RFC 7230 is read as what it was printed from, whatever lies behind it, where
  -- no header's name or value breaks a line, the query, if there is one, is not empty and has no
  -- second `?`, and the fuel is more than the number of headers: the method in upper case, path,
  -- query, version and all headers in their order. `epd->uri` is then not the path, but the path with
  -- `?` and the query.
  pub read_head-print_head :
      (fuel : ℕ) (a : Asked) (hs : List Header)
      → IsAsked a
      → All IsHeader hs
      → length hs < fuel
      → Reads a hs (read_head stristr fuel (print_head a hs) body)
  read_head-print_head fuel a hs h k lt =
      let (m, u, q, v) = noted-first (begun a) hs in
      record {
        r = noted stristr body (begun a) hs;
        is_read = read_head-noted fuel a hs h k lt;
        method = m;
        uri = u;
        query = q;
        http_ver = v;
        fields = noted-fields (begun a) hs;
        host = noted-host (begun a) hs;
        cookies = noted-cookies (begun a) hs;
      }
