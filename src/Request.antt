-- ===== src/Request.antt =====
-- src/worker.c: the first part of `worker_process`, which reads the head of a request.
pub mod Cookies
pub mod Printed
pub mod Line
pub mod Noted
pub mod Ends
pub mod Errors
pub mod RoundTrip
mod Tests
use alilua.Prelude.{
  ℕ, zero, suc, ◌+◌, ◌-◌, Bool, true, false, Option, none, some, List, [], ◌∷◌, ◌++◌, Bytes, codes,
  get_or, length, drop, ltb, ◌==◌, ◌&&◌, ◌||◌, if◌then◌else◌,
}
use alilua.CString.{cut, strtok, saved, str_eq, to_upper, to_lower, map_bytes, drop_cr, skip_space}

-- `fields` are the calls of `lua_setfield` on the table `headers`, in order; a later one for a name
-- counts. The other fields are those of `epdata_t`, with the text that they point to when they are
-- set, and `cookies` and `is_form_post` the local variables.
pub record Request : Type 0 where
  pub fields : List (Bytes × Bytes)
  pub method : Bytes
  pub uri : Option Bytes
  pub query : Option Bytes
  pub http_ver : Bytes
  pub host : Option Bytes
  pub user_agent : Option Bytes
  pub referer : Option Bytes
  pub if_modified_since : Option Bytes
  pub cookies : Option Bytes
  pub boundary : Option Bytes
  pub is_form_post : Bool

abbrev pub is_none : Option Bytes → Bool
is_none none = true
is_none (some b) = false

-- `lua_setfield`, where `lua_pushstring` of NULL pushed nil.
abbrev pub set_field : List (Bytes × Bytes) → Bytes → Option Bytes → List (Bytes × Bytes)
set_field fields name none = fields
set_field fields name (some value) = fields ++ (name, value) ∷ []

abbrev pub first_token : ℕ → Bytes → Option Bytes
first_token d text = elim (strtok d text) [ none ↦ none | some (t, behind) ↦ some t ]

abbrev pub with_mark : Option Bytes → Option Bytes
with_mark none = none
with_mark (some t) = some (b'?' ∷ t)

-- The path and the query of the second word of the request line.
pub split_uri : Bytes → Option Bytes × Option Bytes
split_uri word = elim (strtok b'?' word) [
  | none ↦ (none, none)
  | some (t, behind) ↦ (some t, with_mark (first_token b'?' (saved behind)))
]

-- What stands behind the path once `epd->query[0] = '?'` has overwritten the byte before the query: if
-- that byte is the NUL that ended the path, the path goes on with the query.
pub run_on : Bytes → Bytes
run_on [] = []
run_on (c ∷ cs) = if c == b'?' then [] else b'?' ∷ (cut b'?' (c ∷ cs)).0

-- `epd->uri`, as it reads behind the assignment to `epd->query[0]`.
pub uri_of : Bytes → Option Bytes
uri_of word = elim (strtok b'?' word) [
  | none ↦ none
  | some (t, behind) ↦ some (t ++ run_on (saved behind))
]

pub begin_request : Bytes → Bytes → Bytes → Request
begin_request t2 t3 ver =
    let (uri, query) = split_uri t3 in
    record {
      fields =
          set_field
            (set_field (set_field [] (codes "method") (some (map_bytes to_upper t2))) (codes "uri")
              uri)
            (codes "query") query;
      method = map_bytes to_upper t2;
      uri = uri_of t3;
      query = query;
      http_ver = drop_cr ver;
      host = none;
      user_agent = none;
      referer = none;
      if_modified_since = none;
      cookies = none;
      boundary = none;
      is_form_post = false;
    }

-- The first line; `none` where the code answers 400 since there is no version.
pub request_line : Bytes → Option Request
request_line line = elim (strtok b' ' line) [
  | none ↦ none
  | some (t2, behind) ↦ elim (strtok b' ' (saved behind)) [
    | none ↦ none
    | some (t3, behind3) ↦ elim (strtok b' ' (saved behind3)) [
      | none ↦ none
      | some (ver, behind4) ↦ some (begin_request t2 t3 ver)
    ]
  ]
]

-- `t3`, the text behind the name: without a colon it is what stands behind the line, and behind
-- the last line that is `body`.
pub value_of : Option Bytes → Option Bytes → Bytes → Bytes
value_of (some v) rest body = v
value_of none (some rest) body = rest
value_of none none body = body

-- What is left to read. Without a colon the following lines are what the code has changed.
pub left_to_read : Request → Bytes → Bytes → Option Bytes → Option Bytes → Bytes
left_to_read r key v (some value) rest = saved rest
left_to_read r key v none none = []
left_to_read r key v none (some rest) =
    if str_eq key (codes "host") && is_none r.host then (cut b':' v).0 else v

-- What becomes of the head: an answer of 400, or a request. `unfinished` is for want of fuel.
pub data Parsed : Type 0 where
  bad_request unfinished : Parsed
  request : Request → Parsed

-- `stristr` of the coevent library: where a text stands in the first bytes of another, in any case.
module _ (stristr : Bytes → Bytes → ℕ → Option ℕ) where
  -- `content-type`
  pub note_type : Request → Bytes → Request
  note_type r v = elim (stristr v (codes "x-www-form-urlencoded") (length v)) [
    | some i ↦ record r { is_form_post = true }
    | none ↦ elim (stristr v (codes "multipart/form-data") (length v)) [
      | none ↦ r
      | some i ↦ record r {
        boundary = elim (stristr v (codes "boundary=") (length v - 2)) [
          | none ↦ none
          | some at' ↦ some (drop (at' + 9) v)
        ];
      }
    ]
  ]

  -- The branches behind that of `host`.
  pub note_other : Request → Bytes → Bytes → Request
  note_other r key v =
      if str_eq key (codes "content-type")
      then note_type r v
      else if str_eq key (codes "cookie") && is_none r.cookies
      then record r { cookies = some (skip_space v) }
      else if str_eq key (codes "user-agent") && is_none r.user_agent
      then record r { user_agent = some (skip_space v) }
      else if str_eq key (codes "referer") && is_none r.referer
      then record r { referer = some (skip_space v) }
      else if str_eq key (codes "if-modified-since") && is_none r.if_modified_since
      then record r { if_modified_since = some (skip_space v) }
      else r

  -- The header `key`, whose value is `v` with its leading space.
  pub note_header : Request → Bytes → Bytes → Request
  note_header r0 key v =
      let r = record r0 { fields = r0.fields ++ (key, skip_space v) ∷ [] } in
      if str_eq key (codes "host") && is_none r.host
      then record r { host = some (skip_space (cut b':' v).0) }
      else note_other r key v

  -- A line behind the first; `none` for `break`.
  pub header_line : Bytes → Request → Bytes → Option Bytes → Request × Option Bytes
  header_line body r line rest = elim (strtok b':' line) [
    | none ↦ (r, some (saved rest))
    | some (t2, value) ↦
        let v = drop_cr (value_of value rest body) in
        let key = map_bytes to_lower t2 in
        if get_or t2 0 0 == b'\r' || ltb (length v) 1
        then (r, none)
        else (note_header r key v, some (left_to_read r key v value rest))
  ]

  -- The loop behind the first line; `none` where the fuel ran out.
  pub read_lines : ℕ → Bytes → Request → Bytes → Option Request
  read_lines zero body r text = none
  read_lines (suc fuel) body r text = elim (strtok b'\n' text) [
    | none ↦ some r
    | some (line, rest) ↦
        let (r', more) = header_line body r line rest in
        elim more [ none ↦ some r' | some next ↦ read_lines fuel body r' next ]
  ]

  -- `text` is the head up to its last newline, and `body` what lies behind it in memory.
  pub read_head : ℕ → Bytes → Bytes → Parsed
  read_head fuel text body = elim (strtok b'\n' text) [
    | none ↦ bad_request
    | some (line, rest) ↦ elim (request_line line) [
      | none ↦ bad_request
      | some r ↦ elim (read_lines fuel body r (saved rest)) [
        | none ↦ unfinished
        | some r' ↦ request r'
      ]
    ]
  ]
