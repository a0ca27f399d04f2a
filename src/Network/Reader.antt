-- ===== src/Network/Reader.antt =====
-- src/network.c: the buffer in which `network_be_read` collects a request, and how it finds the end of
-- the head and the length of the body.
pub mod Blank
pub mod Examined
pub mod Room
pub mod Search
use alilua.Prelude.{
  ℕ, ◌+◌, ◌-◌, Bool, not, Option, none, some, [], ◌∷◌, ◌++◌, Bytes, codes, get_or, length, take,
  drop, ltb, leb, ◌==◌, ◌&&◌, ◌||◌, if◌then◌else◌,
}
use alilua.Prelude.Int.{ℤ, pos, ◌+ℤ◌, leb_ℤ}
use alilua.CString.{atoi}
use alilua.ServStatus.{ServStatus}
use alilua.Network.Epd.{Epd, is_read, read, bytes_of}

-- What the event loop calls when bytes come: `network_be_read`, `network_be_read_on_processing`, or
-- nothing.
pub data Callback : Type 0 where
  on_request on_processing on_nothing : Callback

-- A connection that receives a request: `headers` is `none` where it is NULL, and else what was
-- written there, of `buf_size` bytes.
pub record Reader : Type 0 where
  pub epd : Epd
  pub headers : Option Bytes
  pub buf_size : ℕ
  pub header_len : ℕ
  pub callback : Callback

-- `buffer_size` and `ep_d_buf_size` are coevent's BUFFER_SIZE and EP_D_BUF_SIZE; `malloc` tells for
-- which sizes `malloc` and `realloc` succeed; `stristr text t len` is the place of `t` in the first
-- `len` bytes of `text`. A limit of 0 is none.
pub record Config : Type 0 where
  pub buffer_size : ℕ
  pub ep_d_buf_size : ℕ
  pub max_request_header : ℕ
  pub max_request_body : ℕ
  pub malloc : ℕ → Bool
  pub stristr : Bytes → Bytes → ℕ → Option ℕ

-- `realloc(epd->headers, epd->buf_size + BUFFER_SIZE)`
unfoldable pub enlarge : Config → Reader → Option Reader
enlarge c r =
    if c.malloc (r.buf_size + c.buffer_size)
    then some (record r { buf_size = r.buf_size + c.buffer_size })
    else none

-- What is done before the loop.
unfoldable pub open_buffer : Config → Reader → Option Reader
open_buffer c r = elim r.headers [
  | none ↦
      if c.malloc c.buffer_size
      then some (record r { headers = some []; buf_size = c.buffer_size })
      else none
  | some b ↦ if r.epd.data_len == r.buf_size then enlarge c r else some r
]

-- `if(epd->data_len + n >= epd->buf_size)`
unfoldable pub make_room : Config → Reader → ℕ → Option Reader
make_room c r n = if leb r.buf_size (r.epd.data_len + n) then enlarge c r else some r

-- `recv` has put the bytes behind the others; a first part starts the count anew.
unfoldable pub take_in : Reader → Bytes → Reader
take_in r bytes = record r {
  epd = record (r.epd) {
    status = read;
    data_len = if is_read r.epd.status then r.epd.data_len + length bytes else length bytes;
  };
  headers = some (take r.epd.data_len (bytes_of r.headers) ++ bytes);
}

-- `if(epd->status != STEP_READ) serv_status.reading_counts++`
unfoldable pub count_reading : ServStatus → Reader → ServStatus
count_reading serv r =
    if is_read r.epd.status
    then serv
    else record serv { reading_counts = serv.reading_counts +ℤ pos 1 }

-- The first `data_len` bytes of `headers`.
abbrev pub received_bytes : Reader → Bytes
received_bytes r = take r.epd.data_len (bytes_of r.headers)

-- The last bytes are two newlines, or CR, any byte, CR and a newline.
unfoldable pub ends_blank : Bytes → Bool
ends_blank seen =
    let n = length seen in
    get_or seen (n - 1) 0 == b'\n'
    && (get_or seen (n - 2) 0 == b'\n'
        || (get_or seen (n - 4) 0 == b'\r' && get_or seen (n - 2) 0 == b'\r'))

abbrev pub blank_line : Bytes
blank_line = b'\r' ∷ b'\n' ∷ b'\r' ∷ b'\n' ∷ []

abbrev pub two_newlines : Bytes
two_newlines = b'\n' ∷ b'\n' ∷ []

-- The length of the head, 0 while its end has not come.
unfoldable pub head_length : Config → Bytes → ℕ
head_length c seen =
    if ends_blank seen then length seen else elim (c.stristr seen blank_line (length seen)) [
      | some i ↦ i + 4
      | none ↦ elim (c.stristr seen two_newlines (length seen)) [ some i ↦ i + 2 | none ↦ 0 ]
    ]

-- The test of `max_request_header`.
unfoldable pub is_too_long : Config → Epd → Bool
is_too_long c epd =
    ltb 0 c.max_request_header
    && (ltb c.max_request_header epd.header_length
        || (epd.header_length == 0 && ltb c.max_request_header epd.data_len))

-- The bytes up to the first CR or newline, if there is one.
unfoldable pub line_text : Bytes → Option Bytes
line_text [] = none
line_text (c ∷ cs) =
    let rest : Option Bytes = elim (line_text cs) [ none ↦ none | some t ↦ some (c ∷ t) ] in
    if c == b'\r' || c == b'\n' then some [] else rest

-- The number behind `content-length:`, if that header stands there with the end of its line.
unfoldable pub declared_length : Config → Bytes → Option ℤ
declared_length c seen = elim (c.stristr seen (b'\n' ∷ codes "content-length:") (length seen)) [
  | none ↦ none
  | some i ↦ elim (line_text (drop (i + 16) seen)) [ none ↦ none | some t ↦ some (atoi t) ]
]

-- The request is good so far, or `network_send_error` is called with a code and a message.
pub data Checked : Type 0 where
  passed : Epd → Checked
  rejected : ℕ → Bytes → Epd → Checked

-- `if(epd->_header_length > 0 && epd->content_length < 0)`
unfoldable pub learn_length : Config → Bytes → Epd → Checked
learn_length c seen epd =
    if epd.header_length == 0 || leb_ℤ (pos 0) epd.content_length
    then passed epd
    else if ends_blank seen && not (get_or seen 0 0 == b'P') && not (get_or seen 0 0 == b'p')
    then passed (record epd { content_length = pos 0 })
    else elim (declared_length c seen) [
      | none ↦ passed epd
      | some n ↦
          if ltb 0 c.max_request_body && leb_ℤ (pos (c.max_request_body + 1)) n
          then rejected 413 (codes "Request Entity Too Large") (record epd { content_length = n })
          else passed (record epd { content_length = n })
    ]

-- A body needs a length; `iov[0]` and `iov[1]` are emptied before that error is sent.
unfoldable pub check_body : Epd → Checked
check_body epd =
    if ltb 0 epd.header_length
      && ltb epd.header_length epd.data_len
      && leb_ℤ epd.content_length (pos 0)
    then rejected 411 [] (record epd { iov = λ i. if leb i 1 then none else epd.iov i })
    else passed epd

-- The length is known, or the request was rejected.
unfoldable pub after_length : Checked → Checked
after_length (rejected code message epd) = rejected code message epd
after_length (passed epd) = check_body epd

-- The end of the head is looked for, and tested.
unfoldable pub examine_head : Config → Bytes → Epd → Checked
examine_head c seen epd =
    if is_too_long c epd
    then rejected 413 (codes "Request Header Too Large") epd
    else after_length (learn_length c seen epd)

-- `if(epd->_header_length < 1 && epd->data_len >= 4 && epd->headers)`
unfoldable pub examine : Config → Reader → Checked
examine c r =
    let seen = received_bytes r in
    if r.epd.header_length == 0 && leb 4 r.epd.data_len
    then examine_head c seen (record (r.epd) { header_length = head_length c seen })
    else passed r.epd
