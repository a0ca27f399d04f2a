-- ===== src/Network/Header.antt =====
-- src/network.c: `network_send_header`, which collects the head of a response in `iov[0]`.
-- `EP_D_BUF_SIZE` and `stricmp` belong to the coevent library.
pub mod Lines
mod Tests
use alilua.Prelude.{
  ℕ, ◌+◌, Bool, true, false, not, Option, none, some, List, [], ◌∷◌, ◌++◌, Bytes, codes, get_or,
  length, ltb, ◌==◌, ◌&&◌, ◌||◌, if◌then◌else◌,
}
use alilua.Prelude.Int.{ℤ, pos, negsuc}

-- `header[0] == 'H' && header[4] == '/'`; what lies behind a text reads as 0.
unfoldable pub is_status : Bytes → Bool
is_status b = get_or b 0 0 == b'H' && get_or b 4 0 == b'/'

-- What stands behind the first newline; `none` if there is none.
pub after_line : Bytes → Option Bytes
after_line [] = none
after_line (c ∷ cs) = let rest = after_line cs in if c == b'\n' then some cs else rest

pub last_byte : Bytes → ℕ
last_byte [] = 0
last_byte (c ∷ []) = c
last_byte (c ∷ d ∷ ds) = last_byte (d ∷ ds)

abbrev pub crlf : Bytes
crlf = b'\r' ∷ b'\n' ∷ []

-- The status line that the code puts in front of a first header; `differs` says that `stricmp` of
-- the header and `Location:` is not 0.
pub default_status : Bool → Bytes → Bytes
default_status differs header =
    if not (get_or header 0 0 == b'H') && not (get_or header 4 0 == b'/')
    then (if (get_or header 0 0 == b'L' || get_or header 0 0 == b'l') && differs
        then codes "HTTP/1.1 302 Moved" ++ crlf
        else codes "HTTP/1.1 200 OK" ++ crlf)
    else []

-- The last part: the header is put behind the others. Two bytes are counted in any case, and they
-- are what stands in memory, `stale`, if the header ends in a newline.
pub append_header : Bytes → Bytes → Bytes → Bytes
append_header stale buf header =
    buf ++ (header ++ (if last_byte header == b'\n' then stale else crlf))

-- A status line takes the place of one that is there.
pub put_header : Bytes → Bytes → Bytes → Bytes
put_header stale buf header =
    if is_status header && is_status buf
    then elim (after_line buf) [
      | some rest ↦ header ++ (crlf ++ rest)
      | none ↦ append_header stale buf header
    ]
    else append_header stale buf header

-- `iov[0]` before the header is put there, and `response_header_length`.
abbrev pub begun : (Bytes → Bool) → Bytes → Option Bytes → Bytes
begun differs header none = default_status (differs header) header
begun differs header (some buf) = buf

abbrev pub used : Option Bytes → ℕ
used none = 0
used (some buf) = length buf

-- `iov[0]` is to be allocated, and cannot be.
abbrev pub is_missing : Bool → Option Bytes → Bool
is_missing malloc none = not malloc
is_missing malloc (some buf) = false

-- The state is the first `response_header_length` bytes of `iov[0]`, `none` where it is NULL (the
-- length is 0 then). A header that is NULL or empty is the empty list. `malloc` says whether the
-- allocation succeeds. The result is the one that the function returns.
pub network_send_header :
    ℕ → Bool → (Bytes → Bool) → Bytes → ℕ → Option Bytes → Bytes → Option Bytes × ℤ
network_send_header ep_d_buf_size malloc differs stale process_timeout state header =
    if process_timeout == 1 || ltb (length header) 1
    then (state, pos 0)
    else if ltb ep_d_buf_size (used state + length header + 200)
    then (state, negsuc 0)
    else if is_missing malloc state
    then (state, pos 0)
    else (some (put_header stale (begun differs header state) header), pos 1)
