-- ===== src/LuaExt/Header.antt =====
-- src/lua-ext.c: `lua_header` and `lua_clear_header`, by which a Lua program sets the head of its response.
pub mod Lines
mod Tests
use alilua.Prelude.{
  ℕ, zero, Bool, true, false, not, Option, none, some, List, [], ◌∷◌, Bytes, codes, length, update,
  ◌==◌, if◌then◌else◌,
}
use alilua.Prelude.Int.{ℤ, pos, negsuc}
use alilua.CString.{cut}
use alilua.Network.Epd.{Epd}
use alilua.Network.Header.{network_send_header}
use alilua.Network.Build.{Site}

-- The arguments: none, a string, a table, or a first one of another type. In a table `none` stands for
-- what is neither a string nor a number.
pub data HeaderArg : Type 0 where
  missing other : HeaderArg
  one : Bytes → HeaderArg
  many : List (Option Bytes) → HeaderArg

-- What Lua gets: nothing, nil with one of two messages, nil, or true.
pub data HeaderReply : Type 0 where
  nothing sended too_big refused taken : HeaderReply

-- The reply by `ret`.
pub reply_of_ret : ℤ → HeaderReply
reply_of_ret (negsuc zero) = too_big
reply_of_ret (pos zero) = refused
reply_of_ret ret = taken

module _ (site : Site) (malloc : Bool) (differs : Bytes → Bool) (stale : Bytes)
    (process_timeout : ℕ) where
  -- `stristr(data, "content-length", dlen) == data`
  pub is_content_length : Bytes → Bool
  is_content_length header = elim (site.stristr header (codes "content-length") (length header)) [
    | none ↦ false
    | some i ↦ i == 0
  ]

  -- One header; the state is `iov[0]` and `ret`. `network_send_header` takes it up to its first byte 0.
  pub send_one : Option Bytes × ℤ → Bytes → Option Bytes × ℤ
  send_one (buf, ret) header =
      if is_content_length header
      then (buf, ret)
      else network_send_header site.ep_d_buf_size malloc differs stale process_timeout buf
          (cut 0 header).0

  pub send_many : Option Bytes × ℤ → List (Option Bytes) → Option Bytes × ℤ
  send_many state [] = state
  send_many state (none ∷ rest) = send_many state rest
  send_many state (some header ∷ rest) = send_many (send_one state header) rest

  pub send_arg : Option Bytes → HeaderArg → Option Bytes × ℤ
  send_arg buf (one header) = send_one (buf, pos 0) header
  send_arg buf (many headers) = send_many (buf, pos 0) headers
  send_arg buf missing = (buf, pos 0)
  send_arg buf other = (buf, pos 0)

abbrev pub set_head : Epd → Option Bytes → Epd
set_head epd buf = record epd { iov = update epd.iov 0 buf }

pub lua_header : Site → Bool → (Bytes → Bool) → Bytes → Epd → HeaderArg → Epd × HeaderReply
lua_header site malloc differs stale epd missing = (epd, nothing)
lua_header site malloc differs stale epd arg =
    let (buf, ret) = send_arg site malloc differs stale epd.process_timeout (epd.iov 0) arg in
    if not (epd.header_sended == 0) then (epd, sended) else (set_head epd buf, reply_of_ret ret)

pub lua_clear_header : Epd → Epd × HeaderReply
lua_clear_header epd =
    if not (epd.header_sended == 0) then (epd, sended) else (set_head epd none, nothing)
