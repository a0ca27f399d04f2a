-- ===== src/Network/Build.antt =====
-- src/network.c: `network_build_header_out`, which completes the head of a response, for a response
-- that is not compressed (`content_gzip_or_deflated` stays 0).
pub mod Status
pub mod Ready
use alilua.Prelude.{
  ℕ, ◌+◌, ◌-◌, Bool, true, false, Option, none, some, List, [], ◌∷◌, ◌++◌, Bytes, codes, length,
  take, drop, update, ltb, leb, ◌==◌, if◌then◌else◌,
}
use alilua.Prelude.Int.{ℤ, pos, leb_ℤ}
use alilua.Network.Epd.{Epd}
use alilua.Network.Chunk.{crlf, network_add_chunk_metas}

-- What the function uses that is not in the repository or is fixed when the server starts: `stristr`
-- (where a text stands in the first bytes of another, in any case) and `_ultostr` of the coevent
-- library, its EP_D_BUF_SIZE, the `%d` of sprintf, ALILUA_VERSION, `hostname` and `now_gmt`.
pub record Site : Type 0 where
  pub stristr : Bytes → Bytes → ℕ → Option ℕ
  pub ultostr : ℕ → Bytes
  pub ep_d_buf_size : ℕ
  pub decimal : ℕ → Bytes
  pub version : Bytes
  pub hostname : Bytes
  pub now_gmt : Bytes

-- `Server: aLiLua/%s (%s)`
unfoldable pub server_line : Site → Bytes
server_line site =
    codes "Server: aLiLua/"
    ++ (site.version ++ (codes " (" ++ (site.hostname ++ (codes ")" ++ crlf))))

unfoldable pub connection_line : ℤ → Bytes
connection_line keepalive =
    codes "Connection: "
    ++ ((if leb_ℤ keepalive (pos 1)
          then (if leb_ℤ (pos 1) keepalive then codes "keep-alive" else codes "close")
          else codes "close")
        ++ crlf)

pub date_line : Site → Bytes
date_line site = codes "Date: " ++ (site.now_gmt ++ crlf)

unfoldable pub length_line : Site → ℕ → Bytes
length_line site n = codes "Content-Length: " ++ (site.decimal n ++ crlf)

-- The head where the program has set no header.
unfoldable pub plain_head : Site → Epd → Bytes
plain_head site epd =
    codes "HTTP/1.1 200 OK"
    ++ (crlf
        ++ (server_line site
            ++ (codes "Content-Type: text/html; charset=UTF-8"
                ++ (crlf
                    ++ (connection_line epd.keepalive
                        ++ (length_line site epd.response_content_length ++ crlf))))))

-- `p[0] = 'X'`, at the place `i` of the head.
pub cross_out : Bytes → ℕ → Bytes
cross_out head i = take i head ++ b'X' ∷ drop (i + 1) head

-- The head and `has_content_length_or_chunk_out` once the program's headers are looked through, in a
-- call with `is_flush` 0.
pub look_through : Site → ℕ → Bytes → Bytes × ℕ
look_through site has head = elim (site.stristr head (codes "content-length:") (length head)) [
  | some i ↦ (cross_out head i, has)
  | none ↦ elim (site.stristr head (codes "transfer-encoding:") (length head)) [
    | some i ↦ (head, 2)
    | none ↦ (head, has)
  ]
]

-- Where the header `Connection:` stands, and whether it asks to close.
pub asks_close : Site → Bytes → ℕ → Bool
asks_close site head p = elim (site.stristr (drop p head) (codes "close") (length head - p)) [
  | some i ↦ true
  | none ↦ false
]

-- What is put behind the program's headers.
pub tail_of : Site → ℕ → Bytes → Epd → Bytes
tail_of site has connection epd =
    server_line site
    ++ (connection
        ++ (date_line site
            ++ ((if ltb has 1 then length_line site epd.response_content_length else []) ++ crlf)))

-- `if(has_content_length_or_chunk_out == 2)`
pub add_metas : Site → Option Bytes → ℕ → Epd → Epd
add_metas site http_ver has epd =
    if has == 2 then network_add_chunk_metas site.ep_d_buf_size site.ultostr http_ver epd else epd

-- The connection and the head, whose lines so far are `head`; a header `Connection:` of the program
-- counts as it stands.
pub complete : Site → ℕ → Bytes → Epd → Epd × Bytes
complete site has head epd = elim (site.stristr head (codes "Connection:") (length head)) [
  | none ↦ (epd, head ++ tail_of site has (connection_line epd.keepalive) epd)
  | some p ↦
      let closed = if asks_close site head p then record epd { keepalive = pos 0 } else epd in
      (closed, head ++ tail_of site has [] epd)
]

-- The connection, `has_content_length_or_chunk_out`, and the head that is to be sent. Of `iov[0]` only
-- what is crossed out changes.
unfoldable pub network_build_header_out : Site → Option Bytes → ℕ → Epd → Epd × ℕ × Bytes
network_build_header_out site http_ver has epd = elim (epd.iov 0) [
  | none ↦ (epd, has, plain_head site epd)
  | some given ↦
      let (head, has') = look_through site has given in
      let (built, out) =
        complete site has' head
          (add_metas site http_ver has' (record epd { iov = update epd.iov 0 (some head) })) in
      (built, has', out)
]
