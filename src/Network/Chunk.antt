-- ===== src/Network/Chunk.antt =====
-- src/network.c: `network_add_chunk_metas`, which makes a chunk of what is in the buffers.
pub mod Status
pub mod Coding
pub mod Ready
pub mod Framed
pub mod Stream
mod Tests
use alilua.Prelude.{
  ℕ, ◌+◌, Bool, true, false, not, Option, none, some, List, [], ◌∷◌, ◌++◌, Bytes, get_or, length,
  take, update, ltb, ◌==◌, ◌&&◌, if◌then◌else◌,
}
use alilua.Prelude.Int.{ℤ, pos}
use alilua.Network.Epd.{Epd, bytes_of}

-- `http_ver` has eight bytes, and the last is a 1.
unfoldable pub is_http_11 : Option Bytes → Bool
is_http_11 none = false
is_http_11 (some ver) = length ver == 8 && get_or ver 7 0 == b'1'

abbrev pub crlf : Bytes
crlf = b'\r' ∷ b'\n' ∷ []

abbrev pub last_chunk : Bytes
last_chunk = b'0' ∷ crlf ++ crlf

-- The end of a chunk is put behind the text in the buffer that is being filled, or into the next one.
pub end_chunk : ℕ → Epd → ℕ → Epd
end_chunk ep_d_buf_size epd add_bytes =
    let tail = take add_bytes (crlf ++ last_chunk) in
    let used = bytes_of (epd.iov epd.iov_buf_count) in
    if ltb ep_d_buf_size (length used + add_bytes)
    then record epd {
      iov = update epd.iov (epd.iov_buf_count + 1) (some tail);
      iov_buf_count = epd.iov_buf_count + 1;
    }
    else record epd { iov = update epd.iov epd.iov_buf_count (some (used ++ tail)) }

-- `ultostr n` is what `_ultostr` of the coevent library writes for `n` to the base 16.
module _ (ep_d_buf_size : ℕ) (ultostr : ℕ → Bytes) where
  -- The first branch, where `iov[1]` holds `first`.
  pub wrap_chunk : Epd → Bytes → Epd
  wrap_chunk epd first =
      let buf = ultostr epd.response_content_length ++ crlf in
      let add_bytes = if epd.header_sended == 1 then 2 else 7 in
      end_chunk ep_d_buf_size
        (record epd {
          iov = update epd.iov 1 (some (buf ++ first));
          response_content_length = epd.response_content_length + (add_bytes + length buf);
        })
        add_bytes

  pub network_add_chunk_metas : Option Bytes → Epd → Epd
  network_add_chunk_metas http_ver epd =
      if not (is_http_11 http_ver) then record epd { keepalive = pos 0 } else elim (epd.iov 1) [
        | some first ↦ wrap_chunk epd first
        | none ↦
            let add_bytes = if epd.header_sended == 1 then 0 else 5 in
            record epd {
              iov = update epd.iov 1 (some (take add_bytes last_chunk));
              iov_buf_count = 2;
              response_content_length = epd.response_content_length + add_bytes;
            }
      ]
