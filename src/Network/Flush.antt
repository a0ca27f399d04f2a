-- ===== src/Network/Flush.antt =====
-- src/network.c: `network_flush`, which sends what is in the buffers before the response is complete,
-- for a connection without TLS and a response that is not compressed.
pub mod Laws
mod Tests
use alilua.Prelude.{
  ℕ, ◌+◌, Bool, true, false, not, Option, none, some, List, [], ◌∷◌, ◌++◌, Bytes, codes, length,
  update, ltb, ◌==◌, ◌&&◌, ◌||◌, if◌then◌else◌,
}
use alilua.Prelude.Int.{ℤ, pos, ◌+ℤ◌, ◌-ℤ◌}
use alilua.ServStatus.{ServStatus}
use alilua.Network.Epd.{Epd, is_read, process, send, bytes_of}
use alilua.Network.Build.{Site, network_build_header_out}
use alilua.Network.Chunk.{is_http_11, network_add_chunk_metas}
use alilua.Network.End.{is_null, put_head}
use alilua.Network.Header.{network_send_header}

-- `has` is `has_content_length_or_chunk_out`, `raw` what `network_raw_send` is handed, and `result` what
-- the function returns; with true it waits until the socket takes bytes.
pub record Flushed : Type 0 where
  pub serv : ServStatus
  pub epd : Epd
  pub has : ℕ
  pub raw : Bytes
  pub result : Bool

-- The counters and the status when the function begins to send.
pub begin_flush : ServStatus → Epd → ServStatus
begin_flush serv epd =
    let left = if is_read epd.status then serv.reading_counts -ℤ pos 1 else serv.reading_counts in
    record serv { reading_counts = left; sending_counts = serv.sending_counts +ℤ pos 1 }

-- The headers of the response and `has`, before the head is completed. `differs` and `stale` are what
-- `network_send_header` depends on.
pub choose_coding :
    Site → (Bytes → Bool) → Bytes → Option Bytes → ℕ → Epd → Bytes → Option Bytes × ℕ
choose_coding site differs stale http_ver has epd head =
    elim (site.stristr head (codes "content-length:") (length head)) [
      | some i ↦ (some head, 1)
      | none ↦ elim (site.stristr head (codes "transfer-encoding:") (length head)) [
        | some i ↦ (some head, has)
        | none ↦
            let (sent, code) =
              network_send_header site.ep_d_buf_size true differs stale epd.process_timeout
                (some head) (codes "Transfer-Encoding: chunked") in
            (if is_http_11 http_ver then sent else some head, 2)
      ]
    ]

-- The head alone: without a body its length counts as that of the response.
pub flush_head : Epd → Bytes → Epd
flush_head epd out =
    if epd.response_content_length == 0
    then record epd {
      response_content_length = length out;
      iov = if is_null (epd.iov 0) then update epd.iov 0 (some out) else epd.iov;
      iov_buf_count =
          if is_null (epd.iov 0) && ltb epd.iov_buf_count 1 then 1 else epd.iov_buf_count;
    }
    else epd

-- The first flush of a response whose headers are `head`.
pub flush_first :
    Site → (Bytes → Bool) → Bytes → Option Bytes → ℕ → ServStatus → Epd → Bytes → Flushed
flush_first site differs stale http_ver has serv epd head =
    let (given, coding) = choose_coding site differs stale http_ver has epd head in
    let (built, has', out) =
      network_build_header_out site http_ver coding
        (record epd { iov = update epd.iov 0 given; header_sended = 1 }) in
    let flushed = record built { header_sended = 5 } in
    if ltb (length out) site.ep_d_buf_size
      && not epd.sendfile
      && ltb 0 (length (bytes_of (flushed.iov 1)))
    then record {
      serv = serv;
      epd = record (put_head flushed out) { response_buf_sended = 0 };
      has = has';
      raw = [];
      result = true;
    }
    else record {
      serv = serv;
      epd = record (flush_head flushed out) { response_buf_sended = 0 };
      has = has';
      raw = out;
      result = true;
    }

-- A later flush, where there is something to send.
unfoldable pub flush_part : Site → Option Bytes → ℕ → ServStatus → Epd → Flushed
flush_part site http_ver has serv epd =
    let metas = network_add_chunk_metas site.ep_d_buf_size site.ultostr http_ver epd in
    let chunked = if has == 2 then metas else epd in
    record {
      serv = serv;
      epd = record chunked { iov_buf_count = chunked.iov_buf_count + 1 };
      has = has;
      raw = [];
      result = true;
    }

-- `none` where there are no headers yet at the first flush: the code searches `iov[0]`, which is NULL.
pub network_flush :
    Site → (Bytes → Bool) → Bytes → Option Bytes → ℕ → ServStatus → Epd → Option Flushed
network_flush site differs stale http_ver has serv epd =
    if epd.header_sended == 0
    then elim (epd.iov 0) [
      | none ↦ none
      | some head ↦ some (
          flush_first site differs stale http_ver has (begin_flush serv epd)
            (record epd { status = send }) head)
    ]
    else if is_null (epd.iov 1) || ltb (length (bytes_of (epd.iov 1))) 1
    then some (record { serv = serv; epd = epd; has = has; raw = []; result = false })
    else some (flush_part site http_ver has (begin_flush serv epd) (record epd { status = send }))
