-- ===== src/Network/End.antt =====
-- src/network.c: `network_be_end`, which ends a response once the Lua program is done, for a
-- connection without TLS and a response that is not compressed.
pub mod Laws
pub mod Counts
pub mod Reading
mod Tests
use alilua.Prelude.{
  ℕ, ◌+◌, ◌-◌, Bool, true, false, not, Option, none, some, List, [], ◌∷◌, ◌++◌, Bytes, length,
  update, ltb, leb, ◌==◌, ◌&&◌, ◌||◌, if◌then◌else◌,
}
use alilua.Prelude.Int.{ℤ, pos, negsuc, ◌+ℤ◌, ◌-ℤ◌, leb_ℤ}
use alilua.ServStatus.{ServStatus, add_u64}
use alilua.Network.Epd.{Epd, Step, is_read, read, process, send, bytes_of}
use alilua.Network.Build.{Site, network_build_header_out}
use alilua.Network.Chunk.{network_add_chunk_metas}

-- What the function does last: it waits for the rest of the request, frees the connection, calls
-- `network_send_error` or `network_end_process` with a code, or waits until the socket takes bytes.
pub data Last : Type 0 where
  reads_on_clear frees writes : Last
  errors : ℕ → Last
  ends : ℕ → Last

-- `raw` is what `network_raw_send` is handed.
pub record Ended : Type 0 where
  pub serv : ServStatus
  pub epd : Epd
  pub raw : Bytes
  pub last : Last

-- What the function finds in fields that `Epd` leaves out: whether `fd > -1`, whether `timeout_type`
-- is IS_READ_TIMEOUT, `response_sendfile_fd` is -2 and `se_ptr` is set; `http_ver` and
-- `has_content_length_or_chunk_out`.
pub record Given : Type 0 where
  pub has_fd : Bool
  pub read_timeout : Bool
  pub no_file : Bool
  pub has_se_ptr : Bool
  pub http_ver : Option Bytes
  pub has_length_or_chunk : ℕ

-- The request is not read to its end, so `network_be_read_on_clear` is to read it.
unfoldable pub is_unread : Given → Epd → Bool
is_unread given epd =
    given.has_fd
    && not given.read_timeout
    && not (leb_ℤ epd.content_length (pos epd.data_len -ℤ pos epd.header_length))

abbrev pub is_null : Option Bytes → Bool
is_null none = true
is_null (some b) = false

pub leave : ServStatus → Epd → Bytes → Last → Ended
leave serv epd raw last = record {
  serv = record serv { sending_counts = serv.sending_counts -ℤ pos 1 };
  epd = record epd { status = process };
  raw = raw;
  last = last;
}

-- The end of the function: `se_be_write`, or the client is gone.
pub write_out : Given → ServStatus → Epd → Bytes → Ended
write_out given serv epd raw =
    if given.has_se_ptr
    then record { serv = serv; epd = epd; raw = raw; last = writes }
    else leave serv epd raw (ends 499)

-- The head goes in front of the body, into `iov[0]`; `malloc` says whether that can be allocated.
pub put_head : Epd → Bytes → Epd
put_head epd out = record epd {
  iov = update epd.iov 0 (some out);
  response_content_length = epd.response_content_length + length out;
  iov_buf_count = epd.iov_buf_count + 1;
}

-- The head has to be sent alone, since there is no body, or a file is to follow.
pub head_alone : Given → ServStatus → Epd → Bytes → Ended
head_alone given serv epd out =
    if epd.response_content_length == 0
    then leave serv
        (record epd {
          response_content_length = length out;
          iov = if is_null (epd.iov 0) then update epd.iov 0 (some out) else epd.iov;
          iov_buf_count =
              if is_null (epd.iov 0) && ltb epd.iov_buf_count 1 then 1 else epd.iov_buf_count;
        })
        out (ends (if given.has_se_ptr then 0 else 499))
    else write_out given serv (record epd { response_buf_sended = 0 }) out

-- The head and the body are to be sent; `ended` is what `network_build_header_out` gives.
pub send_head : Site → Bool → Given → ServStatus → Epd → Bytes → Ended
send_head site malloc given serv epd out =
    if ltb (length out) site.ep_d_buf_size
      && not epd.sendfile
      && ltb 0 (length (bytes_of (epd.iov 1)))
    then (if is_null (epd.iov 0) && not malloc
        then leave serv (record epd { keepalive = pos 0 }) []
            (ends (if given.has_se_ptr then 0 else 499))
        else write_out given serv (record (put_head epd out) { response_buf_sended = 0 }) [])
    else head_alone given serv epd out

-- Nothing was sent before.
pub end_whole : Site → Bool → Given → ServStatus → Epd → Ended
end_whole site malloc given serv epd =
    if is_null (epd.iov 0) && is_null (epd.iov 1) && not epd.sendfile && not given.no_file
    then leave serv epd [] (errors 417)
    else if given.no_file
    then leave serv epd [] (errors 404)
    else let (built, has, out) =
        network_build_header_out site given.http_ver given.has_length_or_chunk epd in
      send_head site malloc given serv built out

-- `header_sended` is 2 from here on, and the last chunk is put into the buffers.
pub close_chunks : Site → Given → Epd → Epd
close_chunks site given epd0 =
    let epd = record epd0 { header_sended = 2 } in
    let metas = network_add_chunk_metas site.ep_d_buf_size site.ultostr given.http_ver epd in
    if given.has_length_or_chunk == 2 then metas else epd

-- Parts were flushed before.
pub end_flushed : Site → Given → ServStatus → Epd → Ended
end_flushed site given serv epd0 =
    let epd = close_chunks site given epd0 in
    if is_null (epd.iov 1)
    then leave serv epd [] (ends 0)
    else write_out given serv (record epd { iov_buf_count = epd.iov_buf_count + 1 }) []

-- `success_counts++`, `status = STEP_SEND`, `sending_counts++`
pub begin_send : ServStatus → ServStatus
begin_send serv = record serv {
  success_counts = add_u64 serv.success_counts 1;
  sending_counts = serv.sending_counts +ℤ pos 1;
}

pub network_be_end : Site → Bool → Given → ServStatus → Epd → Ended
network_be_end site malloc given serv epd =
    if is_unread given epd
    then record {
      serv =
          if is_read epd.status
          then serv
          else record serv { reading_counts = serv.reading_counts +ℤ pos 1 };
      epd = record epd { status = read };
      raw = [];
      last = reads_on_clear;
    }
    else if epd.process_timeout == 1
        && not (leb_ℤ epd.keepalive (negsuc 0) && leb_ℤ (negsuc 0) epd.keepalive)
    then record { serv = serv; epd = record epd { process_timeout = 0 }; raw = []; last = frees }
    else if epd.header_sended == 0
    then end_whole site malloc given (begin_send serv) (record epd { status = send })
    else end_flushed site given (begin_send serv) (record epd { status = send })
