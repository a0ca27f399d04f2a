-- ===== src/Network/Read.antt =====
-- src/network.c: `network_be_read`, which receives a request and starts its job, for a connection
-- without TLS.
pub mod Asked
pub mod Bounds
pub mod Counts
pub mod Limit
pub mod Pieces
pub mod Lines
pub mod Rounds
pub mod Whole
mod Tests
use alilua.Prelude.{
  ℕ, ◌+◌, ◌-◌, ◌%◌, Bool, true, false, not, Option, none, some, List, [], ◌∷◌, ◌++◌, Bytes, codes,
  length, take, drop, update, ltb, leb, ◌==◌, ◌&&◌, ◌||◌, if◌then◌else◌,
}
use alilua.Prelude.Int.{ℤ, pos, negsuc, ◌+ℤ◌, ◌-ℤ◌, leb_ℤ}
use alilua.CString.{has_prefix}
use alilua.ServStatus.{ServStatus, add_u64}
use alilua.Network.Epd.{Epd, is_read, read, process, send, bytes_of}
use alilua.Network.End.{is_null}
use alilua.Network.Reader.{
  Callback, on_processing, on_nothing, Reader, Config, Checked, passed, rejected, open_buffer,
  make_room, take_in, count_reading, examine,
}

-- What the function does last: it waits for more, calls `close_client`, `network_end_process` with
-- 400, `network_send_error`, `network_send_status` or `worker_process`, sends "100 Continue" by
-- `network_be_write`, or returns since there is no memory for that.
pub data Next : Type 0 where
  waits closes ends sends_status processes continues gives_up : Next
  sends_error : ℕ → Bytes → Next

pub record ReadOutcome : Type 0 where
  pub serv : ServStatus
  pub reader : Reader
  pub next : Next

abbrev pub is_none : Option ℕ → Bool
is_none none = true
is_none (some i) = false

-- `headers[data_len] = '\0'; headers[header_len] = '\0'`
pub put_nuls : Bytes → ℕ → ℕ → Bytes
put_nuls headers data_len header_len =
    take header_len headers ++ 0 ∷ (drop (header_len + 1) (take data_len headers) ++ 0 ∷ [])

-- What is done once the end of the head has come, as far as `if(epd->status == STEP_READ)`.
pub begin_job : Config → Reader → Reader
begin_job c r =
    let header_len = r.epd.header_length - 1 in
    let text = put_nuls (bytes_of r.headers) r.epd.data_len header_len in
    let asks = not (is_none (c.stristr text (codes "keep-alive") header_len)) in
    let all_here =
      leb_ℤ r.epd.content_length (pos 0)
      || leb_ℤ r.epd.content_length (pos r.epd.data_len -ℤ pos r.epd.header_length) in
    record r {
      epd = record (r.epd) {
        keepalive = if asks then pos 1 else r.epd.keepalive;
        iov_buf_count = 0;
        response_content_length = 0;
        total_response_content_length = 0;
        sendfile = false;
      };
      headers = some text;
      header_len = header_len;
      callback = if all_here then on_processing else on_nothing;
    }

-- The counters and the status when the job starts. The pointers into the request that are reset here
-- are set by `worker_process`.
pub count_job : ℕ → ServStatus → ServStatus
count_job now serv = record serv {
  reading_counts = serv.reading_counts -ℤ pos 1;
  process_counts = add_u64 serv.process_counts 1;
  sec_process_counts =
      update serv.sec_process_counts (now % 5) (serv.sec_process_counts (now % 5) +ℤ pos 1);
}

abbrev pub continue_line : Bytes
continue_line = codes "HTTP/1.1 100 Continue" ++ b'\r' ∷ b'\n' ∷ b'\r' ∷ b'\n' ∷ []

-- The line goes into `iov[0]`, if that is not allocated yet.
unfoldable pub put_continue : Epd → Epd
put_continue epd =
    if is_null (epd.iov 0)
    then record epd {
      iov = update epd.iov 0 (some continue_line);
      response_content_length = 25;
      response_buf_sended = 0;
      iov_buf_count = 1;
    }
    else epd

unfoldable pub send_continue : Config → ServStatus → Reader → ReadOutcome
send_continue c serv r =
    if is_null (r.epd.iov 0) && not (c.malloc c.ep_d_buf_size)
    then record { serv = serv; reader = r; next = gives_up }
    else record {
      serv = record serv { sending_counts = serv.sending_counts +ℤ pos 1 };
      reader = record r { epd = record (put_continue r.epd) { next_proc = true; status = send } };
      next = continues;
    }

pub skip_blanks : Bytes → Bytes
skip_blanks [] = []
skip_blanks (c ∷ cs) = let rest = skip_blanks cs in if c == b' ' then rest else c ∷ cs

-- The text behind a first word and the blanks behind that.
pub behind_word : Bytes → Bytes
behind_word [] = []
behind_word (c ∷ cs) = let rest = behind_word cs in if c == b' ' then skip_blanks cs else rest

-- A word ends at a blank, at the end of the line, or at the end of the C string.
pub word_of : Bytes → Bytes
word_of [] = []
word_of (c ∷ cs) =
    let rest = word_of cs in
    if c == 0 || c == b'\r' || c == b'\n' || c == b' ' then [] else c ∷ rest

-- `i > 11 && strncmp("/serv-status", uri, 12) == 0`
pub asks_status : Bytes → Bool
asks_status text =
    let word = word_of (behind_word text) in
    ltb 11 (length word) && has_prefix (codes "/serv-status") word

-- `stristr(epd->headers, "100-continue", epd->_header_length)`
unfoldable pub expects_continue : Config → Reader → Bool
expects_continue c r =
    not (is_none (c.stristr (bytes_of r.headers) (codes "100-continue") r.epd.header_length))

-- Once the job is counted, it is started in one of three ways. `iov[0]` and `iov[1]` are emptied
-- before the status is sent.
unfoldable pub launch : Config → ServStatus → Reader → ReadOutcome
launch c serv r =
    if expects_continue c r
    then send_continue c serv r
    else if asks_status (take r.header_len (bytes_of r.headers))
    then record {
      serv = serv;
      reader = record r {
        epd = record (r.epd) {
          process_timeout = 0;
          iov = λ i. if leb i 1 then none else r.epd.iov i;
        };
      };
      next = sends_status;
    }
    else record { serv = serv; reader = r; next = processes }

-- `if(epd->status == STEP_READ)`
pub start_job : Config → ℕ → ServStatus → Reader → ReadOutcome
start_job c now serv r0 =
    let r = begin_job c r0 in
    if is_read r.epd.status
    then launch c (count_job now serv)
        (record r { epd = record (r.epd) { status = process; header_sended = 0 } })
    else record { serv = serv; reader = r; next = waits }

-- What `recv` answers: bytes, where none means that the client has closed its side, that it would
-- block, or another error.
pub data Input : Type 0 where
  received : Bytes → Input
  would_block broken : Input

-- `recv` gave 0.
pub client_closed : ServStatus → Reader → ReadOutcome
client_closed serv r =
    if ltb 0 r.epd.data_len
    then record {
      serv = record serv { reading_counts = serv.reading_counts -ℤ pos 1 };
      reader = record r { epd = record (r.epd) { status = process; keepalive = pos 0 } };
      next = ends;
    }
    else record { serv = serv; reader = r; next = closes }

-- A round of the loop that has received bytes: it stops, or goes on with the next one.
pub data Round : Type 0 where
  stops : ReadOutcome → Round
  goes_on : ServStatus → Reader → Round

pub after_check : Config → ℕ → ServStatus → Reader → Checked → Round
after_check c now serv r (rejected code message epd) =
    stops (record { serv = serv; reader = record r { epd = epd }; next = sends_error code message })
after_check c now serv r (passed epd) =
    if ltb 0 epd.header_length
    then stops (start_job c now serv (record r { epd = epd }))
    else goes_on serv (record r { epd = epd })

pub read_round : Config → ℕ → ServStatus → Reader → Bytes → Round
read_round c now serv r bytes = elim (make_room c r (length bytes)) [
  | none ↦ stops (record { serv = serv; reader = r; next = closes })
  | some r' ↦
      after_check c now (count_reading serv r') (take_in r' bytes) (examine c (take_in r' bytes))
]

-- The loop; `inputs` holds what `recv` answers, one for each call. With none left the function has not
-- returned, which counts as waiting.
pub read_loop : Config → ℕ → ServStatus → Reader → List Input → ReadOutcome
read_loop c now serv r [] = record { serv = serv; reader = r; next = waits }
read_loop c now serv r (would_block ∷ _) = record { serv = serv; reader = r; next = waits }
read_loop c now serv r (broken ∷ _) = record { serv = serv; reader = r; next = closes }
read_loop c now serv r (received [] ∷ _) = client_closed serv r
read_loop c now serv r (received (b ∷ bs) ∷ rest) = elim (read_round c now serv r (b ∷ bs)) [
  | stops o ↦ o
  | goes_on serv' r' ↦ read_loop c now serv' r' rest
]

-- For a request that is rejected this is the state at the call of `network_send_error`, which counts on
-- its own.
pub network_be_read : Config → ℕ → ServStatus → Reader → List Input → ReadOutcome
network_be_read c now serv r inputs = elim (open_buffer c r) [
  | none ↦ record { serv = serv; reader = r; next = closes }
  | some r' ↦ read_loop c now serv r' inputs
]
