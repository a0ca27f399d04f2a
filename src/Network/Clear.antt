-- ===== src/Network/Clear.antt =====
-- src/network.c: what is called for a connection while its request is answered and afterwards:
-- `network_be_read_on_clear`, which reads what is left of a body, `network_be_read_on_processing`,
-- `send_100_continue_then_process` and the end of a request in `network_end_process`.
pub mod Body
pub mod Fresh
pub mod Continue
mod Tests
use alilua.Prelude.{
  ℕ, ◌+◌, Bool, true, false, not, Option, none, some, List, [], ◌∷◌, Bytes, length, update, ltb,
  ◌&&◌, ◌||◌, if◌then◌else◌,
}
use alilua.Prelude.Int.{pos, negsuc, ◌-ℤ◌, leb_ℤ}
use alilua.ServStatus.{ServStatus}
use alilua.Network.Epd.{Epd, process, wait, max_iov_count}
use alilua.Network.Reader.{Callback, on_request, Reader}
use alilua.Network.Read.{Input, received, would_block, broken}

-- The connection after a call: `is_open` says whether `fd` is above -1 and `se_ptr` set. `ended` says
-- that `network_be_end` was called.
pub record Cleared : Type 0 where
  pub serv : ServStatus
  pub epd : Epd
  pub is_open : Bool
  pub ended : Bool

-- The client is gone: the socket is closed, and `network_be_end` is called.
pub drop_client : ServStatus → Epd → Cleared
drop_client serv epd = record {
  serv = record serv {
    active_counts = serv.active_counts -ℤ pos 1;
    reading_counts = serv.reading_counts -ℤ pos 1;
  };
  epd = record epd { status = process; keepalive = pos 0 };
  is_open = false;
  ended = true;
}

-- `epd->content_length <= epd->data_len - epd->_header_length`
pub has_body : Epd → Bool
has_body epd = leb_ℤ epd.content_length (pos epd.data_len -ℤ pos epd.header_length)

-- The body is there.
pub end_body : ServStatus → Epd → Cleared
end_body serv epd = record {
  serv = record serv { reading_counts = serv.reading_counts -ℤ pos 1 };
  epd = record epd { status = process };
  is_open = true;
  ended = true;
}

-- The bytes are not kept; `inputs` holds what `recv` answers.
pub network_be_read_on_clear : ServStatus → Epd → List Input → Cleared
network_be_read_on_clear serv epd [] = record {
  serv = serv;
  epd = epd;
  is_open = true;
  ended = false;
}
network_be_read_on_clear serv epd (would_block ∷ _) = record {
  serv = serv;
  epd = epd;
  is_open = true;
  ended = false;
}
network_be_read_on_clear serv epd (broken ∷ _) = drop_client serv epd
network_be_read_on_clear serv epd (received [] ∷ _) = drop_client serv epd
network_be_read_on_clear serv epd (received (b ∷ bs) ∷ rest) =
    let epd' : Epd = record epd { data_len = epd.data_len + length (b ∷ bs) } in
    let later = network_be_read_on_clear serv epd' rest in
    if has_body epd' then end_body serv epd' else later

-- The bytes that `recv` gives are not kept. The loop ends when it gives nothing or fails, so `n <= 0`
-- always holds behind it, and the request goes on without its client.
pub network_be_read_on_processing : ServStatus → Epd → Cleared
network_be_read_on_processing serv epd = record {
  serv = record serv { active_counts = serv.active_counts -ℤ pos 1 };
  epd = record epd { keepalive = pos 0 };
  is_open = false;
  ended = false;
}

-- `iov[0].iov_len = 0`
pub empty_first : Option Bytes → Option Bytes
empty_first none = none
empty_first (some b) = some []

-- `worker_process` is called then.
pub send_100_continue_then_process : Epd → Epd
send_100_continue_then_process epd = record epd {
  next_proc = false;
  iov = update epd.iov 0 (empty_first (epd.iov 0));
  response_content_length = 0;
  iov_buf_count = 0;
}

-- `free_epd_request`, for a connection that is no websocket.
pub free_epd_request : Reader → Reader
free_epd_request r = record r {
  epd = record (r.epd) {
    iov = λ i. if ltb i max_iov_count then none else r.epd.iov i;
    response_content_length = 0;
    iov_buf_count = 0;
    response_buf_sended = 0;
    data_len = 0;
    header_length = 0;
    content_length = negsuc 0;
    process_timeout = 0;
  };
  headers = none;
  header_len = 0;
  callback = on_request;
}

-- `network_end_process` up to the access log: the status and the buffers of the response.
pub clear_response : Reader → Reader
clear_response r = record r {
  epd = record (r.epd) {
    status = wait;
    iov = λ i. if ltb i max_iov_count then none else r.epd.iov i;
    iov_buf_count = 0;
  };
}

-- `keepalive == 1 && !check_process_for_exit()`; none when `close_client` is called.
pub keep_or_close : Bool → Reader → Option Reader
keep_or_close exiting r =
    if leb_ℤ (pos 1) r.epd.keepalive && leb_ℤ r.epd.keepalive (pos 1) && not exiting
    then some (free_epd_request r)
    else none

-- Without what it writes to the access log.
pub network_end_process : Bool → Reader → Option Reader
network_end_process exiting r = keep_or_close exiting (clear_response r)
