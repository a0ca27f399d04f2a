-- ===== src/Network/Write.antt =====
-- src/network.c: `network_be_write`, which puts the buffers of a response on the wire whenever the
-- socket takes bytes, for a connection without TLS and a response that is no file.
pub mod Gather
pub mod Delivery
pub mod Next
pub mod Cleared
pub mod Calls
mod Tests
use alilua.Prelude.{
  ℕ, zero, suc, ◌+◌, ◌-◌, ◌%◌, Bool, true, false, Option, none, some, List, [], ◌∷◌, ◌++◌, Bytes,
  length, take, drop, ltb, leb, ◌==◌, ◌&&◌, ◌||◌, if◌then◌else◌,
}
use alilua.Prelude.Int.{ℤ, pos, negsuc, pos_part, neg_part, sub_ℕ, ◌-ℤ◌, leb_ℤ}
use alilua.ServStatus.{ServStatus}
use alilua.Network.Epd.{is_read, is_send, Epd, Step, process, send, max_iov_count, bytes_of}

-- The buffers `iov[j]`, `iov[j + 1]`, … of a number of rounds.
abbrev pub entries : (ℕ → Option Bytes) → ℕ → ℕ → List Bytes
entries iov j zero = []
entries iov j (suc n) = bytes_of (iov j) ∷ entries iov (j + 1) n

-- The header buffer is sent with the first part of a response only.
abbrev pub first_entry : Epd → ℕ
first_entry epd = if epd.header_sended == 0 || epd.header_sended == 5 then 0 else 1

abbrev pub buffers : Epd → List Bytes
buffers epd = entries epd.iov (first_entry epd) (epd.iov_buf_count - first_entry epd)

-- `k` is set at the first buffer that is not sent yet, and set again, below zero, if it was 0.
-- `sended` counts the bytes in front of the buffer.
unfoldable pub next_k : ℕ → ℕ → ℤ → ℤ
next_k done sended k =
    if leb_ℤ k (pos 0) && leb_ℤ (pos 0) k && ltb 0 done then sub_ℕ done sended else k

-- The loop that fills `send_iov`, where `done` bytes were sent before. It also counts `be_len`,
-- which is only logged.
unfoldable pub gather : ℕ → ℕ → ℤ → List Bytes → List Bytes → List Bytes × ℤ
gather done sended k chosen [] = (chosen, k)
gather done sended k chosen (b ∷ rest) =
    let unsent = ltb done (sended + length b) in
    gather done (sended + length b) (if unsent then next_k done sended k else k)
      (if unsent then chosen ++ b ∷ [] else chosen) rest

-- `if(k > 0)`: the part of the first buffer that was sent is left out.
unfoldable pub skip_sent : List Bytes × ℤ → List Bytes
skip_sent ([], k) = []
skip_sent ((b ∷ rest), k) = if leb_ℤ k (pos 0) then b ∷ rest else drop (pos_part k) b ∷ rest

-- What is handed to `writev`; `k` is what the round before left.
unfoldable pub send_iov : Epd → ℤ → List Bytes
send_iov epd k = skip_sent (gather epd.response_buf_sended 0 k [] (buffers epd))

-- `k` after the round: `k = 0` stands under `if(k > 0)`.
unfoldable pub k_after : Epd → ℤ → ℤ
k_after epd k =
    let k' = (gather epd.response_buf_sended 0 k [] (buffers epd)).1 in
    if leb_ℤ k' (pos 0) then k' else pos 0

abbrev pub concat : List Bytes → Bytes
concat [] = []
concat (b ∷ rest) = b ++ concat rest

-- What `writev` answers: a number of bytes, that it would block, or another error.
pub data Answer : Type 0 where
  accepted : ℕ → Answer
  again failed : Answer

-- What the function does last: it waits for the socket, calls `next_proc`, calls
-- `network_end_process`, or resumes the Lua thread that waits in a flush.
pub data Action : Type 0 where
  waits calls_next_proc : Action
  ends : ℕ → Action
  resumes : Bool → Action

pub record Outcome : Type 0 where
  pub serv : ServStatus
  pub epd : Epd
  pub wire : Bytes
  pub action : Action

-- `iov[1]` and what follows is freed; the connection goes on with a response that was flushed.
pub end_flush : Epd → Epd
end_flush epd = record epd {
  iov = λ i. if i == 0 then epd.iov 0 else if ltb i max_iov_count then none else epd.iov i;
  response_content_length = 0;
  iov_buf_count = 1;
  response_buf_sended = 0;
  status = process;
}

-- What both ends of the loop share: the status, the counters, and the total.
pub leave_send : ServStatus → Epd → ServStatus × Epd
leave_send serv epd = (
  record serv { sending_counts = serv.sending_counts -ℤ pos 1 },
  record epd {
    status = process;
    total_response_content_length = epd.total_response_content_length + epd.response_content_length;
  },
)

-- `header_sended` is 1 while a response is flushed in parts.
pub conclude : ServStatus → Epd → Bytes → ℕ → Bool → Outcome
conclude serv epd wire code done =
    let (serv', left) = leave_send serv epd in
    if epd.header_sended == 1
    then record {
      serv = serv';
      epd = end_flush left;
      wire = wire;
      action = if epd.next_proc then calls_next_proc else resumes done;
    }
    else record {
      serv = serv';
      epd = left;
      wire = wire;
      action = if epd.next_proc then calls_next_proc else ends code;
    }

-- Everything is sent.
pub finish : ServStatus → Epd → Bytes → Outcome
finish serv epd wire =
    conclude serv
      (record epd { header_sended = if epd.header_sended == 5 then 1 else epd.header_sended }) wire
      0 true

-- `writev` failed.
pub fail : ServStatus → Epd → Bytes → Outcome
fail serv epd wire = conclude serv (record epd { keepalive = pos 0 }) wire 499 false

-- The loop; `k` starts at 0. Each round calls `writev` once, and `answers` holds what it answers;
-- with no answer left the function has not returned, which counts as waiting. `wire` is what the
-- socket took.
unfoldable pub write_loop : ServStatus → Epd → ℤ → Bytes → List Answer → Outcome
write_loop serv epd k wire [] = record { serv = serv; epd = epd; wire = wire; action = waits }
write_loop serv epd k wire (again ∷ _) = record {
  serv = serv;
  epd = epd;
  wire = wire;
  action = waits;
}
write_loop serv epd k wire (failed ∷ _) = fail serv epd wire
write_loop serv epd k wire (accepted n ∷ rest) =
    let epd' = record epd { response_buf_sended = epd.response_buf_sended + n } in
    let wire' = wire ++ take n (concat (send_iov epd k)) in
    let later = write_loop serv epd' (k_after epd k) wire' rest in
    if leb epd.response_content_length epd'.response_buf_sended
    then finish serv epd' wire'
    else later

unfoldable pub network_be_write : ServStatus → Epd → Bytes → List Answer → Outcome
network_be_write serv epd wire answers =
    if is_send epd.status && ltb epd.response_buf_sended epd.response_content_length
    then write_loop serv epd (pos 0) wire answers
    else record { serv = serv; epd = epd; wire = wire; action = waits }
