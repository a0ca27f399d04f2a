-- ===== src/Network/Epd.antt =====
-- src/network.h and src/main.h: the fields of `epdata_t` that the response goes through.
use alilua.Prelude.{ℕ, zero, suc, Bool, true, false, Option, none, some, [], ◌++◌, Bytes}
use alilua.Prelude.Int.{ℤ, pos}

-- `_MAX_IOV_COUNT`
abbrev pub max_iov_count : ℕ
max_iov_count = 238

-- The `STEP_...` constants that `status` holds.
pub data Step : Type 0 where
  read process send wait : Step

abbrev pub is_read : Step → Bool
is_read read = true
is_read _ = false

abbrev pub is_send : Step → Bool
is_send send = true
is_send _ = false

-- `iov i` is `none` where `iov_base` is NULL, and else the `iov_len` bytes written there. Two
-- fields are only tested in the modelled code: `sendfile` says whether `response_sendfile_fd` is
-- above -1, and `next_proc` whether the callback of that name is set.
pub record Epd : Type 0 where
  pub iov : ℕ → Option Bytes
  pub iov_buf_count : ℕ
  pub response_content_length : ℕ
  pub response_buf_sended : ℕ
  pub total_response_content_length : ℕ
  pub header_sended : ℕ
  pub process_timeout : ℕ
  pub sendfile : Bool
  pub next_proc : Bool
  pub status : Step
  pub keepalive : ℤ
  pub content_length : ℤ
  pub data_len : ℕ
  pub header_length : ℕ

-- A connection that has answered nothing yet.
abbrev pub idle : Epd
idle = record {
  iov = λ i. none;
  iov_buf_count = 0;
  response_content_length = 0;
  response_buf_sended = 0;
  total_response_content_length = 0;
  header_sended = 0;
  process_timeout = 0;
  sendfile = false;
  next_proc = false;
  status = process;
  keepalive = pos 0;
  content_length = pos 0;
  data_len = 0;
  header_length = 0;
}

abbrev pub bytes_of : Option Bytes → Bytes
bytes_of none = []
bytes_of (some b) = b

-- The bytes in `iov[1]` to `iov[n]`.
abbrev pub body : (ℕ → Option Bytes) → ℕ → Bytes
body iov zero = []
body iov (suc n) = body iov n ++ bytes_of (iov (suc n))
