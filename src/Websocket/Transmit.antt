-- ===== src/Websocket/Transmit.antt =====
-- src/websocket.c: `ws_send_data`, which sends a frame, and `websocket_be_write`, which sends what
-- is left of a long one. `network_raw_send` is not part of the repository: its result is an
-- argument.
pub mod Laws
mod Tests
use alilua.Prelude.{
  ℕ, ◌+◌, ◌-◌, ◌%◌, ◌^◌, Bool, true, false, Option, none, some, List, [], ◌∷◌, ◌++◌, Bytes, length,
  take, drop, ltb, leb, if◌then◌else◌,
}
use alilua.Prelude.Int.{ℤ, pos, negsuc, pos_part, leb_ℤ, ◌+ℤ◌, ◌-ℤ◌}
use alilua.ServStatus.{ServStatus}
use alilua.Network.Epd.{Step, send, wait, bytes_of}
use alilua.Network.Write.{Answer, accepted, again, failed}
use alilua.Websocket.Frame.{frame_head}

-- The fields that a connection sends with: `contents` is `data`, and `is_open` says whether `fd` is above -1.
pub record Link : Type 0 where
  pub serv : ServStatus
  pub status : Step
  pub contents : Option Bytes
  pub data_len : ℕ
  pub sended : ℕ
  pub is_open : Bool

-- `link`, the bytes that the socket took, and the result.
pub record SentData : Type 0 where
  pub link : Link
  pub wire : Bytes
  pub result : ℤ

-- The rest of the payload is left to `websocket_be_write`. `data_len` has 32 bits.
unfoldable pub start_write : Link → Bytes → Link
start_write link payload = record link {
  serv = record link.serv { sending_counts = link.serv.sending_counts +ℤ pos 1 };
  status = send;
  contents = some payload;
  data_len = length payload % 2 ^ 32;
  sended = 0;
}

-- `n` is what `network_raw_send` returns.
unfoldable pub ws_send_data : Link → ℕ → ℕ → ℕ → ℕ → ℕ → Bytes → ℤ → SentData
ws_send_data link fin rsv1 rsv2 rsv3 opcode payload n =
    let head = frame_head fin rsv1 rsv2 rsv3 opcode (length payload) in
    if ltb (length head + length payload) 256
    then record {
      link = link;
      wire = take (pos_part n) (head ++ payload);
      result = if leb_ℤ n (pos 0) then negsuc 0 else n;
    }
    else record {
      link = if leb_ℤ n (pos 1) then link else start_write link payload;
      wire = take (pos_part n) head;
      result = if leb_ℤ n (pos 1) then negsuc 0 else pos 1;
    }

-- What `websocket_be_write` does last: it waits, or resumes the Lua thread.
pub data Ending : Type 0 where
  waits : Ending
  resumes : Bool → Ending

pub record Written : Type 0 where
  pub link : Link
  pub wire : Bytes
  pub ending : Ending

-- All bytes are sent.
pub finish : Link → Bytes → Written
finish link wire = record {
  link = record link {
    serv = record link.serv { sending_counts = link.serv.sending_counts -ℤ pos 1 };
    status = wait;
    contents = none;
    data_len = 2 ^ 32 - 1;
  };
  wire = wire;
  ending = resumes true;
}

-- `send` failed: the connection is closed, and `sending_counts` stays as it is.
pub fail : Link → Bytes → Written
fail link wire = record {
  link =
      if link.is_open
      then record link {
        serv = record link.serv { active_counts = link.serv.active_counts -ℤ pos 1 };
        is_open = false;
      }
      else link;
  wire = wire;
  ending = resumes false;
}

-- The bytes that are left.
pub unsent : Link → Bytes
unsent link = take (link.data_len - link.sended) (drop link.sended (bytes_of link.contents))

-- Each round calls `send` once, and `answers` holds what it answers; with no answer left the
-- function waits. `wire` is what the socket took.
pub websocket_be_write : Link → Bytes → List Answer → Written
websocket_be_write link wire [] =
    if ltb link.sended link.data_len
    then record { link = link; wire = wire; ending = waits }
    else finish link wire
websocket_be_write link wire (again ∷ _) =
    if ltb link.sended link.data_len
    then record { link = link; wire = wire; ending = waits }
    else finish link wire
websocket_be_write link wire (failed ∷ _) =
    if ltb link.sended link.data_len then fail link wire else finish link wire
websocket_be_write link wire (accepted n ∷ rest) =
    let later =
      websocket_be_write (record link { sended = (link.sended + n) % 2 ^ 32 })
        (wire ++ take n (unsent link)) rest in
    if ltb link.sended link.data_len then later else finish link wire
