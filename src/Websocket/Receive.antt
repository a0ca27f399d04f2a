-- ===== src/Websocket/Receive.antt =====
-- src/websocket.c: `websocket_be_read`, which collects the bytes of a frame and hands its payload to
-- Lua. Allocation is taken to succeed.
pub mod Collect
pub mod Masked
pub mod Frames
mod Tests
use alilua.Prelude.{
  ℕ, zero, suc, ◌+◌, ◌-◌, ◌%◌, ◌^◌, Bool, true, false, not, Option, none, some, List, [], ◌∷◌, ◌++◌,
  Bytes, length, take, drop, ltb, leb, ◌==◌, ◌&&◌, if◌then◌else◌,
}
use alilua.Prelude.Int.{ℤ, pos, negsuc, ◌+ℤ◌, ◌-ℤ◌}
use alilua.ServStatus.{ServStatus}
use alilua.Network.Epd.{is_read, is_send, Step, read, process, send, wait}
use alilua.Websocket.Frame.{Head, read_head, unmask}
use alilua.Websocket.Frame.RoundTrip.{at_index}

-- `buf` holds the first `data_len` bytes of `headers`. `content_length` is -1 until the head of a
-- frame was read.
pub record Ws : Type 0 where
  pub status : Step
  pub buf : Bytes
  pub content_length : ℤ
  pub frame_mask : Bool
  pub masking_key_offset : ℕ
  pub ended : Bool
  pub keepalive : ℤ

-- The arguments of the Lua function `__websocket_on__`.
pub record Message : Type 0 where
  pub payload : Bytes
  pub opcode : ℕ
  pub fin : Bool

-- What a call did: the frames that were handed on, and whether a close frame was sent.
pub record Received : Type 0 where
  pub serv : ServStatus
  pub ws : Ws
  pub messages : List Message
  pub close_sent : Bool

-- Conversion to an `int` of 32 bits.
pub to_int : ℕ → ℤ
to_int n = let low = n % 2 ^ 32 in if ltb low (2 ^ 31) then pos low else negsuc (2 ^ 32 - low - 1)

-- The bytes that `recv` put behind the others; a first part starts the count anew.
pub store : Ws → Bytes → Ws
store ws chunk = record ws {
  status = read;
  buf = if is_read ws.status then ws.buf ++ chunk else take (length chunk) (ws.buf ++ chunk);
}

abbrev pub is_unset : ℤ → Bool
is_unset (pos n) = false
is_unset (negsuc n) = n == 0

-- `if(epd->data_len >= 2 && epd->content_length == -1)`; the flag says that it is a close frame.
-- `stale` is what lies in `headers` behind the received bytes.
pub take_head : (ℕ → ℕ) → Ws → Ws × Bool
take_head stale ws =
    let head = read_head (at_index ws.buf stale) in
    let all = to_int (head.payload_length + head.offset + 4) in
    if leb 2 (length ws.buf) && is_unset ws.content_length
    then (
      record ws {
        frame_mask = head.masked;
        masking_key_offset = head.offset;
        content_length = if head.masked then all else all -ℤ pos 4;
      },
      head.opcode == 8,
    )
    else (ws, false)

-- The payload of a frame of `total` bytes.
pub payload_of : (ℕ → ℕ) → Ws → ℕ → Bytes
payload_of stale ws total =
    let length_left = total - ws.masking_key_offset in
    if ws.frame_mask
    then unmask (λ i. at_index ws.buf stale (ws.masking_key_offset + i)) 0
        (take (length_left - 4) (drop (ws.masking_key_offset + 4) ws.buf))
    else take length_left (drop ws.masking_key_offset ws.buf)

-- `if(epd->content_length > -1)`: a whole frame is handed on, and the buffer is empty again.
pub deliver : (ℕ → ℕ) → ServStatus → Ws → ℤ → Received
deliver stale serv ws (negsuc n) = record {
  serv = serv;
  ws = ws;
  messages = [];
  close_sent = false;
}
deliver stale serv ws (pos total) =
    let head = read_head (at_index ws.buf stale) in
    if leb total (length ws.buf)
    then record {
      serv = record serv { reading_counts = serv.reading_counts -ℤ pos 1 };
      ws = record ws { status = wait; buf = []; content_length = negsuc 0 };
      messages =
          record { payload = payload_of stale ws total; opcode = head.opcode; fin = head.fin } ∷ [];
      close_sent = false;
    }
    else record { serv = serv; ws = ws; messages = []; close_sent = false }

-- The connection is to be closed: a close frame was sent to the peer.
pub close_ws : ServStatus → Ws → Received
close_ws serv ws = record {
  serv = serv;
  ws = record ws { ended = true; keepalive = pos 0 };
  messages = [];
  close_sent = true;
}

-- One round of the loop, for `recv` that returned `chunk`.
pub receive : ServStatus → Ws → Bytes → (ℕ → ℕ) → Received
receive serv ws chunk stale =
    let serv' =
      if is_read ws.status
      then serv
      else record serv { reading_counts = serv.reading_counts +ℤ pos 1 } in
    let (headed, closing) = take_head stale (store ws chunk) in
    if closing then close_ws serv' headed else deliver stale serv' headed headed.content_length

-- What `recv` returns: bytes, with what lies behind them in memory, 0 for a peer that closed, that it would block, or another error.
pub data Recv : Type 0 where
  got : Bytes → (ℕ → ℕ) → Recv
  peer_closed again failed : Recv

-- The loop; it returns after a close frame. With nothing left to receive it waits for more.
pub websocket_be_read : ServStatus → Ws → List Recv → Received
websocket_be_read serv ws [] = record { serv = serv; ws = ws; messages = []; close_sent = false }
websocket_be_read serv ws (again ∷ _) = record {
  serv = serv;
  ws = ws;
  messages = [];
  close_sent = false;
}
websocket_be_read serv ws (failed ∷ _) = record {
  serv = serv;
  ws = record ws { ended = true };
  messages = [];
  close_sent = false;
}
websocket_be_read serv ws (peer_closed ∷ _) = close_ws serv ws
websocket_be_read serv ws (got chunk stale ∷ rest) =
    let r = receive serv ws chunk stale in
    let later = websocket_be_read r.serv r.ws rest in
    if r.close_sent then r else record later { messages = r.messages ++ later.messages }
