-- ===== src/Websocket/Api.antt =====
-- src/websocket.c: `lua_f_websocket_send`, which Lua sends a message with, in one frame or more.
pub mod Busy
pub mod Fragments
pub mod Wire
mod Tests
use alilua.Prelude.{
  ℕ, Bool, true, false, Option, none, some, List, [], ◌∷◌, Bytes, ltb, ◌==◌, ◌&&◌, if◌then◌else◌,
}
use alilua.Prelude.Int.{ℤ, pos, negsuc, pos_part, neg_part}
use alilua.Websocket.Transmit.{Link, SentData, ws_send_data}

-- The arguments: how many there are, the first one where it is a string, and the second and third
-- where they are Booleans.
pub record Args : Type 0 where
  pub count : ℕ
  pub content : Option Bytes
  pub binary : Option Bool
  pub last : Option Bool

pub record Frame : Type 0 where
  pub fin : ℕ
  pub opcode : ℕ
  pub payload : Bytes

-- `WS_OPCODE_BINARY` or `WS_OPCODE_TEXT`.
abbrev pub data_opcode : Option Bool → ℕ
data_opcode none = 1
data_opcode (some false) = 1
data_opcode (some true) = 2

-- The frame, and `is_multi_frame` after it.
pub choose : ℕ → Args → Bytes → Frame × ℕ
choose is_multi_frame args text =
    if ltb args.count 2 && is_multi_frame == 1
    then (record { fin = 0; opcode = 0; payload = text }, is_multi_frame)
    else elim args.last [
      | some false ↦ (record { fin = 0; opcode = data_opcode args.binary; payload = text }, 1)
      | some true ↦ (record { fin = 1; opcode = 0; payload = text }, 0)
      | none ↦
          (record { fin = 1; opcode = data_opcode args.binary; payload = text }, is_multi_frame)
    ]

-- What Lua gets: nothing, nil with a message, a wait for the rest of the payload, or true.
pub data Reply : Type 0 where
  nothing busy send_error yields sent : Reply

pub record Sent : Type 0 where
  pub link : Link
  pub wire : Bytes
  pub is_multi_frame : ℕ
  pub reply : Reply

abbrev reply_of : ℤ → Reply
reply_of (pos n) = if n == 1 then yields else sent
reply_of (negsuc n) = if n == 0 then send_error else sent

-- A call that sends nothing.
stays : Link → ℕ → Reply → Sent
stays link is_multi_frame r = record {
  link = link;
  wire = [];
  is_multi_frame = is_multi_frame;
  reply = r;
}

-- `n` is what `network_raw_send` returns. Without a string the
-- message that is pushed is not returned.
pub lua_f_websocket_send : Link → ℕ → Bool → Args → ℤ → Sent
lua_f_websocket_send link is_multi_frame ended args n =
    if ended then stays link is_multi_frame nothing else elim link.contents [
      | some rest ↦ stays link is_multi_frame busy
      | none ↦ elim args.content [
        | none ↦ stays link is_multi_frame nothing
        | some text ↦
            let (frame, multi) = choose is_multi_frame args text in
            let s = ws_send_data link frame.fin 0 0 0 frame.opcode text n in
            record {
              link = s.link;
              wire = s.wire;
              is_multi_frame = multi;
              reply = reply_of s.result;
            }
      ]
    ]
