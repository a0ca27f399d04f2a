-- ===== src/Websocket/Api/Busy.antt =====
-- A payload that is under way is not overwritten.
use alilua.Prelude.{
  ℕ, ◌+◌, ◌<◌, ◌≤◌, ◌≡◌, refl, false, none, some, Bytes, length, take, ltb, arith, [],
}
use alilua.Prelude.Int.{ℤ, pos, leb_ℤ}
use alilua.Websocket.Frame.{frame_head}
use alilua.Websocket.Frame.RoundTrip.{length-frame_head-ge}
use alilua.Websocket.Transmit.{Link, start_write, ws_send_data}
use alilua.Websocket.Api.{Args, Sent, stays, choose, busy, yields, lua_f_websocket_send}

sends_head :
    (link : Link) (multi : ℕ) (args : Args) (text : Bytes) (n : ℕ)
    → link.contents ≡ none
    → args.content ≡ some text
    → 254 ≤ length text
    → 1 < n
    → lua_f_websocket_send link multi false args (pos n) ≡ record {
      link = start_write link text;
      wire = take n (
          frame_head
            (choose multi args text).0.fin
            0
            0
            0
            (choose multi args text).0.opcode
            (length text));
      is_multi_frame = (choose multi args text).1;
      reply = yields;
    }
unfolding lua_f_websocket_send ws_send_data
sends_head link multi args text n free e ht hn =
    let frame = (choose multi args text).0 in
    let two = length-frame_head-ge frame.fin 0 0 0 frame.opcode (length text) in
    let long : ltb (length (frame_head frame.fin 0 0 0 frame.opcode (length text)) + length text)
          256
        ≡ false =
      ground arith in
    let taken : leb_ℤ (pos n) (pos 1) ≡ false = ground arith in simp (free, e, long, taken) refl

busy_after :
    (link : Link) (text : Bytes) (multi : ℕ) (next : Args) (n' : ℤ)
    → ((lua_f_websocket_send (start_write link text) multi false next n').reply ≡ busy)
      × ((lua_f_websocket_send (start_write link text) multi false next n').link
          ≡ start_write link text)
      × ((lua_f_websocket_send (start_write link text) multi false next n').wire ≡ [])
      × ((lua_f_websocket_send (start_write link text) multi false next n').is_multi_frame ≡ multi)
unfolding lua_f_websocket_send start_write stays
busy_after link text multi next n' = (refl, refl, refl, refl)

-- A second call after a first one.
abbrev pub call_again : Link → ℕ → Args → ℕ → Args → ℤ → Sent
call_again link multi args n next n' =
    let first = lua_f_websocket_send link multi false args (pos n) in
    lua_f_websocket_send first.link first.is_multi_frame false next n'

-- A text of 254 bytes or more, sent on a free connection that has not ended, whose head the socket
-- took: Lua waits, and a call made before anything of the payload is sent is answered with busy, puts
-- nothing on the wire, and leaves both the payload and the place in a message of several frames as
-- they were.
pub lua_f_websocket_send-busy :
    (link : Link) (multi : ℕ) (args next : Args) (text : Bytes) (n : ℕ) (n' : ℤ)
    → link.contents ≡ none
    → args.content ≡ some text
    → 254 ≤ length text
    → 1 < n
    → ((lua_f_websocket_send link multi false args (pos n)).reply ≡ yields)
      × ((call_again link multi args n next n').reply ≡ busy)
      × ((call_again link multi args n next n').link
          ≡ (lua_f_websocket_send link multi false args (pos n)).link)
      × ((call_again link multi args n next n').wire ≡ [])
      × ((call_again link multi args n next n').is_multi_frame
          ≡ (lua_f_websocket_send link multi false args (pos n)).is_multi_frame)
lua_f_websocket_send-busy link multi args next text n n' free e ht hn =
    rw (sends_head link multi args text n free e ht hn) (
      let (is_busy, same, quiet, multi') =
        busy_after link text (choose multi args text).1 next n' in
      (refl, is_busy, same, quiet, multi'))
