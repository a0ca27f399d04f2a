-- ===== src/Websocket/Receive/Tests.antt =====
-- Frames of a client that arrive in parts.
use alilua.Prelude.{ℕ, ◌≡◌, refl, true, false, List, [], ◌∷◌, ◌++◌, Bytes, arith, codes}
use alilua.Prelude.Int.{pos, negsuc}
use alilua.ServStatus.{ServStatus}
use alilua.Network.Epd.{wait}
use alilua.Websocket.Frame.{read_head, unmask}
use alilua.Websocket.Receive.{
  Ws, got, store, take_head, payload_of, deliver, receive, to_int, websocket_be_read,
}
use alilua.Websocket.Receive.Collect.{arriving, whole}
use alilua.Websocket.Receive.Masked.{masked_frame, no_bytes}
use alilua.Websocket.Receive.Frames.{waiting, websocket_be_read-masked_frame}
use alilua.Samples.{one_connection}

abbrev counters : ServStatus
counters = record one_connection { connect_counts = 0; process_counts = 0 }

abbrev ws : Ws
ws = record {
  status = wait;
  buf = [];
  content_length = negsuc 0;
  frame_mask = false;
  masking_key_offset = 0;
  ended = false;
  keepalive = pos 1;
}

abbrev key : Bytes
key = 1 ∷ 2 ∷ 3 ∷ 4 ∷ []

-- The bytes behind a whole frame of one `recv` are lost: the second frame never reaches Lua.
second_frame_lost :
    (websocket_be_read counters ws (
      got (masked_frame 1 1 key (codes "hi") ++ masked_frame 1 1 key (codes "ho")) no_bytes
      ∷ [])).messages
    ≡ (websocket_be_read counters ws
        (got (masked_frame 1 1 key (codes "hi")) no_bytes ∷ [])).messages
unfolding websocket_be_read receive take_head store deliver payload_of read_head unmask to_int
second_frame_lost = refl

abbrev parts : List (Bytes × (ℕ → ℕ))
parts = (2 ∷ 3 ∷ 4 ∷ 105 ∷ [], no_bytes) ∷ (105 ∷ [], no_bytes) ∷ []

parts-whole : 129 ∷ 130 ∷ 1 ∷ whole parts ≡ masked_frame 1 1 key (codes "hk")
unfolding unmask
parts-whole = refl

websocket_be_read-masked_frame_example :
    websocket_be_read counters (waiting ws) (arriving ((129 ∷ 130 ∷ 1 ∷ [], no_bytes) ∷ parts))
    ≡ record {
      serv = counters;
      ws = record ws { frame_mask = true; masking_key_offset = 2 };
      messages = record { payload = codes "hk"; opcode = 1; fin = true } ∷ [];
      close_sent = false;
    }
websocket_be_read-masked_frame_example =
    websocket_be_read-masked_frame counters ws 1 1 key (codes "hk") (1 ∷ []) no_bytes parts
      parts-whole (omega arith) (omega arith) (omega arith) (omega arith) refl (omega arith)
      (omega arith) (omega arith)
