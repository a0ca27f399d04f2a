-- ===== src/Websocket/Transmit/Tests.antt =====
-- A frame that is sent in one piece, and one that is sent in parts.
use alilua.Prelude.{
  ℕ, zero, suc, ◌^◌, ◌-◌, ◌≡◌, refl, true, none, List, [], ◌∷◌, ◌++◌, Bytes, arith, length, codes,
}
use alilua.Prelude.Int.{pos, negsuc}
use alilua.ServStatus.{ServStatus}
use alilua.Network.Epd.{wait}
use alilua.Network.Write.{Answer, accepted}
use alilua.Websocket.Frame.{frame_head, first_byte}
use alilua.Websocket.Transmit.{Link, ws_send_data, resumes, websocket_be_write}
use alilua.Websocket.Transmit.Laws.{ws_send_data-websocket_be_write}
use alilua.Samples.{one_connection}

abbrev counters : ServStatus
counters = record one_connection { connect_counts = 0; process_counts = 0 }

abbrev link : Link
link = record {
  serv = counters;
  status = wait;
  contents = none;
  data_len = 0;
  sended = 0;
  is_open = true;
}

abbrev letters : ℕ → Bytes
letters zero = []
letters (suc n) = 97 ∷ letters n

sends_short : (ws_send_data link 1 0 0 0 1 (codes "hi") (pos 4)).wire ≡ 129 ∷ 2 ∷ codes "hi"
unfolding ws_send_data frame_head first_byte
sends_short = refl

sends_nothing : (ws_send_data link 1 0 0 0 1 (codes "hi") (negsuc 0)).result ≡ negsuc 0
unfolding ws_send_data frame_head
sends_nothing = refl

abbrev answers : List Answer
answers = accepted 100 ∷ accepted 160 ∷ []

ws_send_data-websocket_be_write_example :
    websocket_be_write
      (ws_send_data link 1 0 0 0 2 (letters 260) (pos (length (frame_head 1 0 0 0 2 260)))).link
      (ws_send_data link 1 0 0 0 2 (letters 260) (pos (length (frame_head 1 0 0 0 2 260)))).wire
      answers
    ≡ record {
      link = record link { data_len = 2 ^ 32 - 1; sended = 260 };
      wire = frame_head 1 0 0 0 2 260 ++ letters 260;
      ending = resumes true;
    }
ws_send_data-websocket_be_write_example =
    ws_send_data-websocket_be_write link 1 0 0 0 2 (letters 260) answers (omega arith) (omega arith)
      (omega arith) (omega arith)
