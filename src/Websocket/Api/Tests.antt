-- ===== src/Websocket/Api/Tests.antt =====
-- A message in one frame, and one in three.
use alilua.Prelude.{ℕ, ◌≡◌, refl, true, false, none, [], ◌∷◌, List, codes}
use alilua.Prelude.{zero, suc, some, Bytes, arith}
use alilua.Prelude.Int.{pos}
use alilua.ServStatus.{ServStatus}
use alilua.Network.Epd.{wait}
use alilua.Websocket.Transmit.{Link}
use alilua.Websocket.Api.{Args, busy, yields, lua_f_websocket_send}
use alilua.Websocket.Api.Busy.{call_again, lua_f_websocket_send-busy}
use alilua.Websocket.Api.Fragments.{Message, single, parts}
use alilua.Samples.{one_connection}

abbrev sent_messages : List Message
sent_messages =
    single false (codes "one") ∷ parts true (codes "t") (codes "w" ∷ []) (codes "o") ∷ []

abbrev counters : ServStatus
counters = record one_connection { connect_counts = 0; process_counts = 0 }

abbrev link : Link
link = record {
  serv = counters;
  status = wait;
  contents = none;
  data_len = 0;
  sended = 0;
  is_open = true;
}

abbrev letters : ℕ → Bytes
letters zero = []
letters (suc n) = 97 ∷ letters n

abbrev args : Args
args = record { count = 1; content = some (letters 300); binary = none; last = none }

lua_f_websocket_send-busy_example :
    ((lua_f_websocket_send link 0 false args (pos 4)).reply ≡ yields)
    × ((call_again link 0 args 4 args (pos 4)).reply ≡ busy)
    × ((call_again link 0 args 4 args (pos 4)).link
        ≡ (lua_f_websocket_send link 0 false args (pos 4)).link)
    × ((call_again link 0 args 4 args (pos 4)).wire ≡ [])
    × ((call_again link 0 args 4 args (pos 4)).is_multi_frame
        ≡ (lua_f_websocket_send link 0 false args (pos 4)).is_multi_frame)
lua_f_websocket_send-busy_example =
    lua_f_websocket_send-busy link 0 args args (letters 300) 4 (pos 4) refl refl (omega arith)
      (omega arith)
