-- ===== src/LuaExt/Body/Tests.antt =====
-- A body that comes in three parts, and a client that goes away.
use alilua.Prelude.{◌≡◌, refl, true, List, [], ◌∷◌, ◌++◌, Bytes, codes, drop, take, arith}
use alilua.Prelude.Int.{pos, negsuc, ◌-ℤ◌}
use alilua.ServStatus.{ServStatus}
use alilua.Client.Counts.{IsCounted}
use alilua.Network.Epd.{idle, read}
use alilua.Network.Read.{Input, received}
use alilua.Network.Read.Counts.{client_of}
use alilua.LuaExt.Body.{
  error, Reading, stop_reading, close_reading, read_parts, no_part, network_be_read_request_body,
}
use alilua.LuaExt.Body.Whole.{read_all, arrivals, all_bytes, read_all-body}
use alilua.LuaExt.Body.Counts.{network_be_read_request_body-IsCounted}
use alilua.Samples.{one_connection}

abbrev counters : ServStatus
counters = one_connection

-- A head of 4 bytes, and 2 of the 7 bytes of the body.
abbrev headers : Bytes
headers = codes "HEADbo"

abbrev begun : Reading
begun = record {
  serv = counters;
  epd = record idle { content_length = pos 7; data_len = 6; header_length = 4 };
  has_contents = true;
  is_open = true;
}

abbrev arrived : List (List Bytes)
arrived = (codes "dy" ∷ codes "-" ∷ []) ∷ (codes "in" ∷ []) ∷ []

read_all-body_example :
    read_all headers begun (arrivals arrived)
    ≡ (drop 4 (take 6 headers) ++ all_bytes arrived, error (codes "eof"))
read_all-body_example =
    read_all-body headers begun 7 arrived refl refl refl (omega arith) (omega arith) (omega arith)

abbrev waiting : Reading
waiting = record begun {
  serv = record counters { reading_counts = pos 1 };
  epd = record idle { status = read; content_length = pos 7; data_len = 6; header_length = 4 };
}

abbrev some_input : List Input
some_input = received (codes "dy") ∷ received [] ∷ []

network_be_read_request_body-IsCounted_example :
    IsCounted (network_be_read_request_body true (λ n. true) waiting some_input).0.serv (
      client_of true
        (network_be_read_request_body true (λ n. true) waiting some_input).0.is_open
        (network_be_read_request_body true (λ n. true) waiting some_input).0.epd.status
      ∷ [])
network_be_read_request_body-IsCounted_example =
    network_be_read_request_body-IsCounted true true [] (λ n. true) waiting some_input refl refl
      (record { reading_eq = refl; sending_eq = refl; active_eq = refl }) refl

-- The connection is subtracted twice.
closed_at_once :
    (network_be_read_request_body true (λ n. true) waiting (received [] ∷ [])).0.serv.active_counts
    ≡ negsuc 0
unfolding network_be_read_request_body read_parts no_part close_reading stop_reading ◌-ℤ◌
closed_at_once = refl
