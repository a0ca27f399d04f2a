-- ===== src/Network/Clear/Tests.antt =====
-- Runs and examples of what happens to a connection around a request's job.
use alilua.Prelude.{
  leb, ◌≡◌, refl, true, false, Bool, some, List, [], ◌∷◌, ◌++◌, Bytes, codes, arith,
}
use alilua.Prelude.Int.{pos, ◌-ℤ◌}
use alilua.ServStatus.{ServStatus}
use alilua.Client.Counts.{IsCounted}
use alilua.Network.Epd.{idle, Epd, read}
use alilua.Network.End.{Given, is_unread}
use alilua.Network.Reader.{on_request, Reader, Config}
use alilua.Network.Reader.Search.{search_text}
use alilua.Network.Write.{
  Answer, accepted, calls_next_proc, write_loop, send_iov, k_after, gather, next_k, skip_sent,
}
use alilua.Network.Write.Delivery.{Fits}
use alilua.Network.Read.{
  continues, continue_line, expects_continue, launch, send_continue, put_continue,
}
use alilua.Network.Read.Pieces.{deliveries}
use alilua.Network.Read.Counts.{client_of}
use alilua.Network.Clear.{
  has_body, end_body, network_be_read_on_clear, free_epd_request, clear_response, keep_or_close,
  network_end_process,
}
use alilua.Network.Clear.Body.{network_be_read_on_clear-is_unread, network_be_read_on_clear-ended}
use alilua.Network.Clear.Fresh.{Awaits, network_end_process-Awaits}
use alilua.Network.Clear.Continue.{launch-write_loop}
use alilua.Samples.{one_connection}

abbrev counters : ServStatus
counters = record one_connection { process_counts = 0; reading_counts = pos 1 }

-- A head of 20 bytes, of a request with a body of 5 bytes, of which 2 are there.
abbrev unread : Epd
unread = record idle { status = read; content_length = pos 5; data_len = 22; header_length = 20 }

abbrev rest : List Bytes
rest = codes "c" ∷ codes "de" ∷ []

abbrev given : Given
given = record {
  has_fd = true;
  read_timeout = false;
  no_file = false;
  has_se_ptr = true;
  http_ver = some (codes "HTTP/1.1");
  has_length_or_chunk = 0;
}

network_be_read_on_clear-is_unread_example :
    is_unread given (network_be_read_on_clear counters unread (deliveries rest)).epd ≡ false
unfolding network_be_read_on_clear has_body end_body ◌-ℤ◌
network_be_read_on_clear-is_unread_example =
    network_be_read_on_clear-is_unread given counters unread (deliveries rest) refl refl

network_be_read_on_clear-ended_example :
    ((network_be_read_on_clear counters unread (deliveries rest)).ended ≡ leb 25 25)
    × ((network_be_read_on_clear counters unread (deliveries rest)).is_open ≡ true)
network_be_read_on_clear-ended_example =
    network_be_read_on_clear-ended counters unread 5 rest refl (omega arith) (omega arith)

counted : IsCounted counters (client_of true true read ∷ [])
counted = record { reading_eq = refl; sending_eq = refl; active_eq = refl }

-- A connection that is kept alive, with a request and a response.
abbrev served : Reader
served = record {
  epd = record idle { keepalive = pos 1; data_len = 22; header_length = 20 };
  headers = some (codes "GET / HTTP/1.1");
  buf_size = 64;
  header_len = 19;
  callback = on_request;
}

abbrev served_counters : ServStatus
served_counters = record counters { reading_counts = pos 0 }

network_end_process-Awaits_example :
    Awaits (free_epd_request (clear_response served))
    × (◌≡◌ {A = Bool} false false)
    × IsCounted served_counters
        (client_of true true (free_epd_request (clear_response served)).epd.status ∷ [])
unfolding network_end_process keep_or_close clear_response
network_end_process-Awaits_example =
    network_end_process-Awaits true true false [] served_counters served
      (free_epd_request (clear_response served))
      (record { reading_eq = refl; sending_eq = refl; active_eq = refl }) refl

abbrev config : Config
config = record {
  buffer_size = 16;
  ep_d_buf_size = 64;
  max_request_header = 0;
  max_request_body = 0;
  malloc = λ size. true;
  stristr = search_text;
}

abbrev expecting : Reader
expecting = record served {
  epd = record idle { data_len = 14; header_length = 14 };
  headers = some (codes "100-continue" ++ 0 ∷ 0 ∷ []);
  header_len = 13;
}

abbrev at_once : List Answer
at_once =
    accepted 25
    ∷ accepted 1
    ∷ accepted 1
    ∷ accepted 1
    ∷ accepted 1
    ∷ accepted 1
    ∷ accepted 1
    ∷ accepted 1
    ∷ accepted 1
    ∷ accepted 1
    ∷ accepted 1
    ∷ accepted 1
    ∷ accepted 1
    ∷ accepted 1
    ∷ accepted 1
    ∷ accepted 1
    ∷ accepted 1
    ∷ accepted 1
    ∷ accepted 1
    ∷ accepted 1
    ∷ accepted 1
    ∷ accepted 1
    ∷ accepted 1
    ∷ accepted 1
    ∷ accepted 1
    ∷ []

expecting-expects : expects_continue config expecting ≡ true
unfolding expects_continue search_text
expecting-expects = refl

expecting-Fits : Fits (launch config served_counters expecting).reader.epd (pos 0) at_once
unfolding launch send_continue put_continue expects_continue search_text send_iov k_after gather
    next_k skip_sent
expecting-Fits = (refl, omega arith, λ h. absurd (omega arith))

launch-write_loop_example :
    ((launch config served_counters expecting).next ≡ continues)
    × ((write_loop
          (launch config served_counters expecting).serv
          (launch config served_counters expecting).reader.epd
          (pos 0)
          []
          at_once).wire
        ≡ continue_line)
    × ((write_loop
          (launch config served_counters expecting).serv
          (launch config served_counters expecting).reader.epd
          (pos 0)
          []
          at_once).action
        ≡ calls_next_proc)
    × ((write_loop
          (launch config served_counters expecting).serv
          (launch config served_counters expecting).reader.epd
          (pos 0)
          []
          at_once).serv.sending_counts
        ≡ served_counters.sending_counts)
launch-write_loop_example =
    launch-write_loop config served_counters expecting at_once expecting-expects refl refl refl
      expecting-Fits (omega arith) (omega arith)
