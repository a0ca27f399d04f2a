-- ===== src/Network/End/Tests.antt =====
-- The end of a small response, and the examples of the theorems on it.
use alilua.Prelude.{
  ◌+◌, ◌<◌, ◌≡◌, refl, true, false, none, some, [], ◌∷◌, codes, length, arith, update,
}
use alilua.Prelude.Int.{pos, ◌+ℤ◌, ◌-ℤ◌}
use alilua.ServStatus.{ServStatus}
use alilua.Network.Epd.{Epd, idle, read, send}
use alilua.Client.Counts.{reading}
use alilua.Network.Read.Counts.{client_of}
use alilua.Network.End.Reading.{network_be_end-reading_counts}
use alilua.Network.Build.{
  Site, network_build_header_out, plain_head, server_line, connection_line, length_line,
}
use alilua.Network.Build.Ready.{Waits}
use alilua.Network.End.{Given, is_unread, network_be_end}
use alilua.Network.End.Laws.{IsDone, Hands, network_be_end-Hands}
use alilua.Network.End.Counts.{in_flight, network_be_end-sending_counts}
use alilua.Samples.{one_connection, sample_site}

abbrev site : Site
site = sample_site 4096

abbrev given : Given
given = record {
  has_fd = true;
  read_timeout = false;
  no_file = false;
  has_se_ptr = true;
  http_ver = some (codes "HTTP/1.1");
  has_length_or_chunk = 0;
}

abbrev counters : ServStatus
counters = one_connection

abbrev answered : Epd
answered = record idle {
  iov = update (λ i. none) 1 (some (codes "hi"));
  iov_buf_count = 1;
  response_content_length = 2;
}

answered-Waits : Waits answered
answered-Waits = (
  record {
    first = codes "hi";
    has_first = refl;
    is_some = omega arith;
    last = 0;
    count_is = refl;
    counted = refl;
  },
  refl,
  refl,
)

answered-IsDone : IsDone given answered
unfolding is_unread ◌-ℤ◌
answered-IsDone = record { is_read = refl; in_time = refl; no_file = refl; has_se_ptr = refl }

short_head :
    length
      (network_build_header_out site given.http_ver given.has_length_or_chunk
        (record answered { status = send })).2
    < 4096
unfolding network_build_header_out plain_head server_line connection_line length_line
short_head = omega arith

network_be_end-Hands_example :
    Hands site given
      (record answered { status = send })
      (network_be_end site true given counters answered)
network_be_end-Hands_example =
    network_be_end-Hands site given counters answered answered-IsDone answered-Waits short_head

network_be_end-sending_counts_example :
    (network_be_end site true given counters answered).serv.sending_counts
    ≡ pos 0 +ℤ in_flight (network_be_end site true given counters answered).last
network_be_end-sending_counts_example =
    network_be_end-sending_counts site true given counters answered

plain_head_test :
    (network_build_header_out site (some (codes "HTTP/1.1")) 0 answered).2
    ≡ codes
        "HTTP/1.1 200 OK\r\nServer: aLiLua/1 (h)\r\nContent-Type: text/html; charset=UTF-8\r\nConnection: close\r\nContent-Length: 2\r\n\r\n"
unfolding network_build_header_out plain_head server_line connection_line length_line
plain_head_test = refl

-- A request that was rejected: it still counts as reading, and is answered.
abbrev rejected_counters : ServStatus
rejected_counters = record counters { reading_counts = pos 1 }

network_be_end-reading_counts_example :
    (network_be_end site true given rejected_counters
      (record answered { status = read })).serv.reading_counts
    ≡ pos (
        1
        + reading (
            client_of true true
              (network_be_end site true given rejected_counters
                (record answered { status = read })).epd.status
            ∷ []))
unfolding is_unread ◌-ℤ◌
network_be_end-reading_counts_example =
    network_be_end-reading_counts site true given rejected_counters
      (record answered { status = read }) true true []
      (record { reading_eq = refl; sending_eq = refl; active_eq = refl }) refl refl
