-- ===== src/Network/Flush/Tests.antt =====
-- Flushes, and the example of the theorem on them.
use alilua.Prelude.{◌≡◌, refl, true, none, some, [], codes, arith, update}
use alilua.ServStatus.{ServStatus}
use alilua.Network.Epd.{Epd, idle}
use alilua.Network.Build.{Site}
use alilua.Network.Flush.{Flushed, network_flush}
use alilua.Network.Chunk.{is_http_11}
use alilua.Network.Flush.Laws.{IsNext, Flushes, network_flush-Flushes}
use alilua.Samples.{one_connection, sample_site}

abbrev site : Site
site = sample_site 4096

abbrev counters : ServStatus
counters = one_connection

-- A second part is in the buffers.
abbrev second : Epd
second = record idle {
  iov = update (λ i. none) 1 (some (codes "hi"));
  iov_buf_count = 1;
  response_content_length = 2;
  header_sended = 1;
}

second-IsNext : IsNext second
second-IsNext = record {
  ready = record {
    first = codes "hi";
    has_first = refl;
    is_some = omega arith;
    last = 0;
    count_is = refl;
    counted = refl;
  };
  header_sended = refl;
  none_sent = refl;
}

network_flush-Flushes_example :
    (f : Flushed) × (network_flush site (λ b. true) [] (some (codes "HTTP/1.1")) 2 counters second
      ≡ some f)
    × Flushes (codes "2\r\nhi\r\n") f
unfolding is_http_11
network_flush-Flushes_example =
    network_flush-Flushes site (some (codes "HTTP/1.1")) 2 (λ b. true) [] counters second
      second-IsNext

no_headers_test : network_flush site (λ b. true) [] none 0 counters idle ≡ none
unfolding network_flush
no_headers_test = refl
