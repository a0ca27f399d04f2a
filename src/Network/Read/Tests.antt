-- ===== src/Network/Read/Tests.antt =====
-- Runs of `network_be_read`, and its theorems at concrete requests.
use alilua.Prelude.{
  ◌+◌, ◌≤◌, ◌≡◌, refl, true, false, none, ◌⊎◌, List, [], ◌∷◌, ◌++◌, Bytes, codes, length, take, All,
  arith,
}
use alilua.Prelude.Int.{pos, negsuc}
use alilua.CString.{has_prefix, atoi}
use alilua.CString.Laws.{lacks-Without}
use alilua.ServStatus.{ServStatus}
use alilua.Client.Counts.{IsCounted}
use alilua.Request.{read_head}
use alilua.Request.Printed.{Header, IsHeader}
use alilua.Request.Line.{Asked, IsAsked, print_head}
use alilua.Request.RoundTrip.{Reads}
use alilua.Network.Epd.{idle, wait, bytes_of}
use alilua.Network.Reader.{
  on_request, Reader, Config, open_buffer, make_room, take_in, count_reading, examine, enlarge,
  examine_head, is_too_long, head_length, ends_blank, after_length, learn_length, declared_length,
  line_text, check_body,
}
use alilua.Network.Reader.Room.{IsSound, HasRoom, IsReady}
use alilua.Network.Reader.Search.{search_text, search_text-FindsInside, search_text-Finds}
use alilua.Network.Read.{
  processes, waits, closes, sends_error, Input, received, would_block, put_nuls, begin_job,
  expects_continue, asks_status, behind_word, word_of, skip_blanks, launch, start_job, after_check,
  read_round, read_loop, network_be_read,
}
use alilua.Network.Read.Pieces.{deliveries}
use alilua.Network.Read.Whole.{IsFresh}
use alilua.Network.Read.Asked.{HasNoCr, network_be_read-Reads}
use alilua.Network.Read.Bounds.{FitsOpened, network_be_read-IsSound}
use alilua.Network.Read.Counts.{client_of, network_be_read-IsCounted}
use alilua.Network.Read.Limit.{network_be_read-le-max_request_header}
use alilua.Samples.{one_connection}

abbrev config : Config
config = record {
  buffer_size = 16;
  ep_d_buf_size = 64;
  max_request_header = 100;
  max_request_body = 2000;
  malloc = λ size. true;
  stristr = search_text;
}

abbrev waiting : Reader
waiting = record {
  epd = record idle { status = wait; content_length = negsuc 0 };
  headers = none;
  buf_size = 0;
  header_len = 0;
  callback = on_request;
}

abbrev counters : ServStatus
counters = record one_connection { process_counts = 0 }

abbrev line : Bytes → Bytes → Bytes
line text rest = text ++ b'\r' ∷ b'\n' ∷ rest

-- A body that comes with its head.
abbrev post : Bytes
post = line (codes "POST / HTTP/1.1") (line (codes "Content-Length: 3") (line [] (codes "a=b")))

post_runs :
    (network_be_read config 5 counters waiting (received post ∷ [])).reader.epd.content_length
    ≡ pos 3
unfolding network_be_read read_loop read_round after_check start_job begin_job launch
    expects_continue asks_status behind_word word_of skip_blanks open_buffer make_room take_in
    count_reading examine search_text atoi enlarge examine_head is_too_long head_length ends_blank
    after_length learn_length declared_length line_text check_body put_nuls
post_runs = refl

-- Bytes behind a head without a body are refused, so requests cannot be pipelined.
pipelined :
    (network_be_read config 5 counters waiting
      (received (line (codes "GET / HTTP/1.1") (line [] (codes "GET /b"))) ∷ [])).next
    ≡ sends_error 411 []
unfolding network_be_read read_loop read_round after_check open_buffer make_room take_in
    count_reading examine search_text atoi enlarge examine_head is_too_long head_length ends_blank
    after_length learn_length declared_length check_body
pipelined = refl

abbrev asked : Asked
asked = record {
  method = codes "GET";
  path = codes "/a";
  query = none;
  http_ver = codes "HTTP/1.1";
}

abbrev headers : List Header
headers = (codes "Host", codes "x.org") ∷ []

abbrev pieces : List Bytes
pieces =
    codes "GET /a HT"
    ∷ line (codes "TP/1.1") (codes "H")
    ∷ line (codes "ost: x.org") (b'\r' ∷ [])
    ∷ (b'\n' ∷ [])
    ∷ []

fresh : IsFresh waiting
fresh = record { no_data = refl; no_head = refl; unknown = refl }

asked-IsAsked : IsAsked asked
asked-IsAsked = (
  (omega arith, lacks-Without b' ' (codes "GET") refl, lacks-Without b'\n' (codes "GET") refl),
  (omega arith, lacks-Without b' ' (codes "/a") refl, lacks-Without b'\n' (codes "/a") refl),
  lacks-Without b'?' (codes "/a") refl,
  omega arith,
  (
    omega arith,
    lacks-Without b' ' (codes "HTTP/1.1") refl,
    lacks-Without b'\n' (codes "HTTP/1.1") refl,
  ),
)

headers-IsHeader : All IsHeader headers
headers-IsHeader = (
  (
    omega arith,
    lacks-Without b':' (codes "Host") refl,
    lacks-Without b'\n' (codes "Host") refl,
    omega arith,
    lacks-Without b'\n' (codes "x.org") refl,
  ),
  omega arith,
)

asked-HasNoCr : HasNoCr asked headers
asked-HasNoCr = (
  lacks-Without b'\r' (codes "GET") refl,
  lacks-Without b'\r' (codes "/a") refl,
  lacks-Without b'\r' (codes "HTTP/1.1") refl,
  (
    (lacks-Without b'\r' (codes "Host") refl, lacks-Without b'\r' (codes "x.org") refl),
    omega arith,
  ),
)

asked_plain : asks_status (print_head asked headers) ≡ false
unfolding asks_status behind_word word_of skip_blanks has_prefix
asked_plain = refl

no_continue :
    search_text
      (print_head asked headers ++ 0 ∷ 0 ∷ [])
      (codes "100-continue")
      (length (print_head asked headers) + 1)
    ≡ none
unfolding search_text
no_continue = refl

network_be_read-Reads_example :
    ((network_be_read config 5 counters waiting (deliveries pieces)).next ≡ processes)
    × Reads asked headers (
        read_head search_text 9
          (take (network_be_read config 5 counters waiting (deliveries pieces)).reader.header_len (
            bytes_of
              (network_be_read config 5 counters waiting (deliveries pieces)).reader.headers))
          [])
network_be_read-Reads_example =
    network_be_read-Reads config 5 counters waiting 9 [] asked headers (codes "GET /a HT")
      (line (codes "TP/1.1") (codes "H")
        ∷ line (codes "ost: x.org") (b'\r' ∷ [])
        ∷ (b'\n' ∷ [])
        ∷ [])
      search_text-Finds (record { memory = λ size. refl; within = refl }) fresh asked-IsAsked
      headers-IsHeader asked-HasNoCr (omega arith) (omega arith) (omega arith) no_continue
      asked_plain (omega arith) refl

waiting-IsReady : IsReady waiting
waiting-IsReady = record {
  sound = record { written = omega arith; in_buffer = omega arith; head_in = omega arith };
  fresh = λ d. refl;
}

abbrev part : List Input
part = received (codes "GET /") ∷ would_block ∷ []

part-FitsOpened : FitsOpened config 5 counters waiting part
unfolding open_buffer read_round make_room take_in count_reading after_check examine search_text
    enlarge examine_head is_too_long head_length ends_blank after_length learn_length check_body
part-FitsOpened = (omega arith, omega arith)

network_be_read-IsSound_example :
    IsSound (network_be_read config 5 counters waiting part).reader
    × (((network_be_read config 5 counters waiting part).next ≡ closes)
        ⊎ HasRoom (network_be_read config 5 counters waiting part).reader)
network_be_read-IsSound_example =
    network_be_read-IsSound config 5 counters waiting part (omega arith) search_text-FindsInside
      waiting-IsReady (λ h. refl) part-FitsOpened

counted : IsCounted counters (client_of false true wait ∷ [])
counted = record { reading_eq = refl; sending_eq = refl; active_eq = refl }

network_be_read-IsCounted_example :
    IsCounted
      (network_be_read config 5 counters waiting part).serv
      (client_of false true (network_be_read config 5 counters waiting part).reader.epd.status ∷ [])
network_be_read-IsCounted_example =
    network_be_read-IsCounted false true [] config 5 counters waiting part
      (record { not_sending = refl; empty = λ d. refl }) counted

part_waits : (network_be_read config 5 counters waiting part).next ≡ waits
unfolding network_be_read read_loop read_round after_check open_buffer make_room take_in
    count_reading examine search_text enlarge examine_head is_too_long head_length ends_blank
    after_length learn_length check_body
part_waits = refl

part_open : (network_be_read config 5 counters waiting part).reader.epd.header_length ≡ 0
unfolding network_be_read read_loop read_round after_check open_buffer make_room take_in
    count_reading examine search_text enlarge examine_head is_too_long head_length ends_blank
    after_length learn_length check_body
part_open = refl

network_be_read-le-max_request_header_example :
    (network_be_read config 5 counters waiting part).reader.epd.data_len ≤ 100
network_be_read-le-max_request_header_example =
    network_be_read-le-max_request_header config 5 counters waiting part (omega arith)
      (record { no_end = refl; short = omega arith }) part_waits part_open
