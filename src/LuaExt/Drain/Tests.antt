-- ===== src/LuaExt/Drain/Tests.antt =====
-- An output of which a rest waits, and a socket that takes each flush in two calls.
use alilua.Prelude.{
  Bytes, sym, ltb, ◌&&◌, ◌+◌, ◌≡◌, ◌≢◌, refl, ap, ◌∙◌, true, none, some, inr, List, [], ◌∷◌, ◌++◌,
  arith, codes, length, drop, update, if_ind, leb, take, take_all, length-drop,
}
use alilua.Prelude.Int.{pos}
use alilua.ServStatus.{ServStatus}
use alilua.Network.Epd.{Epd, idle, is_send}
use alilua.Network.Chunk.{is_http_11, network_add_chunk_metas}
use alilua.Network.Chunk.Coding.{Chunked}
use alilua.Network.Build.{Site}
use alilua.Network.Send.Buffers.{contents}
use alilua.Network.Write.{
  Answer, accepted, again, concat, send_iov, Action, waits, calls_next_proc, ends, resumes, Outcome,
  write_loop, network_be_write,
}
use alilua.Network.Write.Calls.{IsOnTheWay, called_again, write_calls}
use alilua.Network.Write.Gather.{message, concat-send_iov}
use alilua.Network.Write.Delivery.{advance, advance-on_wire, finish-ends}
use alilua.LuaExt.Drain.{echo_out}
use alilua.LuaExt.Drain.Middle.{IsMiddle}
use alilua.LuaExt.Drain.Round.{TakesAll}
use alilua.LuaExt.Drain.Refill.{Streams}
use alilua.LuaExt.Drain.Stream.{echo_out-Streams, echo_out-Chunked}
use alilua.Samples.{one_connection, sample_site}

abbrev site : Site
site = sample_site 12

abbrev counters : ServStatus
counters = one_connection

-- The last buffer that is filled has room for two bytes.
abbrev nearly_full : Epd
nearly_full = record idle {
  iov = update (update (λ i. none) 1 (some (codes "ab"))) 236 (some (codes "0123456789"));
  iov_buf_count = 236;
  response_content_length = 12;
  header_sended = 1;
}

nearly_full-IsMiddle : IsMiddle nearly_full
nearly_full-IsMiddle = record {
  next = record {
    ready = record {
      first = codes "ab";
      has_first = refl;
      is_some = omega arith;
      last = 235;
      count_is = refl;
      counted = refl;
    };
    header_sended = refl;
    none_sent = refl;
  };
  in_time = omega arith;
  no_file = refl;
}

-- The socket would block at first, and then takes all at once.
abbrev later_all : Epd → List (List Answer)
later_all epd =
    (again ∷ []) ∷ (accepted (length (drop epd.response_buf_sended (message epd))) ∷ []) ∷ []

abbrev all_at_once : Epd → List Answer
all_at_once epd = accepted (length (drop epd.response_buf_sended (message epd))) ∷ []

blocks :
    (serv : ServStatus) (epd : Epd)
    → network_be_write serv epd [] (again ∷ [])
      ≡ record { serv = serv; epd = epd; wire = []; action = waits }
unfolding network_be_write write_loop
blocks serv epd =
    if_ind (λ (o : Outcome). o ≡ record { serv = serv; epd = epd; wire = []; action = waits })
      (is_send epd.status && ltb epd.response_buf_sended epd.response_content_length) (λ _. refl)
      (λ _. refl)

-- The second call does not wait.
all_at_once-ne-waits :
    (serv : ServStatus) (epd : Epd)
    → IsOnTheWay epd []
    → (network_be_write serv epd [] (all_at_once epd)).action ≢ waits
unfolding network_be_write write_loop
all_at_once-ne-waits serv epd w =
    let s = w.sending in
    let n = length (drop epd.response_buf_sended (message epd)) in
    let e = advance epd n in
    let whole : epd.response_buf_sended + n ≡ length (message epd) =
      omega (arith, s.counted, s.begun, length-drop epd.response_buf_sended (message epd)) in
    let test : is_send epd.status && ltb epd.response_buf_sended epd.response_content_length
        ≡ true =
      rw w.is_sending (ground (arith, w.some_left)) in
    if_ind (λ (o : Outcome). o.action ≢ waits)
      (is_send epd.status && ltb epd.response_buf_sended epd.response_content_length)
      (λ _.
        if_ind (λ (o : Outcome). o.action ≢ waits)
          (leb epd.response_content_length e.response_buf_sended)
          (λ _.
            (finish-ends serv epd e ([] ++ take n (concat (send_iov epd (pos 0)))) (
              advance-on_wire epd [] n s.on_wire
              ∙ take_all e.response_buf_sended (message epd) (omega (arith, whole)))).0)
          (λ more. absurd (ground (arith, whole, s.counted))))
      (λ not_sent. absurd (cc))

-- The calls end where the last one does.
last_call :
    (later : Outcome → Outcome) (o : Outcome) (a : Action) → a ≢ waits → called_again later o a ≡ o
unfolding called_again
last_call later o waits ne = absurd (ne refl)
last_call later o calls_next_proc ne = refl
last_call later o (ends code) ne = refl
last_call later o (resumes done) ne = refl

later_all-TakesAll : TakesAll later_all
unfolding write_calls called_again
later_all-TakesAll serv epd w =
    let o = network_be_write serv epd [] (all_at_once epd) in
    let moves = all_at_once-ne-waits serv epd w in
    rw (blocks serv epd) (
      (
        tt,
        (tt, tt),
        λ _. ((refl, omega (arith, ap length (concat-send_iov epd)), λ _. tt), (tt, tt), λ _. tt),
      ),
      λ x. moves (
          ap (λ (y : Outcome). y.action)
            (sym (last_call (λ y. write_calls y.serv y.epd y.wire []) o o.action moves))
          ∙ x),
    )

echo_out-Streams_example :
    Streams site
      (λ b. true)
      []
      none
      1
      (contents nearly_full ++ codes "xyzw")
      (echo_out site (λ b. true) [] none 1 4 later_all counters nearly_full (codes "xyzw"))
echo_out-Streams_example =
    echo_out-Streams site (λ b. true) [] none 1 (omega arith) later_all later_all-TakesAll 4
      counters nearly_full (codes "xyzw") (inr nearly_full-IsMiddle) (omega arith) (omega arith)

abbrev http_11 : Bytes
http_11 = codes "HTTP/1.1"

http_11-is_http_11 : is_http_11 (some http_11) ≡ true
unfolding is_http_11
http_11-is_http_11 = refl

echo_out-Chunked_example :
    (e : Epd) × ((echo_out site
        (λ b. true)
        []
        (some http_11)
        2
        4
        later_all
        counters
        nearly_full
        (codes "xyzw")).final
      ≡ some e)
    × Chunked site.ultostr
        ((echo_out site
            (λ b. true)
            []
            (some http_11)
            2
            4
            later_all
            counters
            nearly_full
            (codes "xyzw")).wire
          ++ contents (
              network_add_chunk_metas 12 site.ultostr
                (some http_11)
                (record e { header_sended = 2 })))
        (contents nearly_full ++ codes "xyzw")
echo_out-Chunked_example =
    echo_out-Chunked site (λ b. true) [] (some http_11) 2 later_all 4 counters nearly_full
      (codes "xyzw") (omega arith) later_all-TakesAll refl http_11-is_http_11 refl
      (inr nearly_full-IsMiddle) (omega arith) (omega arith)
