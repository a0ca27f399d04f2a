-- ===== src/LuaExt/Drain/Stream.antt =====
-- All of the output of a Lua program comes on the wire or stays in the buffers, in order.
use alilua.Prelude.{
  ℕ, zero, suc, ◌-◌, ◌<◌, ◌≤◌, ◌≡◌, refl, sym, ap, Bool, true, Option, some, inl, inr, List, [],
  ◌∷◌, ◌++◌, Bytes, length, drop, arith, length-append, length-drop,
}
use mathlib.Core.Path.{subst}
use alilua.Prelude.Int.{ℤ, pos}
use alilua.ServStatus.{ServStatus}
use alilua.Network.Epd.{Epd, max_iov_count, send, bytes_of}
use alilua.Network.Build.{Site}
use alilua.Network.Send.{network_send}
use alilua.Network.Send.Buffers.{contents}
use alilua.Network.Send.Whole.{always}
use alilua.Network.Chunk.{is_http_11, network_add_chunk_metas}
use alilua.Network.Chunk.Coding.{Chunked}
use alilua.Network.Chunk.Stream.{HasBody, network_add_chunk_metas-Chunked, IsPart, stream}
use alilua.Network.Write.{Answer}
use alilua.Network.Flush.{flush_part}
use alilua.Network.Flush.Laws.{coded, network_flush-flush_part}
use alilua.LuaExt.Echo.{
  Echoed, begin_echo, keep_rest, after_send, echo_one, echo_all, after_flush, with_flushed,
  flush_echo, lua_echo, send_then_send,
}
use alilua.Network.Write.Calls.{write_calls}
use alilua.LuaExt.Drain.{
  Drained, after_resend, after_write, after_outcome, drain, start_drain, echo_out,
}
use alilua.LuaExt.Drain.Middle.{IsMiddle, IsBetween, Placed, network_send-Puts}
use alilua.LuaExt.Drain.Round.{
  TakesAll, IsFlushed, handed, handed-IsFlushed, flushed-AllWritten, length-contents,
}
use alilua.LuaExt.Drain.Refill.{Streams, flushed, send_then_send-Streams}

module _ (site : Site) (differs : Bytes → Bool) (stale : Bytes) (http_ver : Option Bytes)
    (has : ℕ) where
  -- What is put out is `wanted`.
  abbrev Out : Bytes → Drained → Type 0
  Out = Streams site differs stale http_ver has

  module _ (big : 8 < site.ep_d_buf_size) (socket : Epd → List (List Answer))
      (takes : TakesAll socket) where
    middle-IsPart : (e : Epd) → IsMiddle e → IsPart (record e { status = send })
    middle-IsPart e m = (
      record {
        filling = record {
          first = m.next.ready.first;
          has_first = m.next.ready.has_first;
          last = m.next.ready.last;
          count_is = m.next.ready.count_is;
        };
        counted = m.next.ready.counted;
        is_some = length-contents e m.next;
      },
      m.next.header_sended,
    )

    drain-Streams :
        (rounds : ℕ) (serv : ServStatus) (p epd : Epd) (rest : Bytes)
        → length rest ≤ rounds
        → 0 < length rest
        → IsPart p
        → IsFlushed site http_ver has p epd
        → Out
            (contents p ++ rest)
            (drain site differs stale http_ver has rounds socket serv epd rest)
    unfolding drain after_outcome after_write after_flush flush_part
    drain-Streams zero serv p epd rest fuel h part f = absurd (omega arith)
    drain-Streams (suc rounds) serv p epd rest fuel h part f =
        let later = λ (x : Echoed).
          drain site differs stale http_ver has rounds socket x.serv x.epd (bytes_of x.next_out) in
        let o = write_calls serv epd [] (socket epd) in
        let w = flushed-AllWritten site http_ver has socket serv p epd takes f in
        subst
          (λ a.
            Out (contents p ++ rest)
              (after_write site differs stale http_ver has later rest o.serv o.epd o.wire a))
          (sym w.calls)
          (subst
            (λ wire. Out (contents p ++ rest) (
              after_resend later wire
                (send_then_send site differs stale http_ver has always true o.serv o.epd rest)))
            (sym w.wire_is)
            (send_then_send-Streams site differs stale http_ver has big socket takes later o.serv p
              o.epd rest part w.cleared h
              (λ e left have m all some_left.
                drain-Streams rounds _ (record e { status = send })
                  (handed site http_ver has o.serv e) left
                  (omega (
                    arith,
                    fuel,
                    ap length all,
                    length-append {0} (contents e) left,
                    length-contents e m.next,
                  ))
                  some_left (middle-IsPart e m) (handed-IsFlushed site http_ver has o.serv e m))))

    -- The echo of one text from any point between two flushes.
    begin_echo-Streams :
        (serv : ServStatus) (rounds : ℕ) (epd : Epd) (text before : Bytes) (r : Epd × Option ℤ)
        → length text ≤ rounds
        → IsMiddle r.0
        → Placed before text r
        → Out (before ++ text) (
            start_drain site differs stale http_ver has rounds socket (
              flush_echo site differs stale http_ver has serv
                (after_send true (begin_echo epd) text r)))
    unfolding start_drain flush_echo after_send keep_rest with_flushed after_flush flush_part
    begin_echo-Streams serv rounds epd text before (e, have) fuel m (inl (eq, all)) =
        subst
          (λ b. Out (before ++ text) (
            start_drain site differs stale http_ver has rounds socket (
              flush_echo site differs stale http_ver has serv
                (after_send true (begin_echo epd) text (e, b)))))
          (sym eq)
          (record {
            parts = [];
            each = tt;
            epd = e;
            final_is = refl;
            middle = m;
            wire_is = refl;
            all = all;
          })
    begin_echo-Streams serv rounds epd text before (e, have) fuel m (inr (n, eq, all, len)) =
        let left = drop (length text - suc n) text in
        let x : Echoed =
          after_flush (some left) (pos (suc n)) (flushed site differs stale http_ver has serv e) in
        subst
          (λ b. Out (before ++ text) (
            start_drain site differs stale http_ver has rounds socket (
              flush_echo site differs stale http_ver has serv
                (after_send true (begin_echo epd) text (e, b)))))
          (sym eq)
          (subst
            (λ f. Out (before ++ text) (
              start_drain site differs stale http_ver has rounds socket
                (with_flushed (some left) (pos (suc n)) f)))
            (sym (network_flush-flush_part site http_ver has differs stale serv e m.next))
            (subst
              (λ t. Out t (drain site differs stale http_ver has rounds socket x.serv x.epd left))
              all
              (drain-Streams rounds x.serv (record e { status = send })
                (handed site http_ver has serv e) left
                (omega (arith, fuel, len, length-drop (length text - suc n) text))
                (omega (arith, len)) (middle-IsPart e m)
                (handed-IsFlushed site http_ver has serv e m))))

    -- A Lua program puts out a text of any length, at any point behind a first flush of its
    -- response: with memory, buffers of more than eight bytes, a socket that takes all of each
    -- flush in the end, without a failure and with `k` at 0 in each round that it takes bytes in,
    -- and one round for each byte at most, the program goes on. The buffers of each flush came on
    -- the wire, one behind the other, each as `network_add_chunk_metas` makes a chunk of it if
    -- `has_content_length_or_chunk_out` is 2, and as it is otherwise, and what they held before the
    -- coding, followed by what the buffers hold now, is what they held at first followed by the
    -- text. The connection is again at such a point.
    pub echo_out-Streams :
        (rounds : ℕ) (serv : ServStatus) (epd : Epd) (text : Bytes)
        → IsBetween epd
        → 0 < length text
        → length text ≤ rounds
        → Out
            (contents epd ++ text)
            (echo_out site differs stale http_ver has rounds socket serv epd text)
    unfolding echo_out lua_echo echo_all echo_one
    echo_out-Streams rounds serv epd text b some_text fuel =
        let puts = network_send-Puts site.ep_d_buf_size epd text big b some_text in
        begin_echo-Streams serv rounds epd text (contents epd)
          (network_send site.ep_d_buf_size always max_iov_count epd text) fuel puts.middle
          puts.result

  -- The end of a response behind such an output, if it is chunked.
  Streams-Chunked :
      (wanted : Bytes) (d : Drained)
      → has ≡ 2
      → is_http_11 http_ver ≡ true
      → site.ultostr 0 ≡ b'0' ∷ []
      → (s : Streams site differs stale http_ver has wanted d)
      → Chunked site.ultostr
          (d.wire
            ++ contents (
                network_add_chunk_metas site.ep_d_buf_size site.ultostr http_ver
                  (record (s.epd) { header_sended = 2 })))
          wanted
  Streams-Chunked wanted d two is_11 zero_text s =
      let last : Epd = record (s.epd) { header_sended = 2 } in
      let ready = s.middle.next.ready in
      let body : HasBody last = record {
        filling = record {
          first = ready.first;
          has_first = ready.has_first;
          last = ready.last;
          count_is = ready.count_is;
        };
        counted = ready.counted;
        is_some = length-contents s.epd s.middle.next;
      } in
      let metas = network_add_chunk_metas site.ep_d_buf_size site.ultostr http_ver in
      let wire : d.wire ≡ stream metas s.parts =
        subst (λ n. d.wire ≡ stream (coded site http_ver n) s.parts) two s.wire_is in
      subst (λ w. Chunked site.ultostr (w ++ contents (metas last)) wanted) (sym wire)
        (subst (Chunked site.ultostr (stream metas s.parts ++ contents (metas last))) s.all (
          network_add_chunk_metas-Chunked site.ep_d_buf_size site.ultostr http_ver is_11 zero_text
            s.parts last s.each (inl body, refl)))

  -- A Lua program puts out a text of any length, at any point behind a first flush of a response that
  -- is chunked and goes to an HTTP/1.1 client: with memory, buffers of more than eight bytes, a socket
  -- that takes all of each flush in the end, without a failure and with `k` at 0 in each round that it
  -- takes bytes in, one round for each byte at most, and an `_ultostr` that
  -- writes 0 as one digit, the program goes on. What came on the wire, followed by the buffers as
  -- `network_add_chunk_metas` completes them if the response is ended then, is the chunked coding of
  -- exactly what the buffers held at first followed by the text.
  pub echo_out-Chunked :
      (socket : Epd → List (List Answer)) (rounds : ℕ) (serv : ServStatus) (epd : Epd)
      (text : Bytes)
      → 8 < site.ep_d_buf_size
      → TakesAll socket
      → has ≡ 2
      → is_http_11 http_ver ≡ true
      → site.ultostr 0 ≡ b'0' ∷ []
      → IsBetween epd
      → 0 < length text
      → length text ≤ rounds
      → (e : Epd) × ((echo_out site differs stale http_ver has rounds socket serv epd text).final
          ≡ some e)
        × Chunked site.ultostr
            ((echo_out site differs stale http_ver has rounds socket serv epd text).wire
              ++ contents (
                  network_add_chunk_metas site.ep_d_buf_size site.ultostr http_ver
                    (record e { header_sended = 2 })))
            (contents epd ++ text)
  echo_out-Chunked socket rounds serv epd text big takes two is_11 zero_text b some_text fuel =
      let s = echo_out-Streams big socket takes rounds serv epd text b some_text fuel in
      (s.epd, s.final_is, Streams-Chunked (contents epd ++ text) _ two is_11 zero_text s)
