-- ===== src/LuaExt/Drain/Round.antt =====
-- One flush: what is in the buffers goes on the wire, and they are empty again.
use alilua.Prelude.{
  ℕ, zero, suc, ◌<◌, ◌≡◌, ◌≢◌, refl, sym, ap, ◌∙◌, true, Option, List, [], Bytes, length, ◌==◌,
  arith, if_ind, length-append,
}
use mathlib.Core.Path.{subst}
use alilua.ServStatus.{ServStatus}
use alilua.Network.Epd.{Epd, send, bytes_of, body}
use alilua.Network.Build.{Site}
use alilua.Network.Send.Buffers.{contents}
use alilua.Network.Chunk.Ready.{network_add_chunk_metas-keeps}
use alilua.Network.Chunk.Status.{
  network_add_chunk_metas-status, network_add_chunk_metas-process_timeout,
}
use alilua.Network.Write.{Answer, waits}
use alilua.Network.Write.Gather.{message}
use alilua.Network.Write.Calls.{
  write_calls, FitsCalls, IsOnTheWay, AllWritten, write_calls-AllWritten,
}
use alilua.Network.Flush.{begin_flush, flush_part}
use alilua.Network.Flush.Laws.{IsNext, coded, coded-IsNext, begun-IsNext, flush_part-Flushes}
use alilua.LuaExt.Drain.Middle.{IsMiddle}

-- A socket that takes all of a flush in the end, in any number of calls of `network_be_write`, each with
-- any number of calls of `writev`: none of these fails or takes more than it is handed, and `k` is at 0
-- each time.
abbrev pub TakesAll : (Epd → List (List Answer)) → Type 0
TakesAll socket =
    (serv : ServStatus) (epd : Epd)
    → IsOnTheWay epd []
    → FitsCalls serv epd [] (socket epd) × ((write_calls serv epd [] (socket epd)).action ≢ waits)

length-body :
    (iov : ℕ → Option Bytes) (n : ℕ) → 0 < length (bytes_of (iov 1)) → 0 < length (body iov (suc n))
length-body iov zero h = h
length-body iov (suc n) h = omega (
  arith,
  length-body iov n h,
  length-append {0} (body iov (suc n)) (bytes_of (iov (suc (suc n)))),
)

pub length-contents : (epd : Epd) → IsNext epd → 0 < length (contents epd)
length-contents epd n =
    let h : 0 < length (bytes_of (epd.iov 1)) =
      omega (arith, n.ready.is_some, ap (λ b. length (bytes_of b)) n.ready.has_first) in
    subst (λ c. 0 < length (body epd.iov c)) (sym n.ready.count_is)
      (length-body epd.iov n.ready.last h)

module _ (site : Site) (http_ver : Option Bytes) (has : ℕ) where
  -- The part `p` is under way, with `send_then_send` to be called behind it.
  pub record IsFlushed (p epd : Epd) : Type 0 where
    pub on_the_way : IsOnTheWay epd []
    pub message_is : message epd ≡ contents (coded site http_ver has p)

  coded-status : (epd : Epd) → (coded site http_ver has epd).status ≡ epd.status
  coded-status epd =
      if_ind (λ (e : Epd). e.status ≡ epd.status) (has == 2)
        (λ _. network_add_chunk_metas-status site.ep_d_buf_size site.ultostr http_ver epd)
        (λ _. refl)

  coded-process_timeout :
      (epd : Epd) → (coded site http_ver has epd).process_timeout ≡ epd.process_timeout
  coded-process_timeout epd =
      if_ind (λ (e : Epd). e.process_timeout ≡ epd.process_timeout) (has == 2)
        (λ _. network_add_chunk_metas-process_timeout site.ep_d_buf_size site.ultostr http_ver epd)
        (λ _. refl)

  coded-sendfile : (epd : Epd) → (coded site http_ver has epd).sendfile ≡ epd.sendfile
  coded-sendfile epd =
      let (h, s, b) = network_add_chunk_metas-keeps site.ep_d_buf_size site.ultostr http_ver epd in
      if_ind (λ (e : Epd). e.sendfile ≡ epd.sendfile) (has == 2) (λ _. s) (λ _. refl)

  -- The buffers that are handed to `network_be_write`.
  abbrev pub handed : ServStatus → Epd → Epd
  handed serv epd =
      record ((flush_part site http_ver has (begin_flush serv epd)
        (record epd { status = send })).epd) { next_proc = true }

  pub handed-IsFlushed :
      (serv : ServStatus) (epd : Epd)
      → IsMiddle epd
      → IsFlushed (record epd { status = send }) (handed serv epd)
  unfolding flush_part
  handed-IsFlushed serv epd m =
      let start : Epd = record epd { status = send } in
      let next = begun-IsNext site http_ver has epd m.next in
      let f = flush_part-Flushes site http_ver has (begin_flush serv epd) start next in
      let c = coded-IsNext site http_ver has start next in
      record {
        on_the_way = record {
          sending = record {
            counted = f.sending.counted;
            begun = f.sending.begun;
            on_wire = f.sending.on_wire;
          };
          is_sending = coded-status start;
          some_left = omega (
            arith,
            c.none_sent,
            c.ready.counted,
            length-contents (coded site http_ver has start) c,
          );
          partial = record {
            header_sended = c.header_sended;
            in_time = λ e. m.in_time (sym (coded-process_timeout start) ∙ e);
            no_file = coded-sendfile start ∙ m.no_file;
            next_proc = refl;
          };
        };
        message_is = f.message_is;
      }

  -- All of a flush goes on the wire.
  pub flushed-AllWritten :
      (socket : Epd → List (List Answer)) (serv : ServStatus) (p epd : Epd)
      → TakesAll socket
      → IsFlushed p epd
      → AllWritten (contents (coded site http_ver has p)) (write_calls serv epd [] (socket epd))
  flushed-AllWritten socket serv p epd takes f =
      let (fits, ends) = takes serv epd f.on_the_way in
      subst (λ m. AllWritten m (write_calls serv epd [] (socket epd))) f.message_is
        (write_calls-AllWritten serv epd [] (socket epd) f.on_the_way fits ends)
