-- ===== src/Network/Flush/Laws.antt =====
-- A flush hands the body, in a chunk if it is to be, to `network_be_write`.
use mathlib.Core.Path.{subst}
use alilua.Network.Chunk.Framed.{chunk_of, network_add_chunk_metas-as_chunk}
use alilua.Prelude.{
  ℕ, ◌+◌, ◌-◌, ◌≡◌, refl, sym, ap, ◌∙◌, Bool, true, false, Option, some, List, [], Bytes, length,
  ◌==◌, ◌||◌, ◌&&◌, inl, inr, Bool-cases, ltb, arith, if_ind, if_false, if◌then◌else◌,
}
use alilua.Prelude.Int.{pos}
use alilua.ServStatus.{ServStatus}
use alilua.Network.Epd.{Epd, send, bytes_of}
use alilua.Network.Send.Buffers.{contents}
use alilua.Network.Chunk.{is_http_11, network_add_chunk_metas}
use alilua.Network.Chunk.Ready.{
  IsReady, network_add_chunk_metas-IsReady, network_add_chunk_metas-keeps,
}
use alilua.Network.Build.{Site}
use alilua.Network.End.{is_null}
use alilua.Network.End.Laws.{concat-entries}
use alilua.Network.Write.{write_loop, Answer}
use alilua.Network.Write.Gather.{message}
use alilua.Network.Write.Delivery.{IsSending, Fits, Delivered, write_loop-Delivered}
use alilua.Network.Flush.{Flushed, begin_flush, flush_part, network_flush}

-- One more buffer is counted than the body has, since `iov[0]` is one.
abbrev counted_in : Epd → Epd
counted_in epd = record epd { iov_buf_count = epd.iov_buf_count + 1 }

message-counted_in : (epd : Epd) → epd.header_sended ≡ 1 → message (counted_in epd) ≡ contents epd
message-counted_in epd h =
    let e : epd.iov_buf_count + 1 - 1 ≡ epd.iov_buf_count = omega arith in
    rw (h, e) (concat-entries epd.iov epd.iov_buf_count)

-- What a flush hands over: the bytes `wanted`, none of them sent, which `network_be_write` puts on the
-- wire in order.
pub record Flushes (wanted : Bytes) (f : Flushed) : Type 0 where
  pub result : f.result ≡ true
  pub no_raw : f.raw ≡ []
  pub sending : IsSending f.epd []
  pub message_is : message f.epd ≡ wanted
  pub delivered :
      (answers : List Answer)
      → Fits f.epd (pos 0) answers
      → Delivered f.serv f.epd (write_loop f.serv f.epd (pos 0) [] answers)

-- What waits in the buffers after an earlier part went out.
pub record IsNext (epd : Epd) : Type 0 where
  pub ready : IsReady epd
  pub header_sended : epd.header_sended ≡ 1
  pub none_sent : epd.response_buf_sended ≡ 0

counted_in-Flushes :
    (serv : ServStatus) (epd : Epd) (has : ℕ)
    → IsNext epd
    → Flushes
        (contents epd)
        (record { serv = serv; epd = counted_in epd; has = has; raw = []; result = true })
counted_in-Flushes serv epd has n =
    let e = message-counted_in epd n.header_sended in
    let start : IsSending (counted_in epd) [] = record {
      counted = n.ready.counted ∙ ap length (sym e);
      begun = omega (arith, n.none_sent);
      on_wire = rw n.none_sent refl;
    } in
    record {
      result = refl;
      no_raw = refl;
      sending = start;
      message_is = e;
      delivered =
          λ answers f. write_loop-Delivered serv (counted_in epd) (pos 0) [] answers start f;
    }

module _ (site : Site) (http_ver : Option Bytes) (has : ℕ) where
  -- The body as it goes out: a chunk, if the response has that coding.
  abbrev pub coded : Epd → Epd
  coded epd =
      let metas = network_add_chunk_metas site.ep_d_buf_size site.ultostr http_ver epd in
      if has == 2 then metas else epd

  pub coded-IsNext : (epd : Epd) → IsNext epd → IsNext (coded epd)
  coded-IsNext epd n =
      let (h, s, b) = network_add_chunk_metas-keeps site.ep_d_buf_size site.ultostr http_ver epd in
      if_ind IsNext (has == 2)
        (λ e. record {
          ready =
              network_add_chunk_metas-IsReady site.ep_d_buf_size site.ultostr http_ver epd n.ready;
          header_sended = h ∙ n.header_sended;
          none_sent = b ∙ n.none_sent;
        })
        (λ e. n)

  pub flush_part-Flushes :
      (serv : ServStatus) (epd : Epd)
      → IsNext epd
      → Flushes (contents (coded epd)) (flush_part site http_ver has serv epd)
  unfolding flush_part
  flush_part-Flushes serv epd n = counted_in-Flushes serv (coded epd) has (coded-IsNext epd n)

  pub begun-IsNext : (epd : Epd) → IsNext epd → IsNext (record epd { status = send })
  begun-IsNext epd n = record {
    ready = record {
      first = n.ready.first;
      has_first = n.ready.has_first;
      is_some = n.ready.is_some;
      last = n.ready.last;
      count_is = n.ready.count_is;
      counted = n.ready.counted;
    };
    header_sended = n.header_sended;
    none_sent = n.none_sent;
  }

  pub network_flush-flush_part :
      (differs : Bytes → Bool) (stale : Bytes) (serv : ServStatus) (epd : Epd)
      → IsNext epd
      → network_flush site differs stale http_ver has serv epd
        ≡ some (flush_part site http_ver has (begin_flush serv epd) (record epd { status = send }))
  unfolding network_flush
  network_flush-flush_part differs stale serv epd n =
      let later : (epd.header_sended == 0) ≡ false = rw n.header_sended refl in
      let there : (is_null (epd.iov 1) || ltb (length (bytes_of (epd.iov 1))) 1) ≡ false =
        rw n.ready.has_first (ground (arith, n.ready.is_some)) in
      if_false (epd.header_sended == 0) _ later
      ∙ if_false (is_null (epd.iov 1) || ltb (length (bytes_of (epd.iov 1))) 1) _ there

  -- The body as it is to go out: in one chunk, if it is to have that coding and the client can read it.
  abbrev pub flushed_body : Epd → Bytes
  flushed_body epd =
      if has == 2 && is_http_11 http_ver then chunk_of site.ultostr (contents epd) else contents epd

  coded-flushed_body : (epd : Epd) → IsNext epd → contents (coded epd) ≡ flushed_body epd
  coded-flushed_body epd n = elim (Bool-cases (has == 2)) [
    | inl e ↦ rw e (
        network_add_chunk_metas-as_chunk site.ep_d_buf_size site.ultostr http_ver epd n.ready
        ∙ rw n.header_sended refl)
    | inr e ↦ rw e refl
  ]

  -- A flush behind an earlier one, with the body counted in the buffers: the function returns 1 and
  -- hands `network_be_write` the body, none of it sent yet. If `has_content_length_or_chunk_out` is 2
  -- and the client speaks HTTP/1.1, the body is between its size with the end of a line and one more
  -- end of a line; otherwise it is as it stands in the buffers. For any answers of a `writev` that takes no more than it is handed, as long as `k` is
  -- at 0 in each round that it takes bytes in, the bytes on the wire are a first part of this, and all
  -- of it when the flush is ended as a success.
  pub network_flush-Flushes :
      (differs : Bytes → Bool) (stale : Bytes) (serv : ServStatus) (epd : Epd)
      → IsNext epd
      → (f : Flushed) × (network_flush site differs stale http_ver has serv epd ≡ some f)
        × Flushes (flushed_body epd) f
  network_flush-Flushes differs stale serv epd n = (
    flush_part site http_ver has (begin_flush serv epd) (record epd { status = send }),
    network_flush-flush_part differs stale serv epd n,
    subst
        (λ t.
          Flushes t
            (flush_part site http_ver has (begin_flush serv epd) (record epd { status = send })))
        (coded-flushed_body (record epd { status = send }) (begun-IsNext epd n))
        (flush_part-Flushes (begin_flush serv epd) (record epd { status = send })
          (begun-IsNext epd n)),
  )
