-- ===== src/Network/End/Laws.antt =====
-- The end of a response hands its head and its body to `network_be_write`, in this order.
use mathlib.Core.Path.{subst}
use alilua.Prelude.{
  ℕ, zero, suc, ◌+◌, ◌-◌, ◌<◌, ◌≡◌, refl, sym, ap, ap₂, ◌∙◌, true, false, not, Option, some, List,
  [], ◌++◌, Bytes, length, update, ◌==◌, ◌&&◌, ltb, arith, if_true, if_false, append-nil,
  append_assoc, length-append,
}
use alilua.Prelude.Int.{pos, negsuc, leb_ℤ}
use alilua.ServStatus.{ServStatus}
use alilua.Network.Epd.{Epd, send, bytes_of, body}
use alilua.Network.Send.Buffers.{contents}
use alilua.Network.Chunk.Ready.{IsReady}
use alilua.Network.Build.Ready.{
  body_put_head, Waits, network_build_header_out-Waits, body_out, network_build_header_out-body_out,
}
use alilua.Network.Build.{Site, network_build_header_out}
use alilua.Network.Write.{entries, concat, write_loop, Answer}
use alilua.Network.Write.Gather.{message}
use alilua.Network.Write.Delivery.{IsSending, Fits, Delivered, write_loop-Delivered}
use alilua.Network.End.{
  is_null, Given, Ended, writes, put_head, write_out, send_head, end_whole, is_unread, begin_send,
  network_be_end,
}

entries_snoc :
    (iov : ℕ → Option Bytes) (j n : ℕ)
    → concat (entries iov j (suc n)) ≡ concat (entries iov j n) ++ bytes_of (iov (j + n))
entries_snoc iov j zero = let e : j + 0 ≡ j = omega arith in rw e (append-nil (bytes_of (iov j)))
entries_snoc iov j (suc n) =
    let e : j + 1 + n ≡ j + suc n = omega arith in
    ap (λ t. bytes_of (iov j) ++ t)
      (entries_snoc iov (j + 1) n ∙ ap (λ k. concat (entries iov (j + 1) n) ++ bytes_of (iov k)) e)
    ∙ sym (
        append_assoc (bytes_of (iov j)) (concat (entries iov (j + 1) n))
          (bytes_of (iov (j + suc n))))

pub concat-entries : (iov : ℕ → Option Bytes) (n : ℕ) → concat (entries iov 1 n) ≡ body iov n
concat-entries iov zero = refl
concat-entries iov (suc n) =
    let e : 1 + n ≡ suc n = omega arith in
    entries_snoc iov 1 n ∙ ap₂ (λ t k. t ++ bytes_of (iov k)) (concat-entries iov n) e

message-put_head :
    (epd : Epd) (out : Bytes)
    → epd.header_sended ≡ 0
    → message (record (put_head epd out) { response_buf_sended = 0 }) ≡ out ++ contents epd
unfolding put_head
message-put_head epd out h =
    let e : epd.iov_buf_count + 1 - 0 ≡ suc epd.iov_buf_count = omega arith in
    rw (h, e)
      (ap (λ t. out ++ t)
        (concat-entries (update epd.iov 0 (some out)) epd.iov_buf_count
          ∙ body_put_head epd.iov (some out) epd.iov_buf_count))

put_head-IsSending :
    (epd : Epd) (out : Bytes)
    → epd.header_sended ≡ 0
    → epd.response_content_length ≡ length (contents epd)
    → IsSending (record (put_head epd out) { response_buf_sended = 0 }) []
unfolding put_head
put_head-IsSending epd out h c = record {
  counted =
      omega (arith, c, ap length (message-put_head epd out h), length-append out (contents epd));
  begun = omega arith;
  on_wire = refl;
}

-- The response that the end of a request hands over, with its head in front.
abbrev pub handed : Epd → Bytes → Epd
handed epd out = record (put_head epd out) { response_buf_sended = 0 }

-- A request that was read to its end, in time, by a client that is there.
pub record IsDone (given : Given) (epd : Epd) : Type 0 where
  pub is_read : is_unread given epd ≡ false
  pub in_time : epd.process_timeout ≡ 0
  pub no_file : given.no_file ≡ false
  pub has_se_ptr : given.has_se_ptr ≡ true

module _ (site : Site) (given : Given) where
  send_head-handed :
      (serv : ServStatus) (epd : Epd) (out : Bytes)
      → given.has_se_ptr ≡ true
      → Waits epd
      → length out < site.ep_d_buf_size
      → send_head site true given serv epd out
        ≡ record { serv = serv; epd = handed epd out; raw = []; last = writes }
  unfolding send_head write_out
  send_head-handed serv epd out p (r, h, s) lt =
      let fits : ltb (length out) site.ep_d_buf_size ≡ true = ground arith in
      let long : ltb 0 (length (bytes_of (epd.iov 1))) ≡ true =
        rw r.has_first (ground (arith, r.is_some)) in
      let is_there : (is_null (epd.iov 0) && false) ≡ false = ground arith in
      rw (fits, s, long, is_there, p) refl

  -- What `network_build_header_out` gives.
  abbrev built_of : Epd → Epd × ℕ × Bytes
  built_of = network_build_header_out site given.http_ver given.has_length_or_chunk

  end_whole-handed :
      (serv : ServStatus) (epd : Epd)
      → given.has_se_ptr ≡ true
      → given.no_file ≡ false
      → Waits epd
      → length (built_of epd).2 < site.ep_d_buf_size
      → end_whole site true given serv epd ≡ record {
        serv = serv;
        epd = handed (built_of epd).0 (built_of epd).2;
        raw = [];
        last = writes;
      }
  unfolding end_whole
  end_whole-handed serv epd p n (r, h, s) lt =
      let some_there : (is_null (epd.iov 0)
            && is_null (epd.iov 1)
            && not epd.sendfile
            && not given.no_file)
          ≡ false =
        rw r.has_first (ground arith) in
      if_false (is_null (epd.iov 0) && is_null (epd.iov 1) && not epd.sendfile && not given.no_file)
        _ some_there
      ∙ if_false given.no_file _ n
      ∙ send_head-handed serv (built_of epd).0 (built_of epd).2 p
          (network_build_header_out-Waits site given.http_ver given.has_length_or_chunk epd
            (r, h, s))
          lt

  network_be_end-handed :
      (serv : ServStatus) (epd : Epd)
      → IsDone given epd
      → Waits epd
      → length (built_of (record epd { status = send })).2 < site.ep_d_buf_size
      → network_be_end site true given serv epd ≡ record {
        serv = begin_send serv;
        epd =
            handed
              (built_of (record epd { status = send })).0
              (built_of (record epd { status = send })).2;
        raw = [];
        last = writes;
      }
  unfolding network_be_end
  network_be_end-handed serv epd d (r, h, s) lt =
      let start = record epd { status = send } in
      let here : (epd.header_sended == 0) ≡ true = ground arith in
      let untimed : (epd.process_timeout == 1
            && not (leb_ℤ epd.keepalive (negsuc 0) && leb_ℤ (negsuc 0) epd.keepalive))
          ≡ false =
        rw d.in_time refl in
      let ready : IsReady start = record {
        first = r.first;
        has_first = r.has_first;
        is_some = r.is_some;
        last = r.last;
        count_is = r.count_is;
        counted = r.counted;
      } in
      if_false (is_unread given epd) _ d.is_read
      ∙ if_false
          (epd.process_timeout == 1
            && not (leb_ℤ epd.keepalive (negsuc 0) && leb_ℤ (negsuc 0) epd.keepalive))
          _ untimed
      ∙ if_true (epd.header_sended == 0) _ here
      ∙ end_whole-handed (begin_send serv) start d.has_se_ptr d.no_file (ready, h, s) lt

  -- What the function hands over: a response of the head and behind it the body, nothing of which was
  -- sent. What `network_be_write` then puts on the wire is a part of it, and all of it at the end.
  pub record Hands (epd : Epd) (ended : Ended) : Type 0 where
    pub is_writes : ended.last ≡ writes
    pub no_raw : ended.raw ≡ []
    pub sending : IsSending ended.epd []
    pub message_is :
        message ended.epd
        ≡ (built_of epd).2
          ++ body_out site (epd.iov 0) given.http_ver given.has_length_or_chunk (contents epd)
    pub delivered :
        (answers : List Answer)
        → Fits ended.epd (pos 0) answers
        → Delivered ended.serv ended.epd (write_loop ended.serv ended.epd (pos 0) [] answers)

  handed-Hands :
      (serv : ServStatus) (epd : Epd)
      → Waits epd
      → Waits (built_of epd).0
      → Hands epd (record {
        serv = serv;
        epd = handed (built_of epd).0 (built_of epd).2;
        raw = [];
        last = writes;
      })
  handed-Hands serv epd w (r, h, s) =
      let start = put_head-IsSending (built_of epd).0 (built_of epd).2 h r.counted in
      record {
        is_writes = refl;
        no_raw = refl;
        sending = start;
        message_is =
            message-put_head (built_of epd).0 (built_of epd).2 h
            ∙ ap (λ t. (built_of epd).2 ++ t)
                (network_build_header_out-body_out site given.http_ver given.has_length_or_chunk epd
                  w);
        delivered = λ answers f.
            write_loop-Delivered serv (handed (built_of epd).0 (built_of epd).2) (pos 0) [] answers
              start f;
      }

  -- The end of a request that was read in time, where nothing was sent, the body is in the buffers, the
  -- client is there, there is memory, and the head is shorter than a buffer: the function hands
  -- `network_be_write` the head that `network_build_header_out` makes and behind it the body, none of it
  -- sent yet. The body is one chunk with the last, empty one behind it, if the program has set a head,
  -- `has_content_length_or_chunk_out` is 2 or this head names a transfer coding and no length, and the
  -- client speaks HTTP/1.1; otherwise it is as it stands in the buffers. For any answers of a
  -- `writev` that takes no more than it is handed, as long as `k` is at 0 in each round that it takes
  -- bytes in, the bytes on the wire are a first part of this, and all of it when the response is
  -- ended as a success.
  pub network_be_end-Hands :
      (serv : ServStatus) (epd : Epd)
      → IsDone given epd
      → Waits epd
      → length (built_of (record epd { status = send })).2 < site.ep_d_buf_size
      → Hands (record epd { status = send }) (network_be_end site true given serv epd)
  network_be_end-Hands serv epd d (r, h, s) lt =
      let start = record epd { status = send } in
      let ready : IsReady start = record {
        first = r.first;
        has_first = r.has_first;
        is_some = r.is_some;
        last = r.last;
        count_is = r.count_is;
        counted = r.counted;
      } in
      subst (Hands start) (sym (network_be_end-handed serv epd d (r, h, s) lt)) (
        handed-Hands (begin_send serv) start (ready, h, s)
          (network_build_header_out-Waits site given.http_ver given.has_length_or_chunk start
            (ready, h, s)))
