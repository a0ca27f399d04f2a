-- ===== src/LuaExt/Drain/Refill.antt =====
-- What waits is put into the buffers that a flush has emptied.
use alilua.Prelude.{
  ℕ, suc, ◌-◌, ◌<◌, ◌≡◌, refl, sym, ap, ap₂, ◌∙◌, Bool, true, false, Option, some, inl, inr, List,
  [], ◌∷◌, ◌++◌, Bytes, length, drop, All, arith, append-nil, append_assoc,
}
use mathlib.Core.Path.{subst}
use alilua.Prelude.Int.{ℤ, pos}
use alilua.ServStatus.{ServStatus}
use alilua.Network.Epd.{Epd, max_iov_count, send}
use alilua.Network.Build.{Site}
use alilua.Network.Send.{network_send}
use alilua.Network.Send.Buffers.{contents}
use alilua.Network.Send.Whole.{always}
use alilua.Network.Chunk.Stream.{IsPart, stream, unchanged}
use alilua.Network.Write.{Answer}
use alilua.Network.Write.Cleared.{IsCleared}
use alilua.Network.Flush.{Flushed, begin_flush, flush_part, network_flush}
use alilua.Network.Flush.Laws.{coded, network_flush-flush_part}
use alilua.LuaExt.Echo.{Echoed, after_flush, after_reflush, resend, send_then_send}
use alilua.LuaExt.Drain.{Drained, after_resend}
use alilua.LuaExt.Drain.Middle.{IsMiddle, Placed, network_send-Puts}
use alilua.LuaExt.Drain.Round.{TakesAll}

module _ (site : Site) (differs : Bytes → Bool) (stale : Bytes) (http_ver : Option Bytes)
    (has : ℕ) where
  -- The flushed parts came on the wire one behind the other, each in its coding, the program goes on,
  -- and the parts with what is in the buffers then are `wanted`.
  pub record Streams (wanted : Bytes) (d : Drained) : Type 0 where
    pub parts : List Epd
    pub each : All IsPart parts
    pub epd : Epd
    pub final_is : d.final ≡ some epd
    pub middle : IsMiddle epd
    pub wire_is : d.wire ≡ stream (coded site http_ver has) parts
    pub all : stream unchanged parts ++ contents epd ≡ wanted

  -- A flush: the part `p` is under way, and `rest` waits.
  abbrev pub flushed : ServStatus → Epd → Flushed
  flushed serv p = flush_part site http_ver has (begin_flush serv p) (record p { status = send })

  -- One more part in front.
  part-Streams :
      (p : Epd) (wanted : Bytes) (d : Drained)
      → IsPart p
      → Streams wanted d
      → Streams
          (contents p ++ wanted)
          (record { wire = contents (coded site http_ver has p) ++ d.wire; final = d.final })
  part-Streams p wanted d h s = record {
    parts = p ∷ s.parts;
    each = (h, s.each);
    epd = s.epd;
    final_is = s.final_is;
    middle = s.middle;
    wire_is = ap (λ t. contents (coded site http_ver has p) ++ t) s.wire_is;
    all =
        append_assoc (contents p) (stream unchanged s.parts) (contents s.epd)
        ∙ ap (λ t. contents p ++ t) s.all;
  }

  -- What follows when the buffers `e` were flushed and `left` waits.
  abbrev pub Goes : (Echoed → Drained) → ServStatus → Epd → Bytes → ℤ → Type 0
  Goes later serv e left have =
      Streams (contents e ++ left) (later (after_flush (some left) have (flushed serv e)))

  whole-Streams :
      (p e : Epd) (rest : Bytes)
      → IsPart p
      → IsMiddle e
      → contents e ≡ rest
      → Streams
          (contents p ++ rest)
          (record { wire = contents (coded site http_ver has p); final = some e })
  whole-Streams p e rest h m eq = record {
    parts = p ∷ [];
    each = (h, tt);
    epd = e;
    final_is = refl;
    middle = m;
    wire_is = sym (append-nil (contents (coded site http_ver has p)));
    all = ap₂ (λ a b. a ++ b) (append-nil (contents p)) eq;
  }

  -- A flush of the buffers `e` while `left` waits.
  reflush-Streams :
      (later : Echoed → Drained) (serv : ServStatus) (p e : Epd) (left rest : Bytes) (have : ℤ)
      → IsPart p
      → IsMiddle e
      → contents e ++ left ≡ rest
      → Goes later serv e left have
      → Streams (contents p ++ rest) (
          after_resend later
            (contents (coded site http_ver has p))
            (after_reflush left have (network_flush site differs stale http_ver has serv e)))
  unfolding after_resend after_reflush
  reflush-Streams later serv p e left rest have h m eq goes =
      rw (network_flush-flush_part site http_ver has differs stale serv e m.next) (
        subst
          (λ t. Streams (contents p ++ t) (record {
            wire =
                contents (coded site http_ver has p)
                ++ (later (after_flush (some left) have (flushed serv e))).wire;
            final = (later (after_flush (some left) have (flushed serv e))).final;
          }))
          eq (part-Streams p (contents e ++ left) _ h goes))

  -- What waits is put into the buffers.
  resend-Streams :
      (later : Echoed → Drained) (serv : ServStatus) (p : Epd) (rest : Bytes) (r : Epd × Option ℤ)
      → IsPart p
      → IsMiddle r.0
      → Placed [] rest r
      → ((left : Bytes) (have : ℤ)
          → contents r.0 ++ left ≡ rest
          → 0 < length left
          → Goes later serv r.0 left have)
      → Streams (contents p ++ rest) (
          after_resend later
            (contents (coded site http_ver has p))
            (resend site differs stale http_ver has true serv rest r))
  unfolding after_resend resend
  resend-Streams later serv p rest (e, have) h m (inl (eq, all)) k =
      subst
        (λ b. Streams (contents p ++ rest) (
          after_resend later (contents (coded site http_ver has p))
            (resend site differs stale http_ver has true serv rest (e, b))))
        (sym eq) (whole-Streams p e rest h m all)
  resend-Streams later serv p rest (e, have) h m (inr (n, eq, all, len)) k =
      let left = drop (length rest - suc n) rest in
      subst
        (λ b. Streams (contents p ++ rest) (
          after_resend later (contents (coded site http_ver has p))
            (resend site differs stale http_ver has true serv rest (e, b))))
        (sym eq)
        (reflush-Streams later serv p e left rest (pos (suc n)) h m all
          (k left (pos (suc n)) all (omega (arith, len))))

  module _ (big : 8 < site.ep_d_buf_size) (socket : Epd → List (List Answer))
      (takes : TakesAll socket) where
    pub send_then_send-Streams :
        (later : Echoed → Drained) (serv : ServStatus) (p epd : Epd) (rest : Bytes)
        → IsPart p
        → IsCleared epd
        → 0 < length rest
        → ((e : Epd) (left : Bytes) (have : ℤ)
            → IsMiddle e
            → contents e ++ left ≡ rest
            → 0 < length left
            → Goes later serv e left have)
        → Streams (contents p ++ rest) (
            after_resend later
              (contents (coded site http_ver has p))
              (send_then_send site differs stale http_ver has always true serv epd rest))
    unfolding send_then_send
    send_then_send-Streams later serv p epd rest h c some_rest k =
        let start : Epd = record epd { next_proc = false } in
        let c' : IsCleared start = record {
          no_first = c.no_first;
          count_is = c.count_is;
          none_sent = c.none_sent;
          header_sended = c.header_sended;
          in_time = c.in_time;
          no_file = c.no_file;
        } in
        let r = network_send site.ep_d_buf_size always max_iov_count start rest in
        let puts = network_send-Puts site.ep_d_buf_size start rest big (inl c') some_rest in
        let nothing : contents start ≡ [] = rw (c.count_is, c.no_first) refl in
        resend-Streams later serv p rest r h puts.middle
          (subst (λ b. Placed b rest r) nothing puts.result)
          (λ left have all some_left. k r.0 left have puts.middle all some_left)
