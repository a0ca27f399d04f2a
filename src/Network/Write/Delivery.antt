-- ===== src/Network/Write/Delivery.antt =====
-- The bytes on the wire are the response, whatever the socket takes at a time.
use alilua.Prelude.{
  ℕ, ◌+◌, ◌<◌, ◌≤◌, ◌≡◌, ◌≢◌, refl, sym, ap₂, ◌∙◌, Bool, true, false, inl, inr, List, [], ◌∷◌, ◌++◌,
  Bytes, length, take, leb, ◌==◌, if◌then◌else◌, arith, take-add, take_all, ◌⊎◌, if_ind, leb→le,
  All,
}
use alilua.Prelude.Int.{ℤ, pos}
use alilua.ServStatus.{ServStatus}
use alilua.Network.Epd.{Epd}
use alilua.Network.Write.{
  send_iov, concat, Answer, accepted, again, failed, waits, ends, resumes, k_after, Outcome,
  conclude, finish, fail, write_loop,
}
use alilua.Network.Write.Gather.{message, concat-send_iov}

-- `writev` takes no more than it is handed, and `k` is at 0 in each round that it takes bytes in. What
-- stands behind the answer that takes the last byte is not asked for, and free.
abbrev pub Fits : Epd → ℤ → List Answer → Type 0
Fits epd k [] = Unit
Fits epd k (again ∷ rest) = Unit
Fits epd k (failed ∷ rest) = Unit
Fits epd k (accepted n ∷ rest) =
    (k ≡ pos 0)
    × (n ≤ length (concat (send_iov epd (pos 0))))
    × (epd.response_buf_sended + n < epd.response_content_length
        → Fits (record epd { response_buf_sended = epd.response_buf_sended + n })
            (k_after epd (pos 0)) rest)

-- The response is under way: what the socket took is its first part.
pub record IsSending (epd : Epd) (wire : Bytes) : Type 0 where
  pub counted : epd.response_content_length ≡ length (message epd)
  pub begun : epd.response_buf_sended ≤ epd.response_content_length
  pub on_wire : wire ≡ take epd.response_buf_sended (message epd)

-- What the loop may leave. While it waits nothing but the count of sent bytes has changed; when it
-- ends the response or the flush, all of the response is on the wire.
pub record Delivered (serv : ServStatus) (epd : Epd) (o : Outcome) : Type 0 where
  pub sent : ℕ
  pub on_wire : o.wire ≡ take sent (message epd)
  pub waiting :
      o.action ≡ waits → (o.serv ≡ serv) × (o.epd ≡ record epd { response_buf_sended = sent })
  pub complete : (o.action ≡ ends 0) ⊎ (o.action ≡ resumes true) → o.wire ≡ message epd

module _ (serv : ServStatus) (e : Epd) (wire : Bytes) where
  conclude-wire : (code : ℕ) (done : Bool) → (conclude serv e wire code done).wire ≡ wire
  unfolding conclude
  conclude-wire code done = ground arith

  conclude-ne-waits : (code : ℕ) (done : Bool) → (conclude serv e wire code done).action ≢ waits
  unfolding conclude
  conclude-ne-waits code done = ground arith

  conclude-ne_complete :
      ((conclude serv e wire 499 false).action ≢ ends 0)
      × ((conclude serv e wire 499 false).action ≢ resumes true)
  unfolding conclude
  conclude-ne_complete = (ground arith, ground arith)

finish-Delivered :
    (serv : ServStatus) (epd e : Epd) (wire : Bytes)
    → wire ≡ message epd
    → Delivered serv epd (finish serv e wire)
unfolding finish
finish-Delivered serv epd e wire h =
    let e' : Epd = record e {
      header_sended = if e.header_sended == 5 then 1 else e.header_sended;
    } in
    let kept = conclude-wire serv e' wire 0 true in
    record {
      sent = length (message epd);
      on_wire = kept ∙ h ∙ sym (take_all (length (message epd)) (message epd) (omega arith));
      waiting = λ w. absurd (conclude-ne-waits serv e' wire 0 true w);
      complete = λ _. kept ∙ h;
    }

pub finish-ends :
    (serv : ServStatus) (epd e : Epd) (wire : Bytes)
    → wire ≡ message epd
    → ((finish serv e wire).action ≢ waits) × ((finish serv e wire).wire ≡ message epd)
unfolding finish
finish-ends serv epd e wire h =
    let e' : Epd = record e {
      header_sended = if e.header_sended == 5 then 1 else e.header_sended;
    } in
    (conclude-ne-waits serv e' wire 0 true, conclude-wire serv e' wire 0 true ∙ h)

fail-Delivered :
    (serv : ServStatus) (epd e : Epd) (wire : Bytes) (n : ℕ)
    → wire ≡ take n (message epd)
    → Delivered serv epd (fail serv e wire)
unfolding fail
fail-Delivered serv epd e wire n h =
    let e' : Epd = record e { keepalive = pos 0 } in
    let (not_ends, not_resumes) = conclude-ne_complete serv e' wire in
    record {
      sent = n;
      on_wire = conclude-wire serv e' wire 499 false ∙ h;
      waiting = λ w. absurd (conclude-ne-waits serv e' wire 499 false w);
      complete = elim [ inl c ↦ absurd (not_ends c) | inr c ↦ absurd (not_resumes c) ];
    }

waits-Delivered :
    (serv : ServStatus) (epd : Epd) (wire : Bytes)
    → wire ≡ take epd.response_buf_sended (message epd)
    → Delivered serv epd (record { serv = serv; epd = epd; wire = wire; action = waits })
waits-Delivered serv epd wire h = record {
  sent = epd.response_buf_sended;
  on_wire = h;
  waiting = λ _. (refl, refl);
  complete = elim [ inl c ↦ cc | inr c ↦ cc ];
}

-- One more part of the response is on the wire.
abbrev pub advance : Epd → ℕ → Epd
advance epd n = record epd { response_buf_sended = epd.response_buf_sended + n }

pub advance-on_wire :
    (epd : Epd) (wire : Bytes) (n : ℕ)
    → wire ≡ take epd.response_buf_sended (message epd)
    → wire ++ take n (concat (send_iov epd (pos 0)))
      ≡ take (epd.response_buf_sended + n) (message epd)
advance-on_wire epd wire n h =
    ap₂ (λ w t. w ++ take n t) h (concat-send_iov epd)
    ∙ take-add epd.response_buf_sended n (message epd)

-- From any point of a response that is under way, and for any answers of a `writev` that takes no
-- more than it is handed, as long as `k` is at 0 in each round that it takes bytes in: the bytes on
-- the wire are a first part of the response, in order and none twice; a wait changes nothing but
-- the count of them; and the response or the flush is ended as a success only when all of the
-- response is on the wire.
pub write_loop-Delivered :
    (serv : ServStatus) (epd : Epd) (k : ℤ) (wire : Bytes) (answers : List Answer)
    → IsSending epd wire
    → Fits epd k answers
    → Delivered serv epd (write_loop serv epd k wire answers)
unfolding write_loop
write_loop-Delivered serv epd k wire [] s f = waits-Delivered serv epd wire s.on_wire
write_loop-Delivered serv epd k wire (again ∷ rest) s f = waits-Delivered serv epd wire s.on_wire
write_loop-Delivered serv epd k wire (failed ∷ rest) s f =
    fail-Delivered serv epd epd wire epd.response_buf_sended s.on_wire
write_loop-Delivered serv epd k wire (accepted n ∷ rest) s (zero_k, fits, f) =
    let e = advance epd n in
    let wire' = wire ++ take n (concat (send_iov epd (pos 0))) in
    let on_wire = advance-on_wire epd wire n s.on_wire in
    rw zero_k (
      if_ind (Delivered serv epd) (leb epd.response_content_length e.response_buf_sended)
        (λ all. finish-Delivered serv epd e wire' (
          on_wire
          ∙ take_all e.response_buf_sended (message epd)
              (omega (arith, s.counted, leb→le _ _ all))))
        (λ more.
          let s' : IsSending e wire' = record {
            counted = s.counted;
            begun = ground arith;
            on_wire = on_wire;
          } in
          let d =
            write_loop-Delivered serv e (k_after epd (pos 0)) wire' rest s' (f (ground arith)) in
          record {
            sent = d.sent;
            on_wire = d.on_wire;
            waiting = d.waiting;
            complete = d.complete;
          }))

-- Every answer is a number of bytes above 0.
abbrev pub IsProgress : Answer → Type 0
IsProgress (accepted n) = 0 < n
IsProgress again = ⊥
IsProgress failed = ⊥

-- If a response is under way with bytes left, the socket takes at least a byte each time and no
-- more than it is handed, and `k` is at 0 each time, then the loop ends the response or the flush
-- within as many rounds as there are bytes left, and all of it is on the wire. It may take all at
-- once: answers behind that one are not asked for.
pub write_loop-ends :
    (serv : ServStatus) (epd : Epd) (k : ℤ) (wire : Bytes) (answers : List Answer)
    → IsSending epd wire
    → Fits epd k answers
    → All IsProgress answers
    → epd.response_buf_sended < epd.response_content_length
    → epd.response_content_length ≤ epd.response_buf_sended + length answers
    → ((write_loop serv epd k wire answers).action ≢ waits)
      × ((write_loop serv epd k wire answers).wire ≡ message epd)
unfolding write_loop
write_loop-ends serv epd k wire [] s f p h room = absurd (omega arith)
write_loop-ends serv epd k wire (again ∷ rest) s f (p, _) h room = absurd p
write_loop-ends serv epd k wire (failed ∷ rest) s f (p, _) h room = absurd p
write_loop-ends serv epd k wire (accepted n ∷ rest) s (zero_k, fits, f) (p, ps) h room =
    let e = advance epd n in
    let wire' = wire ++ take n (concat (send_iov epd (pos 0))) in
    let on_wire = advance-on_wire epd wire n s.on_wire in
    rw zero_k (
      if_ind (λ (o : Outcome). (o.action ≢ waits) × (o.wire ≡ message epd))
        (leb epd.response_content_length e.response_buf_sended)
        (λ all. finish-ends serv epd e wire' (
          on_wire
          ∙ take_all e.response_buf_sended (message epd)
              (omega (arith, s.counted, leb→le _ _ all))))
        (λ more.
          let s' : IsSending e wire' = record {
            counted = s.counted;
            begun = ground arith;
            on_wire = on_wire;
          } in
          write_loop-ends serv e (k_after epd (pos 0)) wire' rest s' (f (ground arith)) ps
            (ground arith) (omega arith)))
