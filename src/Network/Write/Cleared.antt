-- ===== src/Network/Write/Cleared.antt =====
-- A part of a response that was flushed, with something to be called behind it, leaves no buffer.
use alilua.Prelude.{
  ℕ, ◌+◌, ◌≡◌, ◌≢◌, refl, Bool, true, false, none, inl, inr, ◌⊎◌, List, [], ◌∷◌, ◌++◌, Bytes, leb,
  if_ind, take, ◌==◌, if◌then◌else◌, arith, All, take_all, leb→le, ◌∙◌,
}
use alilua.Prelude.Int.{ℤ, pos}
use alilua.ServStatus.{ServStatus}
use alilua.Network.Epd.{Epd}
use alilua.Network.Write.{
  concat, send_iov, k_after, Answer, accepted, again, failed, waits, calls_next_proc, Outcome,
  end_flush, leave_send, conclude, finish, fail, write_loop,
}
use alilua.Network.Write.Gather.{message}
use alilua.Network.Write.Delivery.{IsSending, Fits, advance, advance-on_wire, finish-ends}

-- A connection that has flushed all it had, in the middle of a response.
pub record IsCleared (epd : Epd) : Type 0 where
  pub no_first : epd.iov 1 ≡ none
  pub count_is : epd.iov_buf_count ≡ 1
  pub none_sent : epd.response_buf_sended ≡ 0
  pub header_sended : epd.header_sended ≡ 1
  pub in_time : epd.process_timeout ≢ 1
  pub no_file : epd.sendfile ≡ false

-- A flushed part that is under way.
pub record IsPartial (epd : Epd) : Type 0 where
  pub header_sended : epd.header_sended ≡ 1
  pub in_time : epd.process_timeout ≢ 1
  pub no_file : epd.sendfile ≡ false
  pub next_proc : epd.next_proc ≡ true

-- The function waits, or it calls `next_proc` with no buffer left.
abbrev pub Clears : Outcome → Type 0
Clears o = (o.action ≡ waits) ⊎ ((o.action ≡ calls_next_proc) × IsCleared o.epd)

conclude-Clears :
    (serv : ServStatus) (epd : Epd) (wire : Bytes) (code : ℕ) (done : Bool)
    → IsPartial epd
    → Clears (conclude serv epd wire code done)
unfolding conclude leave_send end_flush
conclude-Clears serv epd wire code done p =
    if_ind Clears (epd.header_sended == 1)
      (λ _. inr (
        rw p.next_proc refl,
        record {
          no_first = refl;
          count_is = refl;
          none_sent = refl;
          header_sended = p.header_sended;
          in_time = p.in_time;
          no_file = p.no_file;
        },
      ))
      (λ other. absurd (ground (arith, p.header_sended)))

pub write_loop-Clears :
    (serv : ServStatus) (epd : Epd) (k : ℤ) (wire : Bytes) (answers : List Answer)
    → IsPartial epd
    → Clears (write_loop serv epd k wire answers)
unfolding write_loop finish fail
write_loop-Clears serv epd k wire [] p = inl refl
write_loop-Clears serv epd k wire (again ∷ rest) p = inl refl
write_loop-Clears serv epd k wire (failed ∷ rest) p =
    conclude-Clears serv (record epd { keepalive = pos 0 }) wire 499 false
      (record {
        header_sended = p.header_sended;
        in_time = p.in_time;
        no_file = p.no_file;
        next_proc = p.next_proc;
      })
write_loop-Clears serv epd k wire (accepted m ∷ rest) p =
    let epd' : Epd = record epd { response_buf_sended = epd.response_buf_sended + m } in
    let p' : IsPartial epd' = record {
      header_sended = p.header_sended;
      in_time = p.in_time;
      no_file = p.no_file;
      next_proc = p.next_proc;
    } in
    let wire' = wire ++ take m (concat (send_iov epd k)) in
    let e : Epd = record epd' {
      header_sended = if epd'.header_sended == 5 then 1 else epd'.header_sended;
    } in
    let pe : IsPartial e = record {
      header_sended = rw p.header_sended refl;
      in_time = p.in_time;
      no_file = p.no_file;
      next_proc = p.next_proc;
    } in
    if_ind Clears (leb epd.response_content_length epd'.response_buf_sended)
      (λ _. conclude-Clears serv e wire' 0 true pe)
      (λ _. write_loop-Clears serv epd' (k_after epd k) wire' rest p')

-- No answer is a failure.
abbrev pub NoFailure : Answer → Type 0
NoFailure (accepted n) = Unit
NoFailure again = Unit
NoFailure failed = ⊥

-- From any point of a response that is under way, if `writev` takes no more than it is handed, does
-- not fail, and finds `k` at 0 each time that it takes bytes: the function waits, or all of the
-- response is on the wire.
pub write_loop-message :
    (serv : ServStatus) (epd : Epd) (k : ℤ) (wire : Bytes) (answers : List Answer)
    → IsSending epd wire
    → Fits epd k answers
    → All NoFailure answers
    → ((write_loop serv epd k wire answers).action ≡ waits)
      ⊎ ((write_loop serv epd k wire answers).wire ≡ message epd)
unfolding write_loop
write_loop-message serv epd k wire [] s f p = inl refl
write_loop-message serv epd k wire (again ∷ rest) s f p = inl refl
write_loop-message serv epd k wire (failed ∷ rest) s f (p, _) = absurd p
write_loop-message serv epd k wire (accepted n ∷ rest) s (zero_k, fits, f) (p, ps) =
    let e = advance epd n in
    let wire' = wire ++ take n (concat (send_iov epd (pos 0))) in
    let on_wire = advance-on_wire epd wire n s.on_wire in
    rw zero_k (
      if_ind (λ (o : Outcome). (o.action ≡ waits) ⊎ (o.wire ≡ message epd))
        (leb epd.response_content_length e.response_buf_sended)
        (λ all.
          let (ends, same) = finish-ends serv epd e wire' (
            on_wire
            ∙ take_all e.response_buf_sended (message epd)
                (omega (arith, s.counted, leb→le _ _ all))) in
          inr same)
        (λ more.
          let s' : IsSending e wire' = record {
            counted = s.counted;
            begun = ground arith;
            on_wire = on_wire;
          } in
          write_loop-message serv e (k_after epd (pos 0)) wire' rest s' (f (ground arith)) ps))
