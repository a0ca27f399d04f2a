-- ===== src/Network/Write/Calls.antt =====
-- `network_be_write` is called again each time that the socket takes bytes.
use alilua.Prelude.{
  ◌<◌, ◌≡◌, ◌≢◌, refl, sym, ◌∙◌, true, inl, inr, ◌⊎◌, List, [], ◌∷◌, ◌++◌, Bytes, All, leb, ltb,
  leb→le, if_ind, take, take_all, ◌&&◌, arith,
}
use mathlib.Core.Path.{subst}
use alilua.Prelude.Int.{ℤ, pos}
use alilua.ServStatus.{ServStatus}
use alilua.Network.Epd.{Epd, send, is_send}
use alilua.Network.Write.{
  concat, send_iov, k_after, Answer, accepted, again, failed, Action, waits, calls_next_proc, ends,
  resumes, Outcome, write_loop, network_be_write,
}
use alilua.Network.Write.Gather.{message}
use alilua.Network.Write.Delivery.{IsSending, Fits, advance, advance-on_wire, finish-ends}
use alilua.Network.Write.Cleared.{
  IsCleared, IsPartial, NoFailure, write_loop-Clears, write_loop-message,
}

-- Where the function waits, the event loop calls it again: `later`.
unfoldable pub called_again : (Outcome → Outcome) → Outcome → Action → Outcome
called_again later o waits = later o
called_again later o calls_next_proc = o
called_again later o (ends code) = o
called_again later o (resumes done) = o

-- One list of answers for each call.
unfoldable pub write_calls : ServStatus → Epd → Bytes → List (List Answer) → Outcome
write_calls serv epd wire [] = record { serv = serv; epd = epd; wire = wire; action = waits }
write_calls serv epd wire (answers ∷ rest) =
    let o = network_be_write serv epd wire answers in
    called_again (λ x. write_calls x.serv x.epd x.wire rest) o o.action

-- No call of `writev` fails or takes more than it is handed, and `k` is at 0 each time.
abbrev pub FitsCalls : ServStatus → Epd → Bytes → List (List Answer) → Type 0
FitsCalls serv epd wire [] = Unit
FitsCalls serv epd wire (answers ∷ rest) =
    Fits epd (pos 0) answers
    × All NoFailure answers
    × ((network_be_write serv epd wire answers).action ≡ waits
        → FitsCalls (network_be_write serv epd wire answers).serv
            (network_be_write serv epd wire answers).epd
            (network_be_write serv epd wire answers).wire rest)

-- A flushed part of a response is under way, and a first part of it is on the wire.
pub record IsOnTheWay (epd : Epd) (wire : Bytes) : Type 0 where
  pub sending : IsSending epd wire
  pub is_sending : epd.status ≡ send
  pub some_left : epd.response_buf_sended < epd.response_content_length
  pub partial : IsPartial epd

-- While the loop waits, the part is still under way, with the same buffers.
abbrev Waits : Epd → Outcome → Type 0
Waits epd o = o.action ≡ waits → IsOnTheWay o.epd o.wire × (message o.epd ≡ message epd)

write_loop-Waits :
    (serv : ServStatus) (epd : Epd) (k : ℤ) (wire : Bytes) (answers : List Answer)
    → IsOnTheWay epd wire
    → Fits epd k answers
    → All NoFailure answers
    → Waits epd (write_loop serv epd k wire answers)
unfolding write_loop
write_loop-Waits serv epd k wire [] w f p = λ _. (w, refl)
write_loop-Waits serv epd k wire (again ∷ rest) w f p = λ _. (w, refl)
write_loop-Waits serv epd k wire (failed ∷ rest) w f (p, _) = absurd p
write_loop-Waits serv epd k wire (accepted n ∷ rest) w (zero_k, fits, f) (p, ps) =
    let s = w.sending in
    let e = advance epd n in
    let wire' = wire ++ take n (concat (send_iov epd (pos 0))) in
    let on_wire = advance-on_wire epd wire n s.on_wire in
    rw zero_k (
      if_ind (Waits epd) (leb epd.response_content_length e.response_buf_sended)
        (λ all x.
          let (ne, same) = finish-ends serv epd e wire' (
            on_wire
            ∙ take_all e.response_buf_sended (message epd)
                (omega (arith, s.counted, leb→le _ _ all))) in
          absurd (ne x))
        (λ more.
          let next : IsOnTheWay e wire' = record {
            sending = record { counted = s.counted; begun = ground arith; on_wire = on_wire };
            is_sending = w.is_sending;
            some_left = ground arith;
            partial = record {
              header_sended = w.partial.header_sended;
              in_time = w.partial.in_time;
              no_file = w.partial.no_file;
              next_proc = w.partial.next_proc;
            };
          } in
          write_loop-Waits serv e (k_after epd (pos 0)) wire' rest next (f (ground arith)) ps))

-- What the calls end with, where `wanted` is the part that was flushed.
pub record AllWritten (wanted : Bytes) (o : Outcome) : Type 0 where
  pub calls : o.action ≡ calls_next_proc
  pub cleared : IsCleared o.epd
  pub wire_is : o.wire ≡ wanted

-- One call.
abbrev Calls : Bytes → Outcome → Type 0
Calls wanted o =
    AllWritten wanted o ⊎ ((o.action ≡ waits) × IsOnTheWay o.epd o.wire × (message o.epd ≡ wanted))

network_be_write-Calls :
    (serv : ServStatus) (epd : Epd) (wire : Bytes) (answers : List Answer)
    → IsOnTheWay epd wire
    → Fits epd (pos 0) answers
    → All NoFailure answers
    → Calls (message epd) (network_be_write serv epd wire answers)
unfolding network_be_write
network_be_write-Calls serv epd wire answers w fits p =
    let o = write_loop serv epd (pos 0) wire answers in
    let test : is_send epd.status && ltb epd.response_buf_sended epd.response_content_length
        ≡ true =
      rw w.is_sending (ground (arith, w.some_left)) in
    let still = write_loop-Waits serv epd (pos 0) wire answers w fits p in
    let one : Calls (message epd) o =
      elim (write_loop-Clears serv epd (pos 0) wire answers w.partial) [
        | inl x ↦ inr (x, (still x).0, (still x).1)
        | inr (calls, cleared) ↦
            elim (write_loop-message serv epd (pos 0) wire answers w.sending fits p) [
              | inl x ↦ inr (x, (still x).0, (still x).1)
              | inr all ↦ inl (record { calls = calls; cleared = cleared; wire_is = all })
            ]
      ] in
    if_ind (Calls (message epd))
      (is_send epd.status && ltb epd.response_buf_sended epd.response_content_length) (λ _. one)
      (λ not_sent. absurd (cc))

-- A flushed part is under way, with something to be called behind it, and no call of `writev` fails or
-- takes more than it is handed, with `k` at 0 each time. When the function does not wait any more, all
-- of the part is on the wire, its buffers are freed, and `next_proc` is called.
pub write_calls-AllWritten :
    (serv : ServStatus) (epd : Epd) (wire : Bytes) (calls : List (List Answer))
    → IsOnTheWay epd wire
    → FitsCalls serv epd wire calls
    → (write_calls serv epd wire calls).action ≢ waits
    → AllWritten (message epd) (write_calls serv epd wire calls)
unfolding write_calls called_again
write_calls-AllWritten serv epd wire [] w f = λ ne. absurd (ne refl)
write_calls-AllWritten serv epd wire (answers ∷ rest) w (fits, p, f) =
    let o = network_be_write serv epd wire answers in
    let later = λ (x : Outcome). write_calls x.serv x.epd x.wire rest in
    let Goal = λ (a : Action).
      (called_again later o a).action ≢ waits → AllWritten (message epd) (called_again later o a) in
    elim (network_be_write-Calls serv epd wire answers w fits p) [
      | inl done ↦ subst Goal (sym done.calls) (λ _. done)
      | inr (x, next, same) ↦ subst Goal (sym x) (λ ne.
          subst (λ m. AllWritten m (later o)) same
            (write_calls-AllWritten o.serv o.epd o.wire rest next (f x) ne))
    ]
