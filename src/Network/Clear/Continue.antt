-- ===== src/Network/Clear/Continue.antt =====
-- "100 Continue" is sent in front of a request's job, and leaves nothing of itself behind.
use alilua.Prelude.{
  ℕ, ◌-◌, ◌≤◌, ◌≡◌, refl, ap, sym, ◌∙◌, true, none, some, List, [], length, All, arith, update,
  if_true, if_false, ◌&&◌, not, ◌==◌, ◌||◌, inl, inr,
}
use mathlib.Core.Path.{subst}
use alilua.Prelude.Int.{pos, ◌+ℤ◌, add-sub_one}
use alilua.ServStatus.{ServStatus}
use alilua.Network.Epd.{Epd, send}
use alilua.Network.End.{is_null}
use alilua.Network.Reader.{Reader, Config}
use alilua.Network.Read.{
  continues, ReadOutcome, continue_line, put_continue, send_continue, expects_continue, launch,
}
use alilua.Network.Write.{entries, first_entry, concat, Answer, calls_next_proc, write_loop}
use alilua.Network.Write.Next.{write_loop-Continues}
use alilua.Network.Write.Gather.{message}
use alilua.Network.Write.Delivery.{Fits, IsSending, IsProgress, write_loop-ends}

-- The connection when the line is to be sent.
abbrev to_send : Epd → Epd
to_send epd = record epd {
  iov = update epd.iov 0 (some continue_line);
  response_content_length = 25;
  response_buf_sended = 0;
  iov_buf_count = 1;
  next_proc = true;
  status = send;
}

-- What is claimed of an outcome of `launch`.
abbrev Sends : ServStatus → List Answer → ReadOutcome → Type 0
Sends serv answers o =
    Fits o.reader.epd (pos 0) answers
    → All IsProgress answers
    → 25 ≤ length answers
    → (o.next ≡ continues)
      × ((write_loop o.serv o.reader.epd (pos 0) [] answers).wire ≡ continue_line)
      × ((write_loop o.serv o.reader.epd (pos 0) [] answers).action ≡ calls_next_proc)
      × ((write_loop o.serv o.reader.epd (pos 0) [] answers).serv.sending_counts
          ≡ serv.sending_counts)

module _ (c : Config) (serv : ServStatus) (r : Reader) (asked : expects_continue c r ≡ true)
    (empty : r.epd.iov 0 ≡ none) (memory : c.malloc c.ep_d_buf_size ≡ true) where
  launch-to_send : launch c serv r ≡ record {
    serv = record serv { sending_counts = serv.sending_counts +ℤ pos 1 };
    reader = record r { epd = to_send r.epd };
    next = continues;
  }
  unfolding launch send_continue put_continue
  launch-to_send =
      let null : is_null (r.epd.iov 0) ≡ true = ap is_null empty in
      if_true (expects_continue c r) _ asked
      ∙ if_false (is_null (r.epd.iov 0) && not (c.malloc c.ep_d_buf_size)) _
          (rw (null, memory) refl)
      ∙ ap
          (λ (e : Epd). record {
            serv = record serv { sending_counts = serv.sending_counts +ℤ pos 1 };
            reader = record r { epd = record e { next_proc = true; status = send } };
            next = continues;
          })
          (if_true (is_null (r.epd.iov 0)) r.epd null)

message-to_send : (epd : Epd) → epd.header_sended ≡ 0 → message (to_send epd) ≡ continue_line
message-to_send epd h =
    let first : first_entry (to_send epd) ≡ 0 =
      if_true (epd.header_sended == 0 || epd.header_sended == 5) 1 (ground arith) in
    ap (λ (n : ℕ). concat (entries (to_send epd).iov n (1 - n))) first

-- A request that expects "100-continue", on a connection that has sent nothing and has no buffer yet,
-- with memory for one and a socket that takes at least a byte each time, no more than it is handed,
-- and `k` at 0 each time: within 25 rounds of `writev`, the line is on the wire and nothing else, then
-- `send_100_continue_then_process` is called, and `sending_counts` is as it was.
pub launch-write_loop :
    (c : Config) (serv : ServStatus) (r : Reader) (answers : List Answer)
    → expects_continue c r ≡ true
    → r.epd.iov 0 ≡ none
    → c.malloc c.ep_d_buf_size ≡ true
    → r.epd.header_sended ≡ 0
    → Fits (launch c serv r).reader.epd (pos 0) answers
    → All IsProgress answers
    → 25 ≤ length answers
    → ((launch c serv r).next ≡ continues)
      × ((write_loop (launch c serv r).serv (launch c serv r).reader.epd (pos 0) [] answers).wire
          ≡ continue_line)
      × ((write_loop (launch c serv r).serv (launch c serv r).reader.epd (pos 0) [] answers).action
          ≡ calls_next_proc)
      × ((write_loop
            (launch c serv r).serv
            (launch c serv r).reader.epd
            (pos 0)
            []
            answers).serv.sending_counts
          ≡ serv.sending_counts)
launch-write_loop c serv r answers asked empty memory h =
    let o : ReadOutcome = record {
      serv = record serv { sending_counts = serv.sending_counts +ℤ pos 1 };
      reader = record r { epd = to_send r.epd };
      next = continues;
    } in
    let e : launch c serv r ≡ o = launch-to_send c serv r asked empty memory in
    subst (Sends serv answers) (sym e) (λ f p n.
      let s : IsSending o.reader.epd [] = record {
        counted = ap length (sym (message-to_send r.epd h));
        begun = omega arith;
        on_wire = refl;
      } in
      let (not_waits, whole) =
        write_loop-ends o.serv o.reader.epd (pos 0) [] answers s f p (omega arith) (omega arith) in
      elim (write_loop-Continues o.serv o.reader.epd (pos 0) [] answers refl) [
        | inl w ↦ absurd (not_waits w)
        | inr (called, counts) ↦ (
          refl,
          whole ∙ message-to_send r.epd h,
          called,
          counts ∙ add-sub_one serv.sending_counts,
        )
      ])
