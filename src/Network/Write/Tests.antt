-- ===== src/Network/Write/Tests.antt =====
-- Runs of `network_be_write`, and its theorems at a response in three buffers.
use alilua.Prelude.{◌≡◌, ◌≢◌, refl, none, some, [], ◌∷◌, List, arith, codes, update}
use alilua.Prelude.Int.{pos}
use alilua.ServStatus.{ServStatus}
use alilua.Network.Epd.{Epd, idle, send}
use alilua.Network.Write.{
  next_k, gather, skip_sent, send_iov, k_after, Answer, accepted, again, failed, waits, ends,
  leave_send, conclude, finish, fail, write_loop, network_be_write,
}
use alilua.Network.Write.Delivery.{
  Fits, IsSending, Delivered, write_loop-Delivered, write_loop-ends,
}
use alilua.Samples.{one_connection}

abbrev counters : ServStatus
counters = record one_connection { connect_counts = 0; process_counts = 0; sending_counts = pos 1 }

abbrev response : Epd
response = record idle {
  iov =
      update (update (update (λ i. none) 0 (some (codes "head"))) 1 (some (codes "bo"))) 2
        (some (codes "dy"));
  iov_buf_count = 3;
  response_content_length = 8;
  status = send;
}

response-IsSending : IsSending response []
response-IsSending = record { counted = refl; begun = omega arith; on_wire = refl }

-- A write that stops at a buffer's end, with two more behind it: the byte `b` is sent twice.
write_repeats :
    (network_be_write counters response [] (accepted 4 ∷ accepted 1 ∷ accepted 3 ∷ [])).wire
    ≡ codes "headbbod"
unfolding network_be_write write_loop send_iov k_after gather next_k skip_sent finish conclude
    leave_send
write_repeats = refl

abbrev answers : List Answer
answers = accepted 4 ∷ accepted 1 ∷ again ∷ []

abbrev short_response : Epd
short_response = record idle {
  iov = update (update (λ i. none) 0 (some (codes "he"))) 1 (some (codes "b"));
  iov_buf_count = 2;
  response_content_length = 3;
  status = send;
}

short_response-IsSending : IsSending short_response []
short_response-IsSending = record { counted = refl; begun = omega arith; on_wire = refl }

abbrev in_two : List Answer
in_two = accepted 1 ∷ accepted 2 ∷ accepted 1 ∷ []

write_waits : (network_be_write counters response [] answers).wire ≡ codes "headb"
unfolding network_be_write write_loop send_iov k_after gather next_k skip_sent finish
write_waits = refl

write_ends : (network_be_write counters short_response [] in_two).action ≡ ends 0
unfolding network_be_write write_loop send_iov k_after gather next_k skip_sent finish conclude
    leave_send
write_ends = refl

write_fails : (network_be_write counters response [] (accepted 3 ∷ failed ∷ [])).action ≡ ends 499
unfolding network_be_write write_loop send_iov k_after gather next_k skip_sent fail conclude
    leave_send
write_fails = refl

answers_fit : Fits response (pos 0) answers
unfolding send_iov k_after gather next_k skip_sent
answers_fit = (refl, omega arith, λ _. (refl, omega arith, λ _. tt))

in_two_fit : Fits short_response (pos 0) in_two
unfolding send_iov k_after gather next_k skip_sent
in_two_fit = (refl, omega arith, λ _. (refl, omega arith, λ h. absurd (omega arith)))

write_loop-Delivered_example :
    Delivered counters response (write_loop counters response (pos 0) [] answers)
write_loop-Delivered_example =
    write_loop-Delivered counters response (pos 0) [] answers response-IsSending answers_fit

write_loop-ends_example :
    ((write_loop counters short_response (pos 0) [] in_two).action ≢ waits)
    × ((write_loop counters short_response (pos 0) [] in_two).wire ≡ codes "heb")
write_loop-ends_example =
    write_loop-ends counters short_response (pos 0) [] in_two short_response-IsSending in_two_fit
      (omega arith) (omega arith) (omega arith)
