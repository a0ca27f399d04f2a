-- ===== src/Network/Send/Tests.antt =====
-- A run of `network_send` over two buffers, and its theorem at that input.
use alilua.Prelude.{ℕ, ◌≡◌, refl, Bool, true, none, some, arith, codes, update}
use alilua.Network.Epd.{Epd, idle}
use alilua.Network.Send.{
  first_buffer, current_buffer, fitting, fill, next_buffer, send_into, network_send,
}
use alilua.Network.Send.Buffers.{IsFilling, Sent, contents}
use alilua.Network.Send.Laws.{network_send-Sent}

abbrev always : ℕ → Bool
always i = true

-- The first buffer holds two bytes of the four that it has room for.
abbrev begun : Epd
begun = record idle {
  iov = update (λ i. none) 1 (some (codes "ab"));
  iov_buf_count = 1;
  response_content_length = 2;
}

begun-IsFilling : IsFilling begun
begun-IsFilling = record { first = codes "ab"; has_first = refl; last = 0; count_is = refl }

send_runs : contents (network_send 12 always 238 begun (codes "cdefgh")).0 ≡ codes "abcdefgh"
unfolding network_send send_into first_buffer current_buffer fitting fill next_buffer
send_runs = refl

send_first : contents (network_send 12 always 238 idle (codes "xyz")).0 ≡ codes "xyz"
unfolding network_send send_into first_buffer current_buffer fitting fill next_buffer
send_first = refl

network_send-Sent_example :
    Sent begun (codes "cdefgh") (network_send 12 always 238 begun (codes "cdefgh"))
network_send-Sent_example =
    network_send-Sent 12 always 238 begun (codes "cdefgh") begun-IsFilling (omega arith)
      (omega arith) (omega arith)
