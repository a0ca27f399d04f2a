-- ===== src/Network/Send/Laws.antt =====
-- `network_send` appends to the response: what it copied is a prefix of the piece, it is counted,
-- and what the function returns is what is left.
use alilua.Prelude.{
  ℕ, zero, suc, ◌+◌, ◌<◌, ◌≤◌, ◌≡◌, ◌≢◌, refl, sym, ap, ◌∙◌, Bool, Option, none, some, ◌++◌, Bytes,
  length, take, drop, ltb, leb, ◌==◌, ◌||◌, arith, if_ind, take-add, append-nil, append_assoc,
  length-drop,
}
use alilua.Prelude.Int.{ℤ, pos, negsuc}
use alilua.Network.Epd.{Epd, max_iov_count}
use alilua.Network.Send.{current_buffer, fitting, fill, next_buffer, send_into, network_send}
use alilua.Network.Send.Buffers.{
  IsFilling, contents, Returned, Sent, fill-contents, fill-IsFilling, next_buffer-contents,
  next_buffer-IsFilling, Opened, first_buffer-IsFilling, current_buffer-Opened,
}

fitting-le : (size : ℕ) (epd : Epd) (piece : Bytes) → fitting size epd piece ≤ length piece
unfolding fitting
fitting-le size epd piece = ground arith

Returned-add : (j k n m : ℕ) (r : Option ℤ) → Returned k m r → m + j ≡ n → Returned (j + k) n r
Returned-add j k n m (some (pos l)) h e = omega arith
Returned-add j k n m (some (negsuc l)) h e = tt
Returned-add j k n m none h e = h

module _ (epd : Epd) (piece : Bytes) where
  -- Nothing was copied.
  nothing : (r : Option ℤ) → IsFilling epd → Returned 0 (length piece) r → Sent epd piece (epd, r)
  nothing r f h = record {
    copied = 0;
    within = omega arith;
    written = sym (append-nil (contents epd));
    counted = omega arith;
    returned = h;
    filling = f;
    timeout_same = refl;
    sendfile_same = refl;
    others_same = refl;
  }

  module _ (e2 : Epd) (o : Opened epd e2) (len : ℕ) (h : len ≤ length piece) where
    -- The copy into the buffer that is being filled is the whole of the work.
    filled : Sent epd piece (fill e2 len piece, some (pos (length (drop len piece))))
    filled = record {
      copied = len;
      within = h;
      written = fill-contents e2 len piece o.filling ∙ ap (λ t. t ++ take len piece) o.same;
      counted = unfold fill in omega (arith, o.length_same);
      returned = omega (arith, length-drop len piece);
      filling = fill-IsFilling e2 len piece o.filling;
      timeout_same = unfold fill in o.timeout_same;
      sendfile_same = unfold fill in o.sendfile_same;
      others_same = unfold fill in o.others_same;
    }

    -- The rest goes to the next buffer.
    filled_then :
        (r : Epd × Option ℤ)
        → Sent (next_buffer (fill e2 len piece)) (drop len piece) r
        → Sent epd piece r
    filled_then r s = record {
      copied = len + s.copied;
      within = omega (arith, s.within, length-drop len piece);
      written =
          s.written
          ∙ ap (λ t. t ++ take s.copied (drop len piece))
              (next_buffer-contents (fill e2 len piece)
                ∙ fill-contents e2 len piece o.filling
                ∙ ap (λ t. t ++ take len piece) o.same)
          ∙ append_assoc (contents epd) (take len piece) (take s.copied (drop len piece))
          ∙ ap (λ t. contents epd ++ t) (take-add len s.copied piece);
      counted = unfold fill next_buffer in omega (arith, s.counted, o.length_same);
      returned =
          Returned-add len s.copied (length piece) (length (drop len piece)) r.1 s.returned
            (omega (arith, length-drop len piece));
      filling = s.filling;
      timeout_same = s.timeout_same ∙ unfold fill next_buffer in o.timeout_same;
      sendfile_same = s.sendfile_same ∙ unfold fill next_buffer in o.sendfile_same;
      others_same =
          ap
            (λ (x : Epd). record x {
              iov = epd.iov;
              iov_buf_count = epd.iov_buf_count;
              response_content_length = epd.response_content_length;
            })
            s.others_same
          ∙ unfold fill next_buffer in o.others_same;
    }

module _ (size : ℕ) (again : Epd → Bytes → Epd × Option ℤ) (epd : Epd) (piece : Bytes) where
  -- `h` is what the recursive call does: it is made only while a buffer is left.
  send_into-Sent :
      (o : Option Epd)
      → ((e : Epd) (p : Bytes)
          → IsFilling e
          → e.process_timeout ≢ 1
          → e.iov_buf_count ≡ epd.iov_buf_count + 1
          → e.iov_buf_count < max_iov_count
          → Sent e p (again e p))
      → IsFilling epd
      → epd.process_timeout ≢ 1
      → epd.iov_buf_count + 1 < max_iov_count
      → ((e2 : Epd) → o ≡ some e2 → Opened epd e2)
      → Sent epd piece (send_into size again epd piece o)
  unfolding send_into
  send_into-Sent none h f t room opened = nothing epd piece _ f tt
  send_into-Sent (some e2) h f t room opened =
      let o = opened e2 refl in
      let len = fitting size e2 piece in
      let e3 = fill e2 len piece in
      let fits = fitting-le size e2 piece in
      let done = filled epd piece e2 o len fits in
      let filling = next_buffer-IsFilling e3 (fill-IsFilling e2 len piece o.filling) in
      if_ind (Sent epd piece) (ltb 0 (length (drop len piece)))
        (λ _.
          if_ind (Sent epd piece) (leb max_iov_count (e3.iov_buf_count + 1)) (λ _. done)
            (λ _. filled_then epd piece e2 o len fits _ (
              h (next_buffer e3) (drop len piece) filling
                (unfold fill next_buffer in omega (arith, o.timeout_same))
                (unfold fill next_buffer in omega (arith, o.count_same))
                (unfold fill next_buffer in omega (arith, o.count_same)))))
        (λ _. done)

module _ (size : ℕ) (malloc : ℕ → Bool) where
  -- On a connection that has its first buffer and is not timed out, and with as many calls as there
  -- are buffers left, the function returns, whatever `malloc` does. It appends a prefix of the piece
  -- to the response and counts it, and a result that is not negative is the number of bytes that
  -- were left out. The connection still has its first buffer, and is neither timed out nor sends a
  -- file unless it did before.
  pub network_send-Sent :
      (fuel : ℕ) (epd : Epd) (piece : Bytes)
      → IsFilling epd
      → epd.process_timeout ≢ 1
      → 0 < fuel
      → max_iov_count ≤ fuel + epd.iov_buf_count
      → Sent epd piece (network_send size malloc fuel epd piece)
  unfolding network_send
  network_send-Sent zero epd piece f t h g = absurd (omega arith)
  network_send-Sent (suc fuel) epd piece f t h g =
      let P = Sent epd piece in
      rw (first_buffer-IsFilling malloc epd f) (
        if_ind P (epd.process_timeout == 1) (λ e. absurd (t (ground arith)))
          λ _.
            if_ind P (ltb (length piece) 1 || epd.sendfile) (λ _. nothing epd piece _ f tt)
              λ _.
                if_ind P (leb max_iov_count (epd.iov_buf_count + 1))
                  (λ _. nothing epd piece _ f (omega arith))
                  λ room.
                    send_into-Sent size (network_send size malloc fuel) epd piece
                      (current_buffer malloc epd)
                      (λ e p f' t' count left.
                        network_send-Sent fuel e p f' t' (omega arith) (omega arith))
                      f t (ground arith) (λ e2 e. current_buffer-Opened malloc epd f e))
