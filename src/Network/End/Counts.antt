-- ===== src/Network/End/Counts.antt =====
-- The end of a response counts it as being sent just when it is handed to `network_be_write`.
use alilua.Prelude.{◌≡◌, refl, ap, ◌∙◌, Bool, not, Bytes, length, ltb, ◌==◌, ◌&&◌, if_ind}
use alilua.Prelude.Int.{ℤ, pos, negsuc, ◌+ℤ◌, ◌-ℤ◌, leb_ℤ, int_laws}
use alilua.ServStatus.{ServStatus}
use alilua.Network.Epd.{Epd, is_read, send, bytes_of}
use alilua.Network.Build.{Site}
use alilua.Network.End.{
  is_null, Given, Ended, Last, writes, ends, leave, write_out, head_alone, send_head, end_whole,
  close_chunks, end_flushed, is_unread, begin_send, network_be_end,
}

-- The responses that are being sent for this connection.
abbrev pub in_flight : Last → ℤ
in_flight writes = pos 1
in_flight _ = pos 0

-- The counter is `n` and what the connection adds to it.
abbrev Counted : ℤ → Ended → Type 0
Counted n e = e.serv.sending_counts ≡ n +ℤ in_flight e.last

module _ (site : Site) (malloc : Bool) (given : Given) (serv : ServStatus) (n : ℤ)
    (counted : serv.sending_counts ≡ n +ℤ pos 1) where
  leave-Counted :
      (epd : Epd) (raw : Bytes) (last : Last)
      → in_flight last ≡ pos 0
      → Counted n (leave serv epd raw last)
  unfolding leave
  leave-Counted epd raw last h =
      let back : n +ℤ pos 1 -ℤ pos 1 ≡ n +ℤ in_flight last = rw h (omega int_laws) in
      ap (λ c. c -ℤ pos 1) counted ∙ back

  write_out-Counted : (epd : Epd) (raw : Bytes) → Counted n (write_out given serv epd raw)
  unfolding write_out
  write_out-Counted epd raw =
      if_ind (Counted n) given.has_se_ptr (λ e. counted)
        (λ e. leave-Counted epd raw (ends 499) refl)

  head_alone-Counted : (epd : Epd) (out : Bytes) → Counted n (head_alone given serv epd out)
  unfolding head_alone
  head_alone-Counted epd out =
      if_ind (Counted n) (epd.response_content_length == 0) (λ e. leave-Counted _ out _ refl)
        (λ e. write_out-Counted _ out)

  send_head-Counted :
      (epd : Epd) (out : Bytes) → Counted n (send_head site malloc given serv epd out)
  unfolding send_head
  send_head-Counted epd out =
      if_ind (Counted n)
        (ltb (length out) site.ep_d_buf_size
          && not epd.sendfile
          && ltb 0 (length (bytes_of (epd.iov 1))))
        (λ e.
          if_ind (Counted n) (is_null (epd.iov 0) && not malloc) (λ d. leave-Counted _ _ _ refl)
            (λ d. write_out-Counted _ _))
        (λ e. head_alone-Counted epd out)

  end_whole-Counted : (epd : Epd) → Counted n (end_whole site malloc given serv epd)
  unfolding end_whole
  end_whole-Counted epd =
      if_ind (Counted n)
        (is_null (epd.iov 0) && is_null (epd.iov 1) && not epd.sendfile && not given.no_file)
        (λ e. leave-Counted _ _ _ refl)
        (λ e.
          if_ind (Counted n) given.no_file (λ d. leave-Counted _ _ _ refl)
            (λ d. send_head-Counted _ _))

  end_flushed-Counted : (epd : Epd) → Counted n (end_flushed site given serv epd)
  unfolding end_flushed
  end_flushed-Counted epd =
      if_ind (Counted n) (is_null ((close_chunks site given epd).iov 1))
        (λ e. leave-Counted _ _ _ refl) (λ e. write_out-Counted _ _)

-- In every case, with every `malloc`, site and state: `sending_counts` grows by one if the function
-- waits until the socket takes bytes, and else it is as before.
pub network_be_end-sending_counts :
    (site : Site) (malloc : Bool) (given : Given) (serv : ServStatus) (epd : Epd)
    → (network_be_end site malloc given serv epd).serv.sending_counts
      ≡ serv.sending_counts +ℤ in_flight (network_be_end site malloc given serv epd).last
unfolding network_be_end begin_send
network_be_end-sending_counts site malloc given serv epd =
    let started = begin_send serv in
    if_ind (Counted serv.sending_counts) (is_unread given epd)
      (λ e.
        if_ind (λ (v : ServStatus). v.sending_counts ≡ serv.sending_counts +ℤ pos 0)
          (is_read epd.status) (λ d. omega int_laws) (λ d. omega int_laws))
      (λ e.
        if_ind (Counted serv.sending_counts)
          (epd.process_timeout == 1
            && not (leb_ℤ epd.keepalive (negsuc 0) && leb_ℤ (negsuc 0) epd.keepalive))
          (λ d. omega int_laws)
          (λ d.
            if_ind (Counted serv.sending_counts) (epd.header_sended == 0)
              (λ c.
                end_whole-Counted site malloc given started serv.sending_counts refl
                  (record epd { status = send }))
              (λ c.
                end_flushed-Counted site malloc given started serv.sending_counts refl
                  (record epd { status = send }))))
