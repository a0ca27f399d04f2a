-- ===== src/Network/End/Reading.antt =====
-- A response that ends for a connection that still counts as reading.
use alilua.Prelude.{
  ◌+◌, ◌≡◌, refl, ap, sym, ◌∙◌, Bool, false, not, List, ◌∷◌, Bytes, length, ltb, ◌==◌, ◌&&◌, if_ind,
  arith,
}
use alilua.Prelude.Int.{ℤ, pos}
use alilua.ServStatus.{ServStatus}
use alilua.Client.{Client}
use alilua.Client.Counts.{IsCounted, one_if, reading}
use alilua.Network.Read.Counts.{client_of}
use alilua.Network.Epd.{Epd, is_read, read, send, bytes_of}
use alilua.Network.Chunk.Status.{network_add_chunk_metas-status}
use alilua.Network.Build.{Site}
use alilua.Network.Build.Status.{network_build_header_out-status}
use alilua.Network.End.{
  is_null, put_head, Given, Ended, leave, write_out, head_alone, send_head, end_whole, close_chunks,
  end_flushed, is_unread, begin_send, network_be_end,
}

-- The counter is `n`, and the connection does not read.
abbrev LeftAt : ℤ → Ended → Type 0
LeftAt n e = (e.serv.reading_counts ≡ n) × (is_read e.epd.status ≡ false)

module _ (site : Site) (malloc : Bool) (given : Given) (serv : ServStatus) where
  abbrev Left : Ended → Type 0
  Left = LeftAt serv.reading_counts

  write_out-Left :
      (epd : Epd) (raw : Bytes) → is_read epd.status ≡ false → Left (write_out given serv epd raw)
  unfolding write_out leave
  write_out-Left epd raw h = if_ind Left given.has_se_ptr (λ _. (refl, h)) (λ _. (refl, refl))

  head_alone-Left :
      (epd : Epd) (out : Bytes) → is_read epd.status ≡ false → Left (head_alone given serv epd out)
  unfolding head_alone leave
  head_alone-Left epd out h =
      if_ind Left (epd.response_content_length == 0) (λ _. (refl, refl))
        (λ _. write_out-Left _ out h)

  send_head-Left :
      (epd : Epd) (out : Bytes)
      → is_read epd.status ≡ false
      → Left (send_head site malloc given serv epd out)
  unfolding send_head leave put_head
  send_head-Left epd out h =
      if_ind Left
        (ltb (length out) site.ep_d_buf_size
          && not epd.sendfile
          && ltb 0 (length (bytes_of (epd.iov 1))))
        (λ _.
          if_ind Left (is_null (epd.iov 0) && not malloc) (λ _. (refl, refl))
            (λ _. write_out-Left _ _ h))
        (λ _. head_alone-Left epd out h)

  end_whole-Left :
      (epd : Epd) → is_read epd.status ≡ false → Left (end_whole site malloc given serv epd)
  unfolding end_whole leave
  end_whole-Left epd h =
      if_ind Left
        (is_null (epd.iov 0) && is_null (epd.iov 1) && not epd.sendfile && not given.no_file)
        (λ _. (refl, refl))
        (λ _.
          if_ind Left given.no_file (λ _. (refl, refl))
            (λ _. send_head-Left _ _ (
              ap is_read
                (network_build_header_out-status site given.http_ver given.has_length_or_chunk epd)
              ∙ h)))

  close_chunks-status : (epd : Epd) → (close_chunks site given epd).status ≡ epd.status
  unfolding close_chunks
  close_chunks-status epd =
      if_ind (λ (e : Epd). e.status ≡ epd.status) (given.has_length_or_chunk == 2)
        (λ _.
          network_add_chunk_metas-status site.ep_d_buf_size site.ultostr given.http_ver
            (record epd { header_sended = 2 }))
        (λ _. refl)

  end_flushed-Left :
      (epd : Epd) → is_read epd.status ≡ false → Left (end_flushed site given serv epd)
  unfolding end_flushed leave
  end_flushed-Left epd h =
      if_ind Left (is_null ((close_chunks site given epd).iov 1)) (λ _. (refl, refl))
        (λ _. write_out-Left _ _ (ap is_read (close_chunks-status epd) ∙ h))

-- A request that is read to its end, with no timeout of its process, is answered while its connection
-- still counts as reading, as it is where `network_be_read` rejects a request by
-- `network_send_error`: if the counters counted the connections before, then after `network_be_end`
-- `reading_counts` is one more than the number of connections that read.
pub network_be_end-reading_counts :
    (site : Site) (malloc : Bool) (given : Given) (serv : ServStatus) (epd : Epd)
    (thread is_open : Bool) (cs : List Client)
    → IsCounted serv (client_of thread is_open read ∷ cs)
    → is_unread given epd ≡ false
    → (epd.process_timeout == 1) ≡ false
    → (network_be_end site malloc given serv epd).serv.reading_counts
      ≡ pos (
          1
          + reading (
              client_of thread is_open (network_be_end site malloc given serv epd).epd.status ∷ cs))
unfolding network_be_end begin_send
network_be_end-reading_counts site malloc given serv epd thread is_open cs h unread no_timeout =
    let sent : Epd = record epd { status = send } in
    let started = begin_send serv in
    let left : LeftAt serv.reading_counts (network_be_end site malloc given serv epd) =
      rw (unread, no_timeout)
        (if_ind (LeftAt serv.reading_counts) (epd.header_sended == 0)
          (λ _. end_whole-Left site malloc given started sent refl)
          (λ _. end_flushed-Left site malloc given started sent refl)) in
    let plus : 1 + reading cs ≡ 1 + (one_if false + reading cs) = omega arith in
    left.0
    ∙ h.reading_eq
    ∙ ap pos plus
    ∙ ap (λ (b : Bool). pos (1 + (one_if b + reading cs))) (sym left.1)
