-- ===== src/Network/Read/Limit.antt =====
-- `network_be_read` waits for no more of a head than the limit allows.
use alilua.Prelude.{
  ℕ, ◌<◌, ◌≤◌, ◌≡◌, ap, ◌∙◌, ◌&&◌, inl, inr, List, [], ◌∷◌, Bytes, length, ltb, leb, ◌==◌, if_ind,
  arith, Option-cases, Bool-cases, not, ◌≢◌, take, ltb→lt,
}
use alilua.ServStatus.{ServStatus}
use alilua.Network.Epd.{Epd, bytes_of, is_read}
use alilua.Network.End.{is_null}
use alilua.Network.Reader.{
  Reader, Config, Checked, passed, rejected, open_buffer, make_room, take_in, count_reading,
  is_too_long, received_bytes, examine_head, examine,
}
use alilua.Network.Reader.Examined.{OfChecked, Same, with_head, examine_head-Same}
use alilua.Network.Reader.Room.{open_buffer-epd, make_room-epd}
use alilua.Network.Read.{
  waits, ReadOutcome, begin_job, count_job, send_continue, expects_continue, asks_status, launch,
  start_job, Input, received, would_block, broken, client_closed, Round, after_check, read_round,
  read_loop, network_be_read,
}
use alilua.Network.Read.Rounds.{OfRound, read_loop-round}

-- The end of the head has not come, and no more than the limit was received.
pub record IsShort (c : Config) (r : Reader) : Type 0 where
  pub no_end : r.epd.header_length ≡ 0
  pub short : r.epd.data_len ≤ c.max_request_header

module _ (c : Config) (limited : 3 ≤ c.max_request_header) where
  -- A connection that may go on is short if its head has no end.
  abbrev ShortIfOpen : Epd → Type 0
  ShortIfOpen e = e.header_length ≡ 0 → e.data_len ≤ c.max_request_header

  abbrev PassedShort : Checked → Type 0
  PassedShort (passed e) = ShortIfOpen e
  PassedShort (rejected code message e) = Unit

  Same-PassedShort :
      (epd : Epd) (k : Checked) → OfChecked (Same epd) k → ShortIfOpen epd → PassedShort k
  Same-PassedShort epd (passed e) s h =
      λ z. omega (arith, s.data_len, h (omega (arith, s.header_length)))
  Same-PassedShort epd (rejected code message e) s h = tt

  examine_head-Short : (seen : Bytes) (epd : Epd) → PassedShort (examine_head c seen epd)
  unfolding examine_head is_too_long
  examine_head-Short seen epd = elim (Bool-cases (is_too_long c epd)) [
    | inl e ↦ rw (e, examine_head) tt
    | inr e ↦
        Same-PassedShort epd (examine_head c seen epd) (examine_head-Same c seen epd)
          (λ z. ground arith)
  ]

  examine-Short : (r : Reader) → r.epd.header_length ≡ 0 → PassedShort (examine c r)
  unfolding examine
  examine-Short r z =
      if_ind PassedShort (r.epd.header_length == 0 && leb 4 r.epd.data_len)
        (λ _. examine_head-Short (received_bytes r) (with_head c r)) (λ e z. ground arith)

  abbrev Limited : ReadOutcome → Type 0
  Limited o = o.next ≡ waits → ShortIfOpen o.reader.epd

  abbrev LimitedRound : Round → Type 0
  LimitedRound = OfRound (λ serv r. IsShort c r) Limited

  launch-Limited : (serv : ServStatus) (r : Reader) → Limited (launch c serv r)
  unfolding launch send_continue
  launch-Limited serv r =
      if_ind Limited (expects_continue c r)
        (λ _.
          if_ind Limited (is_null (r.epd.iov 0) && not (c.malloc c.ep_d_buf_size)) (λ _ w. cc)
            (λ _ w. cc))
        (λ _.
          if_ind Limited (asks_status (take r.header_len (bytes_of r.headers))) (λ _ w. cc)
            (λ _ w. cc))

  start_job-Limited :
      (now : ℕ) (serv : ServStatus) (r : Reader)
      → 0 < r.epd.header_length
      → Limited (start_job c now serv r)
  unfolding start_job begin_job
  start_job-Limited now serv r h =
      if_ind Limited (is_read r.epd.status) (λ _. launch-Limited (count_job now serv) _)
        (λ _ w z. absurd (omega arith))

  after_check-Limited :
      (now : ℕ) (serv : ServStatus) (r : Reader) (k : Checked)
      → PassedShort k
      → LimitedRound (after_check c now serv r k)
  unfolding after_check
  after_check-Limited now serv r (rejected code message e) s = λ w. cc
  after_check-Limited now serv r (passed e) s =
      if_ind LimitedRound (ltb 0 e.header_length)
        (λ h. start_job-Limited now serv (record r { epd = e }) (ltb→lt _ _ h))
        (λ h. let z : e.header_length ≡ 0 = ground arith in record { no_end = z; short = s z })

  read_round-Limited :
      (now : ℕ) (serv : ServStatus) (r : Reader) (bytes : Bytes)
      → r.epd.header_length ≡ 0
      → LimitedRound (read_round c now serv r bytes)
  unfolding read_round
  read_round-Limited now serv r bytes z = elim (Option-cases (make_room c r (length bytes))) [
    | inl e ↦ rw (e, read_round) (λ w. cc)
    | inr (r', e) ↦
        let kept = make_room-epd c r r' (length bytes) e in
        rw (e, read_round)
          (after_check-Limited now (count_reading serv r') (take_in r' bytes)
            (examine c (take_in r' bytes))
            (examine-Short (take_in r' bytes)
              (unfold take_in in ap (λ (x : Epd). x.header_length) kept ∙ z)))
  ]

  client_closed-ne-waits : (serv : ServStatus) (r : Reader) → (client_closed serv r).next ≢ waits
  unfolding client_closed
  client_closed-ne-waits serv r =
      if_ind (λ (o : ReadOutcome). o.next ≢ waits) (ltb 0 r.epd.data_len) (λ _ w. cc) (λ _ w. cc)

  read_loop-Limited :
      (now : ℕ) (serv : ServStatus) (r : Reader) (inputs : List Input)
      → IsShort c r
      → Limited (read_loop c now serv r inputs)
  unfolding read_loop
  read_loop-Limited now serv r [] s = λ _ _. s.short
  read_loop-Limited now serv r (would_block ∷ rest) s = λ _ _. s.short
  read_loop-Limited now serv r (broken ∷ rest) s = λ w. cc
  read_loop-Limited now serv r (received [] ∷ rest) s =
      λ w. absurd (client_closed-ne-waits serv r w)
  read_loop-Limited now serv r (received (b ∷ bs) ∷ rest) s =
      read_loop-round (λ serv' r'. IsShort c r') Limited c now serv r b bs rest
        (read_round-Limited now serv r (b ∷ bs) s.no_end)
        (λ serv' r' _ k. read_loop-Limited now serv' r' rest k)

-- With a limit on the head, of three bytes at least, and a connection that was within it: whatever
-- `recv` answers, when `network_be_read` waits for more and the end of the head has not come, no more
-- bytes are held than the limit says.
pub network_be_read-le-max_request_header :
    (c : Config) (now : ℕ) (serv : ServStatus) (r : Reader) (inputs : List Input)
    → 3 ≤ c.max_request_header
    → IsShort c r
    → (network_be_read c now serv r inputs).next ≡ waits
    → (network_be_read c now serv r inputs).reader.epd.header_length ≡ 0
    → (network_be_read c now serv r inputs).reader.epd.data_len ≤ c.max_request_header
unfolding network_be_read
network_be_read-le-max_request_header c now serv r inputs limited s =
    elim (Option-cases (open_buffer c r)) [
      | inl e ↦ rw (e, network_be_read) (λ w. cc)
      | inr (r', e) ↦
          let kept = open_buffer-epd c r r' e in
          rw (e, network_be_read)
            (read_loop-Limited c limited now serv r' inputs (record {
              no_end = ap (λ (x : Epd). x.header_length) kept ∙ s.no_end;
              short = omega (arith, ap (λ (x : Epd). x.data_len) kept, s.short);
            }))
    ]
