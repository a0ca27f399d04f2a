-- ===== src/Network/Read/Counts.antt =====
-- The counters of a worker count its connections whichever way `network_be_read` returns.
use alilua.Prelude.{
  ℕ, ◌≡◌, refl, ap, ◌∙◌, Bool, true, false, not, inl, inr, List, [], ◌∷◌, Bytes, length, if_ind,
  arith, Option-cases, Bool-cases, ltb, ◌&&◌, take, if◌then◌else◌, sym,
}
use mathlib.Core.Path.{subst}
use alilua.Prelude.Int.{pos, ◌+ℤ◌, ◌-ℤ◌, int_laws}
use alilua.ServStatus.{ServStatus}
use alilua.Client.{Client}
use alilua.Client.Counts.{IsCounted}
use alilua.Network.Epd.{Epd, Step, bytes_of, is_read, is_send, read, process, send, wait}
use alilua.Network.End.{is_null}
use alilua.Network.Reader.{
  Reader, Config, Checked, passed, rejected, open_buffer, make_room, take_in, count_reading,
  examine,
}
use alilua.Network.Reader.Examined.{OfChecked, OfChecked-map, examine-Same}
use alilua.Network.Reader.Room.{open_buffer-epd, make_room-epd}
use alilua.Network.Read.Rounds.{OfRound, read_loop-round}
use alilua.Network.Read.{
  ReadOutcome, begin_job, count_job, send_continue, start_job, launch, expects_continue,
  asks_status, Input, received, would_block, broken, client_closed, Round, after_check, read_round,
  read_loop, network_be_read,
}

-- The connection, as the counters see it.
abbrev pub client_of : Bool → Bool → Step → Client
client_of thread is_open status = record { status = status; has_thread = thread; is_open = is_open }

-- A connection on which a request may come: it is not sending, and has bytes only while it reads.
pub record IsReceiving (r : Reader) : Type 0 where
  pub not_sending : is_send r.epd.status ≡ false
  pub empty : is_read r.epd.status ≡ false → r.epd.data_len ≡ 0

is_read-eq : (s : Step) → is_read s ≡ true → s ≡ read
is_read-eq read h = refl
is_read-eq send h = cc
is_read-eq process h = cc
is_read-eq wait h = cc

module _ (thread is_open : Bool) (cs : List Client) where
  abbrev pub Counts : ServStatus → Step → Type 0
  Counts serv status = IsCounted serv (client_of thread is_open status ∷ cs)

  begin-Counts :
      (serv : ServStatus) (s : Step)
      → is_send s ≡ false
      → Counts serv s
      → Counts
          (if is_read s
            then serv
            else record serv { reading_counts = serv.reading_counts +ℤ pos 1 })
          read
  begin-Counts serv read n h = h
  begin-Counts serv send n h = absurd (cc)
  begin-Counts serv process n h = record {
    reading_eq = ap (λ c. c +ℤ pos 1) h.reading_eq ∙ omega int_laws;
    sending_eq = h.sending_eq;
    active_eq = h.active_eq;
  }
  begin-Counts serv wait n h = record {
    reading_eq = ap (λ c. c +ℤ pos 1) h.reading_eq ∙ omega int_laws;
    sending_eq = h.sending_eq;
    active_eq = h.active_eq;
  }

  pub leave-Counts :
      (serv : ServStatus)
      → Counts serv read
      → Counts (record serv { reading_counts = serv.reading_counts -ℤ pos 1 }) process
  leave-Counts serv h = record {
    reading_eq = ap (λ c. c -ℤ pos 1) h.reading_eq ∙ omega int_laws;
    sending_eq = h.sending_eq;
    active_eq = h.active_eq;
  }

  count_job-Counts :
      (now : ℕ) (serv : ServStatus) → Counts serv read → Counts (count_job now serv) process
  unfolding count_job
  count_job-Counts now serv h =
      let l = leave-Counts serv h in
      record { reading_eq = l.reading_eq; sending_eq = l.sending_eq; active_eq = l.active_eq }

  send-Counts :
      (serv : ServStatus)
      → Counts serv process
      → Counts (record serv { sending_counts = serv.sending_counts +ℤ pos 1 }) send
  send-Counts serv h = record {
    reading_eq = h.reading_eq;
    sending_eq = ap (λ c. c +ℤ pos 1) h.sending_eq ∙ omega int_laws;
    active_eq = h.active_eq;
  }

  abbrev Counted : ReadOutcome → Type 0
  Counted o = Counts o.serv o.reader.epd.status

  send_continue-Counted :
      (c : Config) (serv : ServStatus) (r : Reader)
      → r.epd.status ≡ process
      → Counts serv process
      → Counted (send_continue c serv r)
  unfolding send_continue
  send_continue-Counted c serv r e h =
      if_ind Counted (is_null (r.epd.iov 0) && not (c.malloc c.ep_d_buf_size))
        (λ _. subst (Counts serv) (sym e) h) (λ _. send-Counts serv h)

  launch-Counted :
      (c : Config) (serv : ServStatus) (r : Reader)
      → r.epd.status ≡ process
      → Counts serv process
      → Counted (launch c serv r)
  unfolding launch
  launch-Counted c serv r e h =
      if_ind Counted (expects_continue c r) (λ _. send_continue-Counted c serv r e h)
        (λ _.
          if_ind Counted (asks_status (take r.header_len (bytes_of r.headers)))
            (λ _. subst (Counts serv) (sym e) h) (λ _. subst (Counts serv) (sym e) h))

  start_job-Counted :
      (c : Config) (now : ℕ) (serv : ServStatus) (r : Reader)
      → r.epd.status ≡ read
      → Counts serv read
      → Counted (start_job c now serv r)
  unfolding start_job begin_job
  start_job-Counted c now serv r e h =
      if_ind Counted (is_read r.epd.status)
        (λ _. launch-Counted c (count_job now serv) _ refl (count_job-Counts now serv h))
        (λ _. subst (Counts serv) (sym e) h)

  -- After a round that goes on, the connection is as the next one wants it.
  abbrev CountedRound : Round → Type 0
  CountedRound = OfRound (λ serv r. (r.epd.status ≡ read) × Counts serv read) Counted

  after_check-Counted :
      (c : Config) (now : ℕ) (serv : ServStatus) (r : Reader) (k : Checked)
      → Counts serv read
      → OfChecked (λ (e : Epd). e.status ≡ read) k
      → CountedRound (after_check c now serv r k)
  unfolding after_check
  after_check-Counted c now serv r (rejected code message epd) h e = subst (Counts serv) (sym e) h
  after_check-Counted c now serv r (passed epd) h e =
      if_ind CountedRound (ltb 0 epd.header_length)
        (λ _. start_job-Counted c now serv (record r { epd = epd }) e h) (λ _. (e, h))

  examine-status :
      (c : Config) (r : Reader)
      → r.epd.status ≡ read
      → OfChecked (λ (e : Epd). e.status ≡ read) (examine c r)
  examine-status c r e =
      OfChecked-map _ (λ (d : Epd). d.status ≡ read) (examine c r)
        (λ d. elim [ inl s ↦ s.status ∙ e | inr s ↦ s.status ∙ e ]) (examine-Same c r)

  count_reading-Counts :
      (serv : ServStatus) (r : Reader) (bytes : Bytes)
      → is_send r.epd.status ≡ false
      → Counts serv r.epd.status
      → Counts (count_reading serv r) read
  unfolding count_reading
  count_reading-Counts serv r bytes n h = begin-Counts serv r.epd.status n h

  read_round-Counted :
      (c : Config) (now : ℕ) (serv : ServStatus) (r : Reader) (bytes : Bytes)
      → is_send r.epd.status ≡ false
      → Counts serv r.epd.status
      → CountedRound (read_round c now serv r bytes)
  unfolding read_round
  read_round-Counted c now serv r bytes n h = elim (Option-cases (make_room c r (length bytes))) [
    | inl e ↦ rw (e, read_round) h
    | inr (r', e) ↦
        let kept = make_room-epd c r r' (length bytes) e in
        rw (e, read_round)
          (after_check-Counted c now (count_reading serv r') (take_in r' bytes)
            (examine c (take_in r' bytes))
            (count_reading-Counts serv r' bytes (ap (λ (x : Epd). is_send x.status) kept ∙ n)
              (subst (λ (x : Epd). Counts serv x.status) (sym kept) h))
            (examine-status c (take_in r' bytes) (unfold take_in in refl)))
  ]

  client_closed-Counted :
      (serv : ServStatus) (r : Reader)
      → IsReceiving r
      → Counts serv r.epd.status
      → Counted (client_closed serv r)
  unfolding client_closed
  client_closed-Counted serv r i h =
      if_ind Counted (ltb 0 r.epd.data_len)
        (λ some_data. elim (Bool-cases (is_read r.epd.status)) [
          | inl e ↦ leave-Counts serv (subst (Counts serv) (is_read-eq r.epd.status e) h)
          | inr e ↦ absurd (ground (arith, i.empty e))
        ])
        (λ _. h)

  read_loop-Counted :
      (c : Config) (now : ℕ) (serv : ServStatus) (r : Reader) (inputs : List Input)
      → IsReceiving r
      → Counts serv r.epd.status
      → Counted (read_loop c now serv r inputs)
  unfolding read_loop
  read_loop-Counted c now serv r [] i h = h
  read_loop-Counted c now serv r (would_block ∷ rest) i h = h
  read_loop-Counted c now serv r (broken ∷ rest) i h = h
  read_loop-Counted c now serv r (received [] ∷ rest) i h = client_closed-Counted serv r i h
  read_loop-Counted c now serv r (received (b ∷ bs) ∷ rest) i h =
      read_loop-round (λ serv' r'. (r'.epd.status ≡ read) × Counts serv' read) Counted c now serv r
        b bs rest (read_round-Counted c now serv r (b ∷ bs) i.not_sending h)
        (λ serv' r' _ k.
          read_loop-Counted c now serv' r' rest
            (record {
              not_sending = ap is_send k.0;
              empty = λ d. absurd (ground (arith, ap is_read k.0));
            })
            (subst (Counts serv') (sym k.0) k.1))

-- A connection at which a request may come or is coming, with counters that count the connections:
-- for every configuration and everything that `recv` answers, the counters count the connections
-- again, with this one in the state that it is in, when `network_be_read` returns, or, if it rejects the
-- request, when it calls `network_send_error`. What that call does to the counters is not part of it.
pub network_be_read-IsCounted :
    (thread is_open : Bool) (cs : List Client) (c : Config) (now : ℕ) (serv : ServStatus)
    (r : Reader) (inputs : List Input)
    → IsReceiving r
    → IsCounted serv (client_of thread is_open r.epd.status ∷ cs)
    → IsCounted
        (network_be_read c now serv r inputs).serv
        (client_of thread is_open (network_be_read c now serv r inputs).reader.epd.status ∷ cs)
unfolding network_be_read
network_be_read-IsCounted thread is_open cs c now serv r inputs i h =
    elim (Option-cases (open_buffer c r)) [
      | inl e ↦ rw (e, network_be_read) h
      | inr (r', e) ↦
          let kept = open_buffer-epd c r r' e in
          rw (e, network_be_read)
            (read_loop-Counted thread is_open cs c now serv r' inputs
              (record {
                not_sending = ap (λ (x : Epd). is_send x.status) kept ∙ i.not_sending;
                empty = λ d.
                    ap (λ (x : Epd). x.data_len) kept
                    ∙ i.empty (sym (ap (λ (x : Epd). is_read x.status) kept) ∙ d);
              })
              (subst (λ (x : Epd). IsCounted serv (client_of thread is_open x.status ∷ cs))
                (sym kept) h))
    ]
