-- ===== src/Network/Read/Bounds.antt =====
-- What `network_be_read` writes stays inside the buffer.
use alilua.Prelude.{
  ℕ, ◌+◌, ◌-◌, ◌<◌, ◌≤◌, ◌≡◌, refl, ap, ◌∙◌, not, Option, none, some, inl, inr, ◌⊎◌, List, [], ◌∷◌,
  ◌++◌, Bytes, length, take, drop, ltb, if_ind, ◌&&◌, arith, length-append, length-take-le,
  length-drop, Option-cases, ltb→lt,
}
use mathlib.Core.Path.{subst}
use alilua.ServStatus.{ServStatus}
use alilua.Network.Epd.{Epd, bytes_of, is_read, read, process}
use alilua.Network.End.{is_null}
use alilua.Network.Reader.{
  Reader, Config, Checked, passed, rejected, open_buffer, make_room, take_in, count_reading,
  examine,
}
use alilua.Network.Reader.Examined.{OfChecked}
use alilua.Network.Read.{
  closes, ReadOutcome, put_nuls, begin_job, count_job, put_continue, send_continue, launch,
  expects_continue, asks_status, start_job, Input, received, would_block, broken, client_closed,
  Round, after_check, read_round, read_loop, network_be_read,
}
use alilua.Network.Read.Rounds.{OfRound, read_loop-round}
use alilua.Network.Reader.Room.{
  FindsInside, IsSound, HasRoom, IsReady, open_buffer-IsReady, take_in-IsSound, Inside,
  examine-Inside,
}

-- `recv` gives no more than it is asked for.
abbrev pub Fits : Config → ℕ → ServStatus → Reader → List Input → Type 0
Fits c now serv r [] = Unit
Fits c now serv r (would_block ∷ rest) = Unit
Fits c now serv r (broken ∷ rest) = Unit
Fits c now serv r (received [] ∷ rest) = Unit
Fits c now serv r (received (b ∷ bs) ∷ rest) =
    (length (b ∷ bs) ≤ r.buf_size - r.epd.data_len)
    × OfRound (λ serv' r'. Fits c now serv' r' rest) (λ o. Unit) (read_round c now serv r (b ∷ bs))

abbrev FitsFrom : Config → ℕ → ServStatus → List Input → Option Reader → Type 0
FitsFrom c now serv inputs none = Unit
FitsFrom c now serv inputs (some r) = Fits c now serv r inputs

-- The same, once the buffer is allocated or enlarged.
abbrev pub FitsOpened : Config → ℕ → ServStatus → Reader → List Input → Type 0
FitsOpened c now serv r inputs = FitsFrom c now serv inputs (open_buffer c r)

module _ (c : Config) (positive : 0 < c.buffer_size) (inside : FindsInside c.stristr) where
  abbrev Safe : ReadOutcome → Type 0
  Safe o = IsSound o.reader × ((o.next ≡ closes) ⊎ HasRoom o.reader)

  -- A job that starts writes a zero behind the received bytes at most.
  length-put_nuls :
      (headers : Bytes) (data_len header_len : ℕ)
      → header_len < data_len
      → length (put_nuls headers data_len header_len) ≤ data_len + 1
  unfolding put_nuls
  length-put_nuls headers data_len header_len h =
      let behind = drop (header_len + 1) (take data_len headers) in
      omega (
        arith,
        length-append {0} (take header_len headers) (0 ∷ (behind ++ 0 ∷ [])),
        length-append {0} behind (0 ∷ []),
        length-take-le {0} header_len headers,
        length-take-le {0} data_len headers,
        length-drop {0} (header_len + 1) (take data_len headers),
      )

  -- The buffer and what it holds are the same.
  record SameBuffer (r r' : Reader) : Type 0 where
    same_headers : r'.headers ≡ r.headers
    same_size : r'.buf_size ≡ r.buf_size
    same_len : r'.epd.data_len ≡ r.epd.data_len
    same_head : r'.epd.header_length ≡ r.epd.header_length

  abbrev Kept : Reader → ReadOutcome → Type 0
  Kept r o = SameBuffer r o.reader

  put_continue-same :
      (epd : Epd)
      → ((put_continue epd).data_len ≡ epd.data_len)
        × ((put_continue epd).header_length ≡ epd.header_length)
  unfolding put_continue
  put_continue-same epd =
      if_ind (λ (e : Epd). (e.data_len ≡ epd.data_len) × (e.header_length ≡ epd.header_length))
        (is_null (epd.iov 0)) (λ _. (refl, refl)) (λ _. (refl, refl))

  same : (r : Reader) → SameBuffer r r
  same r = record { same_headers = refl; same_size = refl; same_len = refl; same_head = refl }

  launch-SameBuffer : (serv : ServStatus) (r : Reader) → Kept r (launch c serv r)
  unfolding launch send_continue
  launch-SameBuffer serv r =
      if_ind (Kept r) (expects_continue c r)
        (λ _.
          if_ind (Kept r) (is_null (r.epd.iov 0) && not (c.malloc c.ep_d_buf_size)) (λ _. same r)
            (λ _. record {
              same_headers = refl;
              same_size = refl;
              same_len = (put_continue-same r.epd).0;
              same_head = (put_continue-same r.epd).1;
            }))
        (λ _.
          if_ind (Kept r) (asks_status (take r.header_len (bytes_of r.headers)))
            (λ _. record {
              same_headers = refl;
              same_size = refl;
              same_len = refl;
              same_head = refl;
            })
            (λ _. same r))

  Kept-Safe : (r : Reader) (o : ReadOutcome) → IsSound r → HasRoom r → Kept r o → Safe o
  Kept-Safe r o s room k = (
    record {
      written = omega (
        arith,
        s.written,
        k.same_size,
        ap (λ (h : Option Bytes). length (bytes_of h)) k.same_headers,
      );
      in_buffer = omega (arith, s.in_buffer, k.same_size, k.same_len);
      head_in = omega (arith, s.head_in, k.same_head, k.same_len);
    },
    inr (omega (arith, room, k.same_size, k.same_len)),
  )

  start_job-Safe :
      (now : ℕ) (serv : ServStatus) (r : Reader)
      → IsSound r
      → HasRoom r
      → 0 < r.epd.header_length
      → Safe (start_job c now serv r)
  unfolding start_job begin_job
  start_job-Safe now serv r s room h =
      let nuls =
        length-put_nuls (bytes_of r.headers) r.epd.data_len (r.epd.header_length - 1)
          (omega (arith, s.head_in)) in
      let sound : IsSound (begin_job c r) = record {
        written = omega (arith, nuls, room);
        in_buffer = s.in_buffer;
        head_in = s.head_in;
      } in
      if_ind Safe (is_read r.epd.status)
        (λ _.
          let r' : Reader = record (begin_job c r) {
            epd = record ((begin_job c r).epd) { status = process; header_sended = 0 };
          } in
          Kept-Safe r' (launch c (count_job now serv) r')
            (record {
              written = sound.written;
              in_buffer = sound.in_buffer;
              head_in = sound.head_in;
            })
            room (launch-SameBuffer (count_job now serv) r'))
        (λ _. (sound, inr room))

  abbrev SafeRound : Round → Type 0
  SafeRound = OfRound (λ serv r. IsSound r × HasRoom r × (r.epd.status ≡ read)) Safe

  with_epd : (r : Reader) (e : Epd) → IsSound r → Inside r e → IsSound (record r { epd = e })
  with_epd r e s k = record {
    written = s.written;
    in_buffer = omega (arith, s.in_buffer, k.same_len);
    head_in = omega (arith, k.head_in, k.same_len);
  }

  after_check-Safe :
      (now : ℕ) (serv : ServStatus) (r : Reader) (k : Checked)
      → IsSound r
      → HasRoom r
      → r.epd.status ≡ read
      → OfChecked (Inside r) k
      → SafeRound (after_check c now serv r k)
  unfolding after_check
  after_check-Safe now serv r (rejected code message e) s room st i =
      (with_epd r e s i, inr (omega (arith, room, i.same_len)))
  after_check-Safe now serv r (passed e) s room st i =
      let room' : HasRoom (record r { epd = e }) = omega (arith, room, i.same_len) in
      if_ind SafeRound (ltb 0 e.header_length)
        (λ h.
          start_job-Safe now serv (record r { epd = e }) (with_epd r e s i) room' (ltb→lt _ _ h))
        (λ _. (with_epd r e s i, room', i.same_status ∙ st))

  read_round-Safe :
      (now : ℕ) (serv : ServStatus) (r : Reader) (bytes : Bytes)
      → IsReady r
      → length bytes ≤ r.buf_size - r.epd.data_len
      → SafeRound (read_round c now serv r bytes)
  unfolding read_round
  read_round-Safe now serv r bytes ready fits = elim (Option-cases (make_room c r (length bytes))) [
    | inl e ↦ rw (e, read_round) ((ready.sound, inl refl))
    | inr (r', e) ↦
        let (s, room) = take_in-IsSound c positive inside r r' bytes ready fits e in
        rw (e, read_round)
          (after_check-Safe now (count_reading serv r') (take_in r' bytes)
            (examine c (take_in r' bytes)) s room (unfold take_in in refl)
            (examine-Inside c positive inside (take_in r' bytes) s))
  ]

  client_closed-Safe :
      (serv : ServStatus) (r : Reader) → IsSound r → HasRoom r → Safe (client_closed serv r)
  unfolding client_closed
  client_closed-Safe serv r s room =
      if_ind Safe (ltb 0 r.epd.data_len)
        (λ _.
          (record { written = s.written; in_buffer = s.in_buffer; head_in = s.head_in }, inr room))
        (λ _. (s, inl refl))

  read_loop-Safe :
      (now : ℕ) (serv : ServStatus) (r : Reader) (inputs : List Input)
      → IsReady r
      → HasRoom r
      → Fits c now serv r inputs
      → Safe (read_loop c now serv r inputs)
  unfolding read_loop
  read_loop-Safe now serv r [] i room f = (i.sound, inr room)
  read_loop-Safe now serv r (would_block ∷ rest) i room f = (i.sound, inr room)
  read_loop-Safe now serv r (broken ∷ rest) i room f = (i.sound, inl refl)
  read_loop-Safe now serv r (received [] ∷ rest) i room f = client_closed-Safe serv r i.sound room
  read_loop-Safe now serv r (received (b ∷ bs) ∷ rest) i room (fits, f) =
      read_loop-round (λ serv' r'. IsSound r' × HasRoom r' × (r'.epd.status ≡ read)) Safe c now serv
        r b bs rest (read_round-Safe now serv r (b ∷ bs) i fits)
        (λ serv' r' e (s, room', st).
          read_loop-Safe now serv' r' rest
            (record { sound = s; fresh = λ d. absurd (ground (arith, ap is_read st)) }) room'
            (subst (OfRound (λ serv'' r''. Fits c now serv'' r'' rest) (λ o. Unit)) e f))

-- With a positive BUFFER_SIZE, a `stristr` that finds only what lies inside its range, a connection
-- whose buffer is in order and has bytes only once it is allocated and while it reads, and a `recv` that gives no more than
-- it is asked for: whatever memory there is, when `network_be_read` returns, all that was written,
-- the zeros included, lies in the buffer and the head within the received bytes; and unless the
-- connection is closed, there is room behind the bytes, so that the next `recv` asks for one at
-- least.
pub network_be_read-IsSound :
    (c : Config) (now : ℕ) (serv : ServStatus) (r : Reader) (inputs : List Input)
    → 0 < c.buffer_size
    → FindsInside c.stristr
    → IsReady r
    → (r.headers ≡ none → r.epd.data_len ≡ 0)
    → FitsOpened c now serv r inputs
    → IsSound (network_be_read c now serv r inputs).reader
      × (((network_be_read c now serv r inputs).next ≡ closes)
          ⊎ HasRoom (network_be_read c now serv r inputs).reader)
unfolding network_be_read
network_be_read-IsSound c now serv r inputs positive inside i n f =
    elim (Option-cases (open_buffer c r)) [
      | inl e ↦ rw (e, network_be_read) ((i.sound, inl refl))
      | inr (r', e) ↦
          let (i', room) = open_buffer-IsReady c positive inside r r' i n e in
          rw (e, network_be_read)
            (read_loop-Safe c positive inside now serv r' inputs i' room
              (subst (FitsFrom c now serv inputs) e f))
    ]
