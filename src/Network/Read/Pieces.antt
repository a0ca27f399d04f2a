-- ===== src/Network/Read/Pieces.antt =====
-- A head is received in whatever pieces it comes.
use alilua.Prelude.{
  ℕ, ◌+◌, ◌<◌, ◌≤◌, ◌≡◌, ◌≢◌, refl, ap, sym, ◌∙◌, true, false, not, none, some, List, [], ◌∷◌, ◌++◌,
  Bytes, length, get_or, ltb, leb, ◌==◌, ◌&&◌, ◌||◌, Option, arith, length-append, take_all,
  if_true, if_false, if◌then◌else◌, Bool-cases, inl, inr,
}
use alilua.Prelude.Int.{pos, leb_ℤ}
use alilua.ServStatus.{ServStatus}
use alilua.Network.Epd.{Epd, is_read, read}
use alilua.Network.Reader.{
  Reader, Config, passed, enlarge, make_room, take_in, count_reading, received_bytes, ends_blank,
  is_too_long, learn_length, check_body, after_length, examine_head, examine,
}
use alilua.Network.Reader.Blank.{Finds, has_end, head_length_zero, head_length-blank}
use alilua.Network.Read.{start_job, Input, received, stops, goes_on, after_check, read_round}

abbrev pub deliveries : List Bytes → List Input
deliveries [] = []
deliveries (p ∷ ps) = received p ∷ deliveries ps

abbrev pub IsPiece : Bytes → Type 0
IsPiece p = 0 < length p

-- There is memory, and the limit on the head allows `n` bytes.
pub record Allows (c : Config) (n : ℕ) : Type 0 where
  pub memory : (size : ℕ) → c.malloc size ≡ true
  pub within : (c.max_request_header == 0 || leb n c.max_request_header) ≡ true

-- The connection `r` once it has received `seen`, into a buffer of `size` bytes.
abbrev pub collecting : Reader → ℕ → Bytes → Reader
collecting r size seen = record r {
  epd = record (r.epd) { status = read; data_len = length seen; header_length = 0 };
  headers = some seen;
  buf_size = size;
}

-- The same, when `seen` is the head of a request without a body.
abbrev pub complete : Reader → ℕ → Bytes → Reader
complete r size seen = record r {
  epd = record (r.epd) {
    status = read;
    data_len = length seen;
    header_length = length seen;
    content_length = pos 0;
  };
  headers = some seen;
  buf_size = size;
}

-- A connection that has received `seen`, or has received nothing yet.
pub record Holds (r : Reader) (seen : Bytes) : Type 0 where
  pub held : received_bytes r ≡ seen
  pub counted : r.epd.data_len ≡ length seen
  pub fresh : is_read r.epd.status ≡ false → seen ≡ []
  pub no_end : r.epd.header_length ≡ 0

pub collecting-Holds : (r : Reader) (size : ℕ) (seen : Bytes) → Holds (collecting r size seen) seen
collecting-Holds r size seen = record {
  held = take_all (length seen) seen (omega arith);
  counted = refl;
  fresh = λ e. cc;
  no_end = refl;
}

module _ (c : Config) (finds : Finds c.stristr) where
  examine_open :
      (r : Reader) (size : ℕ) (seen : Bytes)
      → Allows c (length seen)
      → has_end seen ≡ false
      → examine c (collecting r size seen) ≡ passed ((collecting r size seen).epd)
  unfolding examine examine_head learn_length after_length check_body is_too_long
  examine_open r size seen a h = elim (Bool-cases (leb 4 (length seen))) [
    | inl e ↦
        let whole = take_all (length seen) seen (omega arith) in
        let zero_eq = head_length_zero c seen finds (ground arith) h in
        let w = a.within in
        let m = c.max_request_header in
        rw (e, whole, zero_eq)
          (if_false (ltb 0 m && (ltb m 0 || ltb m (length seen))) _ (ground arith))
    | inr e ↦ rw e refl
  ]

  learn_length-none :
      (seen : Bytes) (epd : Epd)
      → (epd.header_length == 0) ≡ false
      → leb_ℤ (pos 0) epd.content_length ≡ false
      → ends_blank seen ≡ true
      → get_or seen 0 0 ≢ b'P'
      → get_or seen 0 0 ≢ b'p'
      → learn_length c seen epd ≡ passed (record epd { content_length = pos 0 })
  unfolding learn_length
  learn_length-none seen epd known unknown blank not_P not_p =
      let is_P : (get_or seen 0 0 == b'P') ≡ false = ground arith in
      let is_p : (get_or seen 0 0 == b'p') ≡ false = ground arith in
      if_false (epd.header_length == 0 || leb_ℤ (pos 0) epd.content_length) _
        (rw (known, unknown) refl)
      ∙ if_true (ends_blank seen && not (get_or seen 0 0 == b'P') && not (get_or seen 0 0 == b'p'))
          _ (rw (blank, is_P, is_p) refl)

  check_body-whole : (epd : Epd) → epd.header_length ≡ epd.data_len → check_body epd ≡ passed epd
  unfolding check_body
  check_body-whole epd h =
      if_false
        (ltb 0 epd.header_length
          && ltb epd.header_length epd.data_len
          && leb_ℤ epd.content_length (pos 0))
        _ (ground arith)

  examine_complete :
      (r : Reader) (size : ℕ) (seen : Bytes)
      → Allows c (length seen)
      → 4 ≤ length seen
      → ends_blank seen ≡ true
      → get_or seen 0 0 ≢ b'P'
      → get_or seen 0 0 ≢ b'p'
      → leb_ℤ (pos 0) r.epd.content_length ≡ false
      → examine c (collecting r size seen) ≡ passed ((complete r size seen).epd)
  unfolding examine examine_head after_length is_too_long
  examine_complete r size seen a h blank not_P not_p unknown =
      let e : leb 4 (length seen) ≡ true = ground arith in
      let whole = take_all (length seen) seen (omega arith) in
      let all_eq = head_length-blank c seen blank in
      let w = a.within in
      let m = c.max_request_header in
      rw (e, whole, all_eq)
        (if_false (ltb 0 m && (ltb m (length seen) || (length seen == 0 && ltb m (length seen)))) _
            (ground arith)
          ∙ ap after_length (
              learn_length-none seen
                (record ((collecting r size seen).epd) { header_length = length seen })
                (ground arith) unknown blank not_P not_p)
          ∙ check_body-whole ((complete r size seen).epd) refl)

  -- The size of the buffer after `make_room`.
  grown : Reader → ℕ → ℕ
  grown r n = if leb r.buf_size (r.epd.data_len + n) then r.buf_size + c.buffer_size else r.buf_size

  make_room_lem :
      (r : Reader) (n : ℕ)
      → ((k : ℕ) → c.malloc k ≡ true)
      → make_room c r n ≡ some (record r { buf_size = grown r n })
  unfolding make_room enlarge grown
  make_room_lem r n m =
      let test = leb r.buf_size (r.epd.data_len + n) in
      let sized : ℕ → Option Reader = λ size. some (record r { buf_size = size }) in
      elim (Bool-cases test) [
        | inl d ↦
            if_true test (some r) d
            ∙ if_true (c.malloc (r.buf_size + c.buffer_size)) none (m (r.buf_size + c.buffer_size))
            ∙ ap sized (sym (if_true test r.buf_size d))
        | inr d ↦ if_false test _ d ∙ ap sized (sym (if_false test (r.buf_size + c.buffer_size) d))
      ]

  take_in_lem :
      (r : Reader) (seen p : Bytes)
      → Holds r seen
      → take_in r p ≡ collecting r r.buf_size (seen ++ p)
  unfolding take_in
  take_in_lem r seen p h =
      let text_eq = ap (λ t. t ++ p) h.held in
      let len_eq : (if is_read r.epd.status then r.epd.data_len + length p else length p)
          ≡ length (seen ++ p) =
        elim (Bool-cases (is_read r.epd.status)) [
          | inl e ↦ rw e (omega (arith, h.counted, length-append {0} seen p))
          | inr e ↦ rw (e, h.fresh e) refl
        ] in
      λ i. record r {
        epd = record (r.epd) { status = read; data_len = len_eq i; header_length = h.no_end i };
        headers = some (text_eq i);
      }

  -- A piece that does not end the head is kept.
  pub read_round-open :
      (now : ℕ) (serv : ServStatus) (r : Reader) (seen p : Bytes)
      → Holds r seen
      → Allows c (length (seen ++ p))
      → has_end (seen ++ p) ≡ false
      → (size : ℕ) × (read_round c now serv r p
          ≡ goes_on (count_reading serv r) (collecting r size (seen ++ p)))
  unfolding read_round after_check count_reading
  read_round-open now serv r seen p h a e =
      let size = grown r (length p) in
      let r' : Reader = record r { buf_size = size } in
      let h' : Holds r' seen = record {
        held = h.held;
        counted = h.counted;
        fresh = h.fresh;
        no_end = h.no_end;
      } in
      (
        size,
        rw
            (
              make_room_lem r (length p) a.memory,
              read_round,
              take_in_lem r' seen p h',
              examine_open r size (seen ++ p) a e,
            )
            refl,
      )

  -- The piece that ends the head starts the job.
  pub read_round-complete :
      (now : ℕ) (serv : ServStatus) (r : Reader) (seen p : Bytes)
      → Holds r seen
      → Allows c (length (seen ++ p))
      → 4 ≤ length (seen ++ p)
      → ends_blank (seen ++ p) ≡ true
      → get_or (seen ++ p) 0 0 ≢ b'P'
      → get_or (seen ++ p) 0 0 ≢ b'p'
      → leb_ℤ (pos 0) r.epd.content_length ≡ false
      → (size : ℕ) × (read_round c now serv r p
          ≡ stops (start_job c now (count_reading serv r) (complete r size (seen ++ p))))
  unfolding read_round after_check count_reading
  read_round-complete now serv r seen p h a long blank not_P not_p unknown =
      let size = grown r (length p) in
      let r' : Reader = record r { buf_size = size } in
      let h' : Holds r' seen = record {
        held = h.held;
        counted = h.counted;
        fresh = h.fresh;
        no_end = h.no_end;
      } in
      let known : ltb 0 (length (seen ++ p)) ≡ true = ground arith in
      (
        size,
        rw
            (
              make_room_lem r (length p) a.memory,
              read_round,
              take_in_lem r' seen p h',
              examine_complete r size (seen ++ p) a long blank not_P not_p unknown,
            )
            (if_true (ltb 0 (length (seen ++ p))) _ known),
      )
