-- ===== src/Network/Reader/Room.antt =====
-- The received bytes, and the head in them, lie in the buffer.
use alilua.Prelude.{
  ℕ, ◌+◌, ◌-◌, ◌<◌, ◌≤◌, ◌≡◌, refl, ap, sym, ◌∙◌, false, Option, none, some, inl, inr, Bytes,
  length, take, if_ind, arith, length-append, length-take-le, Option-cases, Bool-cases,
}
use alilua.Network.Epd.{Epd, bytes_of, is_read}
use alilua.Network.Reader.{
  Reader, Config, enlarge, open_buffer, make_room, take_in, blank_line, two_newlines, ends_blank,
  head_length, examine, received_bytes,
}
use alilua.Network.Reader.Examined.{OfChecked, OfChecked-map, examine-Same}

-- What `stristr` finds lies inside the bytes that it looks at.
abbrev pub FindsInside : (Bytes → Bytes → ℕ → Option ℕ) → Type 0
FindsInside stristr =
    (text t : Bytes) (len i : ℕ) → stristr text t len ≡ some i → i + length t ≤ len

-- All that was written lies in the buffer.
pub record IsSound (r : Reader) : Type 0 where
  pub written : length (bytes_of r.headers) ≤ r.buf_size
  pub in_buffer : r.epd.data_len ≤ r.buf_size
  pub head_in : r.epd.header_length ≤ r.epd.data_len

-- There is room behind the received bytes: `recv` is asked for at least one byte more.
abbrev pub HasRoom : Reader → Type 0
HasRoom r = r.epd.data_len < r.buf_size

-- A connection on which `network_be_read` may be called: with bytes only while it reads.
pub record IsReady (r : Reader) : Type 0 where
  pub sound : IsSound r
  pub fresh : is_read r.epd.status ≡ false → r.epd.data_len ≡ 0

pub make_room-epd :
    (c : Config) (r r' : Reader) (n : ℕ) → make_room c r n ≡ some r' → r'.epd ≡ r.epd
unfolding make_room enlarge
make_room-epd c r r' n h = ground arith

pub open_buffer-epd : (c : Config) (r r' : Reader) → open_buffer c r ≡ some r' → r'.epd ≡ r.epd
unfolding open_buffer enlarge
open_buffer-epd c r r' h = elim (Option-cases r.headers) [
  | inl e ↦ ground arith
  | inr (b, e) ↦ ground arith
]

-- What `examine` leaves alone, and the head lies in what was received.
pub record Inside (r : Reader) (e : Epd) : Type 0 where
  pub same_status : e.status ≡ r.epd.status
  pub same_len : e.data_len ≡ r.epd.data_len
  pub head_in : e.header_length ≤ r.epd.data_len

module _ (c : Config) (positive : 0 < c.buffer_size) (inside : FindsInside c.stristr) where
  head_length-le : (seen : Bytes) → head_length c seen ≤ length seen
  unfolding head_length
  head_length-le seen =
      if_ind (λ n. n ≤ length seen) (ends_blank seen) (λ _. omega arith)
        (λ _. elim (Option-cases (c.stristr seen blank_line (length seen))) [
          | inr (i, e) ↦ rw e (inside seen blank_line (length seen) i e)
          | inl e ↦ rw e (elim (Option-cases (c.stristr seen two_newlines (length seen))) [
            | inr (i, d) ↦ rw d (inside seen two_newlines (length seen) i d)
            | inl d ↦ rw d (omega arith)
          ])
        ])

  -- The buffer after `make_room` for `n` bytes.
  record Grown (r r' : Reader) (n : ℕ) : Type 0 where
    same_epd : r'.epd ≡ r.epd
    same_headers : r'.headers ≡ r.headers
    larger : r.buf_size ≤ r'.buf_size
    enough : r.epd.data_len + n < r'.buf_size

  make_room-Grown :
      (r r' : Reader) (n : ℕ)
      → n ≤ r.buf_size - r.epd.data_len
      → r.epd.data_len ≤ r.buf_size
      → make_room c r n ≡ some r'
      → Grown r r' n
  unfolding make_room enlarge
  make_room-Grown r r' n fits in_buffer e = record {
    same_epd = ground arith;
    same_headers = ground arith;
    larger = ground arith;
    enough = ground arith;
  }

  pub open_buffer-IsReady :
      (r r' : Reader)
      → IsReady r
      → (r.headers ≡ none → r.epd.data_len ≡ 0)
      → open_buffer c r ≡ some r'
      → IsReady r' × HasRoom r'
  unfolding open_buffer enlarge
  open_buffer-IsReady r r' i n e =
      let sound = i.sound in
      let d = open_buffer-epd c r r' e in
      let data_eq = ap (λ (x : Epd). x.data_len) d in
      let head_eq = ap (λ (x : Epd). x.header_length) d in
      let status_eq = ap (λ (x : Epd). is_read x.status) d in
      let room : (length (bytes_of r'.headers) ≤ r'.buf_size) × (r.epd.data_len < r'.buf_size) =
        elim (Option-cases r.headers) [
          | inl h ↦ let zero_len = n h in (ground arith, ground arith)
          | inr (b, h) ↦ (ground arith, ground arith)
        ] in
      (
        record {
          sound = record {
            written = room.0;
            in_buffer = omega (arith, data_eq, room.1);
            head_in = omega (arith, data_eq, head_eq, sound.head_in);
          };
          fresh = λ f. data_eq ∙ i.fresh (sym status_eq ∙ f);
        },
        omega (arith, data_eq, room.1),
      )

  take_in-data_len :
      (r : Reader) (bytes : Bytes)
      → (is_read r.epd.status ≡ false → r.epd.data_len ≡ 0)
      → (take_in r bytes).epd.data_len ≡ r.epd.data_len + length bytes
  unfolding take_in
  take_in-data_len r bytes h = elim (Bool-cases (is_read r.epd.status)) [
    | inl e ↦ rw e refl
    | inr e ↦ rw e (omega (arith, h e))
  ]

  pub take_in-IsSound :
      (r r' : Reader) (bytes : Bytes)
      → IsReady r
      → length bytes ≤ r.buf_size - r.epd.data_len
      → make_room c r (length bytes) ≡ some r'
      → IsSound (take_in r' bytes) × HasRoom (take_in r' bytes)
  unfolding take_in
  take_in-IsSound r r' bytes (ready) fits e =
      let g = make_room-Grown r r' (length bytes) fits ready.sound.in_buffer e in
      let data_eq : r'.epd.data_len ≡ r.epd.data_len = ap (λ (x : Epd). x.data_len) g.same_epd in
      let head_eq : r'.epd.header_length ≡ r.epd.header_length =
        ap (λ (x : Epd). x.header_length) g.same_epd in
      let total : (take_in r' bytes).epd.data_len ≡ r'.epd.data_len + length bytes =
        take_in-data_len r' bytes
          (λ d. data_eq ∙ ready.fresh (sym (ap (λ (x : Epd). is_read x.status) g.same_epd) ∙ d)) in
      (
        record {
          written = omega (
            arith,
            length-append {0} (take r'.epd.data_len (bytes_of r'.headers)) bytes,
            length-take-le {0} r'.epd.data_len (bytes_of r'.headers),
            g.enough,
            data_eq,
          );
          in_buffer = omega (arith, total, g.enough, data_eq);
          head_in = omega (arith, total, head_eq, data_eq, ready.sound.head_in);
        },
        omega (arith, total, g.enough, data_eq),
      )

  pub examine-Inside : (r : Reader) → IsSound r → OfChecked (Inside r) (examine c r)
  examine-Inside r s =
      OfChecked-map _ (Inside r) (examine c r)
        (λ e. elim [
          | inl k ↦ record {
            same_status = k.status;
            same_len = k.data_len;
            head_in = omega (arith, k.header_length, s.head_in);
          }
          | inr k ↦ record {
            same_status = k.status;
            same_len = k.data_len;
            head_in = omega (
              arith,
              k.header_length,
              head_length-le (received_bytes r),
              length-take-le {0} r.epd.data_len (bytes_of r.headers),
            );
          }
        ])
        (examine-Same c r)
