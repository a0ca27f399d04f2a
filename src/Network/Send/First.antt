-- ===== src/Network/Send/First.antt =====
-- The first buffer of a response: it is never empty once something was sent.
use alilua.Prelude.{
  ℕ, zero, suc, ◌+◌, ◌<◌, ◌≤◌, ◌≡◌, ◌≢◌, refl, sym, ap, false, Option, none, some, [], ◌∷◌, Bytes,
  length, take, drop, update, update_self, update_ne, ltb, leb, ◌==◌, ◌||◌, arith, if_ind,
  length-append, inl, inr, Bool-cases, Option-cases,
}
use mathlib.Core.Path.{subst}
use alilua.Prelude.Int.{ℤ}
use alilua.Network.Epd.{Epd, max_iov_count, bytes_of}
use alilua.Network.Send.{
  first_buffer, current_buffer, fitting, fill, next_buffer, send_into, network_send,
}
use alilua.Network.Send.Whole.{always, current_buffer-some}

-- The first buffer holds something, and a later one may be filled.
pub record HasFirst (epd : Epd) : Type 0 where
  pub is_some : 0 < length (bytes_of (epd.iov 1))
  pub is_counted : 0 < epd.iov_buf_count

take_some : (n : ℕ) (xs : Bytes) → 0 < n → 0 < length xs → 0 < length (take n xs)
take_some zero xs h k = absurd (omega arith)
take_some (suc n) [] h k = absurd (omega arith)
take_some (suc n) (x ∷ xs) h k = omega arith

-- A write to one buffer that keeps what is there.
write-first :
    (iov : ℕ → Option Bytes) (n : ℕ) (b : Bytes)
    → 0 < length (bytes_of (iov 1))
    → length (bytes_of (iov n)) ≤ length b
    → 0 < length (bytes_of (update iov n (some b) 1))
write-first iov n b h longer = elim (Bool-cases (n == 1)) [
  | inl e ↦
      let first : n ≡ 1 = ground arith in
      let longer' : length (bytes_of (iov 1)) ≤ length b =
        subst (λ m. length (bytes_of (iov m)) ≤ length b) first longer in
      subst (λ m. 0 < length (bytes_of (update iov m (some b) 1))) (sym first)
        (omega (arith, h, longer'))
  | inr e ↦ rw (update_ne iov n (some b) 1 (ground arith)) h
]

current_buffer-HasFirst :
    (epd e : Epd) → HasFirst epd → current_buffer always epd ≡ some e → HasFirst e
unfolding current_buffer
current_buffer-HasFirst epd e h eq = elim (Option-cases (epd.iov epd.iov_buf_count)) [
  | inl missing ↦
      let e2 : Epd = record epd { iov = update epd.iov epd.iov_buf_count (some []) } in
      let same : e2 ≡ e = ground arith in
      subst HasFirst same (record {
        is_some = write-first epd.iov epd.iov_buf_count [] h.is_some (rw missing (omega arith));
        is_counted = h.is_counted;
      })
  | inr (b, found) ↦ let same : epd ≡ e = ground arith in subst HasFirst same h
]

fill-HasFirst : (epd : Epd) (len : ℕ) (piece : Bytes) → HasFirst epd → HasFirst (fill epd len piece)
unfolding fill
fill-HasFirst epd len piece h = record {
  is_some =
      write-first epd.iov epd.iov_buf_count _ h.is_some
        (omega (arith, length-append {0} (bytes_of (epd.iov epd.iov_buf_count)) (take len piece)));
  is_counted = h.is_counted;
}

next_buffer-HasFirst : (epd : Epd) → HasFirst epd → HasFirst (next_buffer epd)
unfolding next_buffer
next_buffer-HasFirst epd h = record {
  is_some =
      rw (update_ne epd.iov (epd.iov_buf_count + 1) none 1 (omega (arith, h.is_counted))) h.is_some;
  is_counted = omega arith;
}

abbrev Keeps : Epd × Option ℤ → Type 0
Keeps r = HasFirst r.0

-- The copy, where the recursive call keeps the first buffer.
send_into-HasFirst :
    (size : ℕ) (again : Epd → Bytes → Epd × Option ℤ) (epd e : Epd) (piece : Bytes)
    → HasFirst (fill e (fitting size e piece) piece)
    → ((x : Epd) (p : Bytes) → HasFirst x → Keeps (again x p))
    → Keeps (send_into size again epd piece (some e))
unfolding send_into
send_into-HasFirst size again epd e piece h later =
    let len = fitting size e piece in
    let e3 = fill e len piece in
    if_ind Keeps (ltb 0 (length (drop len piece)))
      (λ _.
        if_ind Keeps (leb max_iov_count (e3.iov_buf_count + 1)) (λ _. h)
          (λ _. later (next_buffer e3) (drop len piece) (next_buffer-HasFirst e3 h)))
      (λ _. h)

first_buffer-HasFirst : (epd : Epd) → HasFirst epd → first_buffer always epd ≡ some epd
unfolding first_buffer
first_buffer-HasFirst epd h = elim (Option-cases (epd.iov 1)) [
  | inl missing ↦ absurd (omega (arith, h.is_some, ap (λ b. length (bytes_of b)) missing))
  | inr (b, found) ↦ rw (found, first_buffer) refl
]

pub network_send-HasFirst :
    (size fuel : ℕ) (epd : Epd) (piece : Bytes)
    → HasFirst epd
    → HasFirst (network_send size always fuel epd piece).0
unfolding network_send
network_send-HasFirst size zero epd piece h = h
network_send-HasFirst size (suc fuel) epd piece h =
    let (e, opened) = current_buffer-some epd in
    rw (first_buffer-HasFirst epd h) (
      if_ind Keeps (epd.process_timeout == 1) (λ _. h)
        λ _.
          if_ind Keeps (ltb (length piece) 1 || epd.sendfile) (λ _. h)
            λ _.
              if_ind Keeps (leb max_iov_count (epd.iov_buf_count + 1)) (λ _. h)
                λ _. rw opened (
                  send_into-HasFirst size (network_send size always fuel) epd e piece
                    (fill-HasFirst e (fitting size e piece) piece
                      (current_buffer-HasFirst epd e h opened))
                    (λ x p. network_send-HasFirst size fuel x p)))

-- The first buffer as it is allocated.
abbrev pub opened : Epd → Epd
opened epd = record epd {
  iov = update epd.iov 1 (some []);
  iov_buf_count = 1;
  response_content_length = 0;
}

-- A response without a buffer goes on as one with an empty one.
pub network_send-opened :
    (size fuel : ℕ) (epd : Epd) (piece : Bytes)
    → epd.iov 1 ≡ none
    → epd.iov_buf_count ≡ 1
    → epd.process_timeout ≢ 1
    → epd.sendfile ≡ false
    → 0 < length piece
    → network_send size always (suc fuel) epd piece
      ≡ network_send size always (suc fuel) (opened epd) piece
unfolding network_send first_buffer
network_send-opened size fuel epd piece none_ one t s h =
    let timeout : (epd.process_timeout == 1) ≡ false = ground arith in
    let some_bytes : ltb (length piece) 1 ≡ false = ground arith in
    let there : update epd.iov 1 (some []) 1 ≡ some [] = update_self epd.iov 1 (some []) in
    rw (none_, one, timeout, some_bytes, s, there) refl

-- The same at the start of a response, which counts no buffer.
pub network_send-opened_first :
    (size fuel : ℕ) (epd : Epd) (piece : Bytes)
    → epd.iov 1 ≡ none
    → epd.iov_buf_count ≡ 0
    → epd.process_timeout ≢ 1
    → epd.sendfile ≡ false
    → 0 < length piece
    → network_send size always (suc fuel) epd piece
      ≡ network_send size always (suc fuel) (opened epd) piece
unfolding network_send first_buffer
network_send-opened_first size fuel epd piece none_ zero_ t s h =
    let timeout : (epd.process_timeout == 1) ≡ false = ground arith in
    let some_bytes : ltb (length piece) 1 ≡ false = ground arith in
    let there : update epd.iov 1 (some []) 1 ≡ some [] = update_self epd.iov 1 (some []) in
    rw (none_, zero_, timeout, some_bytes, s, there) refl

first_fitting :
    (size : ℕ) (epd : Epd) (piece : Bytes)
    → 8 < size
    → 0 < length piece
    → 0 < length (take (fitting size (opened epd) piece) piece)
unfolding fitting
first_fitting size epd piece big h =
    let n : 0 < fitting size (opened epd) piece = ground arith in
    take_some (fitting size (opened epd) piece) piece n h

-- The first bytes of a response go into its first buffer.
pub network_send_first-HasFirst :
    (size fuel : ℕ) (epd : Epd) (piece : Bytes)
    → 8 < size
    → epd.process_timeout ≢ 1
    → epd.sendfile ≡ false
    → 0 < length piece
    → HasFirst (network_send size always (suc fuel) (opened epd) piece).0
unfolding network_send first_buffer current_buffer fill
network_send_first-HasFirst size fuel epd piece big t s h =
    let len = fitting size (opened epd) piece in
    let some_copied : 0 < length (take len piece) = first_fitting size epd piece big h in
    let filled : HasFirst (fill (opened epd) len piece) = record {
      is_some = some_copied;
      is_counted = omega arith;
    } in
    if_ind Keeps (epd.process_timeout == 1) (λ e. absurd (t (ground arith)))
      λ _.
        if_ind Keeps (ltb (length piece) 1 || epd.sendfile) (λ e. absurd (ground arith))
          λ _.
            send_into-HasFirst size (network_send size always fuel) (opened epd) (opened epd) piece
              filled (λ x p. network_send-HasFirst size fuel x p)
