-- ===== src/Network/Send/Whole.antt =====
-- `network_send` does not fail while there is memory.
use alilua.Prelude.{
  ℕ, zero, suc, ◌+◌, ◌<◌, ◌≤◌, ◌≡◌, ◌≢◌, refl, sym, ◌∙◌, Bool, true, false, Option, none, some,
  Bytes, length, drop, ltb, leb, ◌==◌, ◌||◌, arith, if_ind, update, [],
}
use alilua.Prelude.Int.{ℤ, pos, negsuc}
use alilua.Network.Epd.{Epd, max_iov_count}
use alilua.Network.Send.{current_buffer, fitting, fill, next_buffer, send_into, network_send}
use alilua.Network.Send.Buffers.{
  IsFilling, Opened, fill-IsFilling, next_buffer-IsFilling, first_buffer-IsFilling,
  current_buffer-Opened,
}

abbrev pub always : ℕ → Bool
always i = true

-- The result is a number of bytes.
abbrev pub IsNumber : Option ℤ → Type 0
IsNumber (some (pos n)) = Unit
IsNumber (some (negsuc n)) = ⊥
IsNumber none = ⊥

pub current_buffer-some : (epd : Epd) → (e : Epd) × (current_buffer always epd ≡ some e)
unfolding current_buffer
current_buffer-some epd =
    elim (epd.iov epd.iov_buf_count)
      as (λ b.
        (e : Epd) × (elim b [
          | some _ ↦ some epd
          | none ↦ some (record epd { iov = update epd.iov epd.iov_buf_count (some []) })
        ]
          ≡ some e)) [ none ↦ (_, refl) | some b ↦ (epd, refl) ]

module _ (size : ℕ) (again : Epd → Bytes → Epd × Option ℤ) (epd : Epd) (piece : Bytes) where
  send_into-IsNumber :
      (e2 : Epd)
      → Opened epd e2
      → ((e : Epd) (p : Bytes)
          → IsFilling e
          → e.process_timeout ≡ epd.process_timeout
          → e.sendfile ≡ epd.sendfile
          → 0 < length p
          → e.iov_buf_count ≡ epd.iov_buf_count + 1
          → e.iov_buf_count < max_iov_count
          → IsNumber (again e p).1)
      → epd.iov_buf_count + 1 < max_iov_count
      → IsNumber (send_into size again epd piece (some e2)).1
  unfolding send_into
  send_into-IsNumber e2 o h room =
      let len = fitting size e2 piece in
      let e3 = fill e2 len piece in
      let filling = next_buffer-IsFilling e3 (fill-IsFilling e2 len piece o.filling) in
      if_ind (λ (r : Epd × Option ℤ). IsNumber r.1) (ltb 0 (length (drop len piece)))
        (λ left.
          if_ind (λ (r : Epd × Option ℤ). IsNumber r.1) (leb max_iov_count (e3.iov_buf_count + 1))
            (λ _. tt)
            (λ _.
              h (next_buffer e3) (drop len piece) filling
                (unfold fill next_buffer in o.timeout_same)
                (unfold fill next_buffer in o.sendfile_same) (ground arith)
                (unfold fill next_buffer in omega (arith, o.count_same))
                (unfold fill next_buffer in omega (arith, o.count_same))))
        (λ _. tt)

-- With memory, a piece that is not empty, on a connection that has its first buffer, is not timed
-- out and sends no file: the result is a number of bytes.
pub network_send-IsNumber :
    (size fuel : ℕ) (epd : Epd) (piece : Bytes)
    → IsFilling epd
    → epd.process_timeout ≢ 1
    → epd.sendfile ≡ false
    → 0 < length piece
    → 0 < fuel
    → max_iov_count ≤ fuel + epd.iov_buf_count
    → IsNumber (network_send size always fuel epd piece).1
unfolding network_send
network_send-IsNumber size zero epd piece f t s l h g = absurd (omega arith)
network_send-IsNumber size (suc fuel) epd piece f t s l h g =
    let P = λ (r : Epd × Option ℤ). IsNumber r.1 in
    let (e2, opened) = current_buffer-some epd in
    rw (first_buffer-IsFilling always epd f) (
      if_ind P (epd.process_timeout == 1) (λ e. absurd (t (ground arith)))
        λ _.
          if_ind P (ltb (length piece) 1 || epd.sendfile) (λ e. absurd (ground arith))
            λ _.
              if_ind P (leb max_iov_count (epd.iov_buf_count + 1)) (λ _. tt)
                λ room. rw opened (
                  send_into-IsNumber size (network_send size always fuel) epd piece e2
                    (current_buffer-Opened always epd f opened)
                    (λ e p f' t' s' l' count left.
                      network_send-IsNumber size fuel e p f' (λ x. t (sym t' ∙ x)) (s' ∙ s) l'
                        (omega arith) (omega arith))
                    (ground arith)))
