-- ===== src/Websocket/Frame/RoundTrip.antt =====
-- A frame's head is read back, both a server's own and a client's.
use alilua.Prelude.{
  ℕ, zero, suc, ◌+◌, ◌*◌, ◌/◌, ◌%◌, ◌<◌, ◌≤◌, ◌≡◌, refl, ap, [], ◌∷◌, ◌++◌, Bytes, bit_xor, ltb,
  ◌==◌, if◌then◌else◌, arith, length, All, IsByte, Bool-cases, inl, inr, ltb→lt,
}
use alilua.Websocket.Frame.{stored, frame_head, Head, read_head, unmask}
use alilua.Websocket.Frame.Bits.{low_four, low_seven, top_bit, first_byte_lem, bit_xor_twice}

-- A list of bytes as the receive buffer; what lies behind them is any bytes.
abbrev pub at_index : Bytes → (ℕ → ℕ) → ℕ → ℕ
at_index [] stale i = stale i
at_index (b ∷ bs) stale zero = b
at_index (b ∷ bs) stale (suc i) = at_index bs stale i

-- What a frame with one length byte or with a length of two bytes says.
abbrev pub described : ℕ → ℕ → ℕ → ℕ → Head
described fin masked opcode len = record {
  opcode = opcode;
  fin = fin == 1;
  masked = masked == 1;
  payload_length = len;
  offset = if ltb len 126 then 2 else 4;
}

pub read_head_short :
    (h : ℕ → ℕ) (fin masked opcode len : ℕ)
    → fin ≤ 1
    → masked ≤ 1
    → opcode < 16
    → len < 126
    → h 0 ≡ fin * 128 + opcode
    → h 1 ≡ masked * 128 + len
    → read_head h ≡ described fin masked opcode len
unfolding read_head
read_head_short h fin masked opcode len hf hm ho hl e0 e1 = ground (
  arith,
  low_four (h 0) (omega arith),
  low_seven (h 1) (omega arith),
  top_bit (h 0) (omega arith),
  top_bit (h 1) (omega arith),
)

pub read_head_long :
    (h : ℕ → ℕ) (fin masked opcode len : ℕ)
    → fin ≤ 1
    → masked ≤ 1
    → opcode < 16
    → 126 ≤ len
    → len ≤ 0xFFFF
    → h 0 ≡ fin * 128 + opcode
    → h 1 ≡ masked * 128 + 126
    → h 2 ≡ len / 256
    → h 3 ≡ len % 256
    → read_head h ≡ described fin masked opcode len
unfolding read_head
read_head_long h fin masked opcode len hf hm ho hl hk e0 e1 e2 e3 = ground (
  arith,
  low_four (h 0) (omega arith),
  low_seven (h 1) (omega arith),
  top_bit (h 0) (omega arith),
  top_bit (h 1) (omega arith),
)

-- The head that `ws_send_data` writes is read back by `websocket_be_read`, for a fin flag of 0 or 1,
-- the other flags 0, an opcode below 16, and a payload of at most 0xFFFF bytes.
pub read_head-frame_head :
    (fin opcode len : ℕ) (rest : Bytes) (stale : ℕ → ℕ)
    → fin ≤ 1
    → opcode < 16
    → len ≤ 0xFFFF
    → read_head (at_index (frame_head fin 0 0 0 opcode len ++ rest) stale)
      ≡ described fin 0 opcode len
unfolding frame_head
read_head-frame_head fin opcode len rest stale hf ho hl = elim (Bool-cases (ltb len 126)) [
  | inl e ↦
      read_head_short (at_index (frame_head fin 0 0 0 opcode len ++ rest) stale) fin 0 opcode len hf
        (omega arith) ho (ltb→lt _ _ e) (rw e (first_byte_lem fin opcode hf ho))
        (rw e (omega arith))
  | inr e ↦
      read_head_long (at_index (frame_head fin 0 0 0 opcode len ++ rest) stale) fin 0 opcode len hf
        (omega arith) ho (ground arith) hl (ground (arith, first_byte_lem fin opcode hf ho))
        (ground arith) (ground arith) (ground arith)
]

-- Masking bytes twice with one key of bytes gives them back.
pub unmask_twice :
    (key : ℕ → ℕ) (i : ℕ) (cs : Bytes)
    → ((j : ℕ) → key j < 256)
    → All IsByte cs
    → unmask key i (unmask key i cs) ≡ cs
unfolding unmask
unmask_twice key i [] hk h = refl
unmask_twice key i (c ∷ cs) hk (hc, h) =
    rw (bit_xor_twice c (key (i % 4)) hc (hk (i % 4)))
      (ap (◌∷◌ c) (unmask_twice key (i + 1) cs hk h))

-- The key is read at the indices below 4 only.
pub unmask_ext :
    (key key' : ℕ → ℕ) (i : ℕ) (cs : Bytes)
    → ((j : ℕ) → j < 4 → key j ≡ key' j)
    → unmask key i cs ≡ unmask key' i cs
unfolding unmask
unmask_ext key key' i [] h = refl
unmask_ext key key' i (c ∷ cs) h =
    rw (h (i % 4) (omega arith))
      (ap (◌∷◌ (bit_xor c (key' (i % 4)))) (unmask_ext key key' (i + 1) cs h))

pub length-unmask : (key : ℕ → ℕ) (i : ℕ) (cs : Bytes) → length (unmask key i cs) ≡ length cs
unfolding unmask
length-unmask key i [] = refl
length-unmask key i (c ∷ cs) = omega (arith, length-unmask key (i + 1) cs)

pub length-frame_head-ge :
    (fin rsv1 rsv2 rsv3 opcode len : ℕ) → 2 ≤ length (frame_head fin rsv1 rsv2 rsv3 opcode len)
unfolding frame_head stored
length-frame_head-ge fin rsv1 rsv2 rsv3 opcode len = ground arith
