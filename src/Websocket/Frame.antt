-- ===== src/Websocket/Frame.antt =====
-- src/websocket.c: the head of a frame, as `ws_send_data` writes it and as `websocket_be_read`
-- reads it.
pub mod Bits
pub mod RoundTrip
use alilua.Prelude.{
  ℕ, zero, suc, ◌+◌, ◌*◌, ◌/◌, ◌%◌, ◌^◌, Bool, true, false, not, List, [], ◌∷◌, Bytes, bit_and,
  bit_or, bit_xor, get_or, ltb, leb, ◌==◌, if◌then◌else◌,
}

-- `_ntohll` on a little-endian host. A shift to the left drops what leaves the 64 bits.
pub ntohll : ℕ → ℕ
ntohll n =
    let a =
      bit_or (bit_and (n * 2 ^ 8 % 2 ^ 64) 0xFF00_FF00_FF00_FF00)
        (bit_and (n / 2 ^ 8) 0x00FF_00FF_00FF_00FF) in
    let b =
      bit_or (bit_and (a * 2 ^ 16 % 2 ^ 64) 0xFFFF_0000_FFFF_0000)
        (bit_and (a / 2 ^ 16) 0x0000_FFFF_0000_FFFF) in
    bit_or (b * 2 ^ 32 % 2 ^ 64) (b / 2 ^ 32)

-- The bytes of a number in the memory of a little-endian host.
pub stored : ℕ → ℕ → Bytes
stored zero n = []
stored (suc k) n = n % 256 ∷ stored k (n / 256)

-- The first byte; the flags are 0 or 1.
unfoldable pub first_byte : ℕ → ℕ → ℕ → ℕ → ℕ → ℕ
first_byte fin rsv1 rsv2 rsv3 opcode =
    bit_or (bit_or (bit_or (bit_or (fin * 2 ^ 7) (rsv1 * 2 ^ 6)) (rsv2 * 2 ^ 5)) (rsv3 * 2 ^ 4))
      opcode
    % 256

-- `buf_256` up to `offset`. A server sets no mask. `htons` puts the high byte first.
unfoldable pub frame_head : ℕ → ℕ → ℕ → ℕ → ℕ → ℕ → Bytes
frame_head fin rsv1 rsv2 rsv3 opcode payload_len =
    let first = first_byte fin rsv1 rsv2 rsv3 opcode in
    if ltb payload_len 126
    then first ∷ payload_len ∷ []
    else if leb payload_len 0xFFFF
    then first ∷ 126 ∷ payload_len / 256 % 256 ∷ payload_len % 256 ∷ []
    else first ∷ 127 ∷ stored 8 (ntohll payload_len)

-- What `websocket_be_read` takes from the head; `offset` is `masking_key_offset`.
pub record Head : Type 0 where
  pub opcode : ℕ
  pub fin : Bool
  pub masked : Bool
  pub payload_length : ℕ
  pub offset : ℕ

-- The eight bytes that `memcpy` copies into `payload_length`, on a little-endian host.
pub loaded : ℕ → (ℕ → ℕ) → ℕ → ℕ
loaded zero headers i = 0
loaded (suc k) headers i = headers i + 256 * loaded k headers (i + 1)

-- `headers` is the receive buffer by index, whatever was received of it.
unfoldable pub read_head : (ℕ → ℕ) → Head
read_head headers =
    let short = bit_and (headers 1) 0x7f in
    record {
      opcode = bit_and (headers 0) 0x0f;
      fin = not (bit_and (headers 0) (2 ^ 7) == 0);
      masked = not (bit_and (headers 1) (2 ^ 7) == 0);
      payload_length =
          if short == 126
          then headers 2 * 256 + headers 3
          else if short == 127
          then loaded 8 headers 2
          else short;
      offset = if short == 126 then 4 else if short == 127 then 10 else 2;
    }

-- `contents[i] ^ frame_masking_key[i & 0x03]`, from index `i` on; `i & 0x03` is `i % 4`.
unfoldable pub unmask : (ℕ → ℕ) → ℕ → Bytes → Bytes
unmask key i [] = []
unmask key i (c ∷ cs) = bit_xor c (key (i % 4)) ∷ unmask key (i + 1) cs
