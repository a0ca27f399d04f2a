-- ===== src/Websocket/Frame/Bits.antt =====
-- The bit operations on the bytes of a frame, as arithmetic.
use alilua.Prelude.{
  ℕ, ◌+◌, ◌*◌, ◌/◌, ◌%◌, ◌^◌, ◌<◌, ◌≤◌, ◌≡◌, refl, bit_and, bit_xor, agree_below, eq_of_agree_below,
  arith,
}
use alilua.Websocket.Frame.{first_byte}

pub low_four : (b : ℕ) → b < 256 → bit_and b 0x0f ≡ b % 16
unfolding agree_below
low_four = eq_of_agree_below _ _ 256 refl

pub low_seven : (b : ℕ) → b < 256 → bit_and b 0x7f ≡ b % 128
unfolding agree_below
low_seven = eq_of_agree_below _ _ 256 refl

pub top_bit : (b : ℕ) → b < 256 → bit_and b (2 ^ 7) ≡ b / 128 * 128
unfolding agree_below
top_bit = eq_of_agree_below _ _ 256 refl

first_byte_table : (x : ℕ) → x < 32 → first_byte (x / 16) 0 0 0 (x % 16) ≡ x / 16 * 128 + x % 16
unfolding agree_below first_byte
first_byte_table =
    eq_of_agree_below (λ x. first_byte (x / 16) 0 0 0 (x % 16)) (λ x. x / 16 * 128 + x % 16) 32 refl

pub first_byte_lem :
    (fin opcode : ℕ) → fin ≤ 1 → opcode < 16 → first_byte fin 0 0 0 opcode ≡ fin * 128 + opcode
first_byte_lem fin opcode h k = ground (arith, first_byte_table (fin * 16 + opcode))

xor_table : (x : ℕ) → x < 65536 → bit_xor (bit_xor (x / 256) (x % 256)) (x % 256) ≡ x / 256
unfolding agree_below
xor_table =
    eq_of_agree_below (λ x. bit_xor (bit_xor (x / 256) (x % 256)) (x % 256)) (λ x. x / 256) 65536
      refl

-- A byte that is masked twice with one key byte is the byte again.
pub bit_xor_twice : (c k : ℕ) → c < 256 → k < 256 → bit_xor (bit_xor c k) k ≡ c
bit_xor_twice c k hc hk = ground (arith, xor_table (c * 256 + k))
