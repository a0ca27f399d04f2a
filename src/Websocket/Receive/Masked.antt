-- ===== src/Websocket/Receive/Masked.antt =====
-- The frame of a client, and its payload in the receive buffer.
use alilua.Prelude.{
  ℕ, zero, suc, ◌+◌, ◌-◌, ◌*◌, ◌/◌, ◌%◌, ◌<◌, ◌≤◌, ◌≡◌, refl, ap, ◌∙◌, true, [], ◌∷◌, ◌++◌, Bytes,
  ltb, if◌then◌else◌, arith, length, drop, take_all, All, IsByte, Bool-cases, inl, inr, ltb→lt,
  length-append,
}
use alilua.Websocket.Frame.{read_head, unmask}
use alilua.Websocket.Frame.RoundTrip.{
  at_index, described, unmask_twice, unmask_ext, read_head_short, read_head_long,
}
use alilua.Websocket.Receive.{Ws, payload_of}
use alilua.Websocket.Receive.Collect.{collecting}

-- A client's frame: the head with the mask bit, the key, and the payload under the key.
abbrev pub masked_head : ℕ → ℕ → ℕ → Bytes
masked_head fin opcode len =
    if ltb len 126
    then (fin * 128 + opcode) ∷ (1 * 128 + len) ∷ []
    else (fin * 128 + opcode) ∷ (1 * 128 + 126) ∷ (len / 256) ∷ (len % 256) ∷ []

abbrev pub no_bytes : ℕ → ℕ
no_bytes i = 0

abbrev pub masked_frame : ℕ → ℕ → Bytes → Bytes → Bytes
masked_frame fin opcode key text =
    masked_head fin opcode (length text) ++ (key ++ unmask (at_index key no_bytes) 0 text)

at_index_left :
    (a b : Bytes) (stale stale' : ℕ → ℕ) (i : ℕ)
    → i < length a
    → at_index (a ++ b) stale i ≡ at_index a stale' i
at_index_left [] b stale stale' i h = absurd (omega arith)
at_index_left (x ∷ a) b stale stale' zero h = refl
at_index_left (x ∷ a) b stale stale' (suc i) h = at_index_left a b stale stale' i (omega arith)

at_index_right :
    (a b : Bytes) (stale : ℕ → ℕ) (i : ℕ)
    → at_index (a ++ b) stale (length a + i) ≡ at_index b stale i
at_index_right [] b stale i = ap (at_index b stale) (omega arith)
at_index_right (x ∷ a) b stale i =
    let e : suc (length a) + i ≡ suc (length a + i) = omega arith in
    rw e (at_index_right a b stale i)

drop_past : (a b : Bytes) (n : ℕ) → drop (length a + n) (a ++ b) ≡ drop n b
drop_past [] b n = ap (λ k. drop k b) (omega arith)
drop_past (x ∷ a) b n =
    let e : suc (length a) + n ≡ suc (length a + n) = omega arith in rw e (drop_past a b n)

pub read_masked :
    (fin opcode : ℕ) (len : ℕ) (rest : Bytes) (stale : ℕ → ℕ)
    → fin ≤ 1
    → opcode < 16
    → len ≤ 0xFFFF
    → read_head (at_index (masked_head fin opcode len ++ rest) stale) ≡ described fin 1 opcode len
read_masked fin opcode len rest stale hf ho hl = elim (Bool-cases (ltb len 126)) [
  | inl e ↦
      read_head_short (at_index (masked_head fin opcode len ++ rest) stale) fin 1 opcode len hf
        (omega arith) ho (ltb→lt _ _ e) (rw e refl) (rw e refl)
  | inr e ↦
      read_head_long (at_index (masked_head fin opcode len ++ rest) stale) fin 1 opcode len hf
        (omega arith) ho (ground arith) hl (rw e refl) (rw e refl) (rw e refl) (rw e refl)
]

pub length-masked_head :
    (fin opcode len : ℕ) → length (masked_head fin opcode len) ≡ (if ltb len 126 then 2 else 4)
length-masked_head fin opcode len = ground arith

at_index-IsByte : (bs : Bytes) (j : ℕ) → All IsByte bs → at_index bs no_bytes j < 256
at_index-IsByte [] j h = omega arith
at_index-IsByte (b ∷ bs) zero (hb, h) = hb
at_index-IsByte (b ∷ bs) (suc j) (hb, h) = at_index-IsByte bs j h

-- Behind a head `h` and the key, the payload is the text again.
module _ (h key text : Bytes) (hk : length key ≡ 4) where
  unfoldable pub masked_body : Bytes
  masked_body = unmask (at_index key no_bytes) 0 text

  drop-body : drop (length h + 4) (h ++ (key ++ masked_body)) ≡ masked_body
  drop-body =
      drop_past h (key ++ masked_body) 4
      ∙ (let e : 4 ≡ length key + 0 = omega arith in rw e (drop_past key masked_body 0))

  key_at :
      (stale : ℕ → ℕ) (j : ℕ)
      → j < 4
      → at_index (h ++ (key ++ masked_body)) stale (length h + j) ≡ at_index key no_bytes j
  key_at stale j hj =
      at_index_right h (key ++ masked_body) stale j
      ∙ at_index_left key masked_body stale no_bytes j (omega arith)

  pub payload_of-masked :
      (ws : Ws) (total : ℕ) (stale : ℕ → ℕ)
      → total ≡ length (h ++ (key ++ masked_body))
      → All IsByte key
      → All IsByte text
      → payload_of stale (collecting ws true (length h) total (h ++ (key ++ masked_body))) total
        ≡ text
  unfolding payload_of masked_body
  payload_of-masked ws total stale e hb ht =
      let enough : length masked_body ≤ total - length h - 4 =
        omega (arith, length-append h (key ++ masked_body), length-append key masked_body) in
      rw (drop-body, take_all (total - length h - 4) masked_body enough)
        (unmask_ext _ (at_index key no_bytes) 0 masked_body (key_at stale)
          ∙ unmask_twice (at_index key no_bytes) 0 text (λ j. at_index-IsByte key j hb) ht)
