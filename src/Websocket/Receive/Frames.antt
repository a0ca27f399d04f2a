-- ===== src/Websocket/Receive/Frames.antt =====
-- What reaches Lua of the frames of a client, however the network cuts them.
use alilua.Prelude.{
  ℕ, ◌+◌, ◌%◌, ◌^◌, ◌<◌, ◌≤◌, ◌≡◌, ◌≢◌, refl, ◌∙◌, true, false, List, [], ◌∷◌, ◌++◌, Bytes, ltb,
  leb, ◌==◌, if◌then◌else◌, arith, length, take_all, All, IsByte, Bool-cases, inl, inr,
  length-append, append_assoc,
}
use alilua.Prelude.Int.{pos, negsuc, ◌+ℤ◌, add-sub_one}
use alilua.ServStatus.{ServStatus}
use alilua.Network.Epd.{wait}
use alilua.Websocket.Frame.{read_head, unmask}
use alilua.Websocket.Frame.RoundTrip.{at_index, described, length-unmask}
use alilua.Websocket.Receive.{
  Ws, Message, to_int, store, take_head, deliver, receive, Recv, got, websocket_be_read,
}
use alilua.Websocket.Receive.Collect.{
  collecting, then_receive, arriving, whole, IsSome, handed_on, collected,
}
use alilua.Websocket.Receive.Masked.{
  masked_head, masked_frame, no_bytes, read_masked, length-masked_head, masked_body,
  payload_of-masked,
}

-- No byte of a frame was received yet.
abbrev pub waiting : Ws → Ws
waiting ws = record ws { status = wait; buf = []; content_length = negsuc 0 }

abbrev counted : ServStatus → ServStatus
counted serv = record serv { reading_counts = serv.reading_counts +ℤ pos 1 }

to_int_small : (n : ℕ) → n < 2 ^ 31 → to_int n ≡ pos n
unfolding to_int
to_int_small n h =
    let e : n % 2 ^ 32 ≡ n = omega arith in
    let lt : ltb n (2 ^ 31) ≡ true = ground arith in rw (e, lt) refl

-- The first part of a frame; a head has at most 4 bytes here.
receive_first :
    (serv : ServStatus) (ws : Ws) (c : Bytes) (stale : ℕ → ℕ) (fin opcode len : ℕ)
    → read_head (at_index c stale) ≡ described fin 1 opcode len
    → opcode ≢ 8
    → len ≤ 0xFFFF
    → 2 ≤ length c
    → receive serv (waiting ws) c stale
      ≡ deliver stale
          (counted serv)
          (collecting ws true
            (if ltb len 126 then 2 else 4)
            (len + (if ltb len 126 then 2 else 4) + 4)
            c)
          (pos (len + (if ltb len 126 then 2 else 4) + 4))
unfolding receive take_head store
receive_first serv ws c stale fin opcode len e ho hl hc =
    let long : leb 2 (length c) ≡ true = ground arith in
    let open_frame : (opcode == 8) ≡ false = ground arith in
    let small : len + (if ltb len 126 then 2 else 4) + 4 < 2 ^ 31 = ground arith in
    rw (take_all (length c) c (omega arith), e, long, to_int_small _ small, open_frame) refl

delivers :
    (serv : ServStatus) (ws : Ws) (fin opcode : ℕ) (key text : Bytes) (stale : ℕ → ℕ)
    → fin ≤ 1
    → opcode < 16
    → length text ≤ 0xFFFF
    → length key ≡ 4
    → All IsByte key
    → All IsByte text
    → deliver stale serv
        (collecting ws true
          (length (masked_head fin opcode (length text)))
          (length (masked_frame fin opcode key text))
          (masked_frame fin opcode key text))
        (pos (length (masked_frame fin opcode key text)))
      ≡ handed_on serv ws true
          (length (masked_head fin opcode (length text)))
          (record { payload = text; opcode = opcode; fin = fin == 1 })
unfolding deliver masked_body
delivers serv ws fin opcode key text stale hf ho hl hk hb ht =
    let full : leb (length (masked_frame fin opcode key text))
          (length (masked_frame fin opcode key text))
        ≡ true =
      ground arith in
    rw
      (
        full,
        read_masked fin opcode (length text) (key ++ unmask (at_index key no_bytes) 0 text) stale hf
            ho hl,
        payload_of-masked (masked_head fin opcode (length text)) key text hk ws _ stale refl hb ht,
      )
      refl

read_first :
    (serv : ServStatus) (ws : Ws) (c : Bytes) (stale : ℕ → ℕ) (rest : List Recv) (offset total : ℕ)
    → receive serv (waiting ws) c stale
      ≡ deliver stale (counted serv) (collecting ws true offset total c) (pos total)
    → websocket_be_read serv (waiting ws) (got c stale ∷ rest)
      ≡ then_receive
          (deliver stale (counted serv) (collecting ws true offset total c) (pos total))
          rest
unfolding websocket_be_read deliver
read_first serv ws c stale rest offset total e =
    rw e (elim (Bool-cases (leb total (length c))) [ inl l ↦ rw l refl | inr l ↦ rw l refl ])

length-masked_frame :
    (fin opcode : ℕ) (key text : Bytes)
    → length key ≡ 4
    → length (masked_frame fin opcode key text)
      ≡ length text + (if ltb (length text) 126 then 2 else 4) + 4
length-masked_frame fin opcode key text hk = omega (
  arith,
  length-append (masked_head fin opcode (length text))
      (key ++ unmask (at_index key no_bytes) 0 text),
  length-append key (unmask (at_index key no_bytes) 0 text),
  length-unmask (at_index key no_bytes) 0 text,
  length-masked_head fin opcode (length text),
)

-- A masked frame of at most 0xFFFF bytes of payload that is not a close frame, that reaches a
-- waiting connection in any parts, the first of which holds the head and none of which is empty,
-- and that nothing follows, is handed to Lua once: with its payload unmasked,
-- its opcode and its fin flag. No close frame is sent, the connection waits again, and
-- `reading_counts` is what it was.
pub websocket_be_read-masked_frame :
    (serv : ServStatus) (ws : Ws) (fin opcode : ℕ) (key text c : Bytes) (stale : ℕ → ℕ)
    (cs : List (Bytes × (ℕ → ℕ)))
    → masked_head fin opcode (length text) ++ (c ++ whole cs) ≡ masked_frame fin opcode key text
    → fin ≤ 1
    → opcode < 16
    → opcode ≢ 8
    → length text ≤ 0xFFFF
    → length key ≡ 4
    → All IsByte key
    → All IsByte text
    → All IsSome cs
    → websocket_be_read serv
        (waiting ws)
        (arriving ((masked_head fin opcode (length text) ++ c, stale) ∷ cs))
      ≡ record {
        serv = serv;
        ws = record (waiting ws) {
          frame_mask = true;
          masking_key_offset = length (masked_head fin opcode (length text));
        };
        messages = record { payload = text; opcode = opcode; fin = fin == 1 } ∷ [];
        close_sent = false;
      }
websocket_be_read-masked_frame serv ws fin opcode key text c stale cs e hf ho h8 hl hk hb ht hs =
    let f = masked_frame fin opcode key text in
    let head = masked_head fin opcode (length text) in
    let m : Message = record { payload = text; opcode = opcode; fin = fin == 1 } in
    let long : 2 ≤ length (head ++ c) =
      ground (arith, length-append head c, length-masked_head fin opcode (length text)) in
    let first : receive serv (waiting ws) (head ++ c) stale
        ≡ deliver stale (counted serv) (collecting ws true (length head) (length f) (head ++ c))
            (pos (length f)) =
      rw (length-masked_frame fin opcode key text hk, length-masked_head fin opcode (length text))
        (receive_first serv ws (head ++ c) stale fin opcode (length text)
          (read_masked fin opcode (length text) c stale hf ho hl) h8 hl long) in
    read_first serv ws (head ++ c) stale (arriving cs) (length head) (length f) first
    ∙ collected (counted serv) ws true (length head) (length f) f m
        (λ stale. delivers (counted serv) ws fin opcode key text stale hf ho hl hk hb ht) cs
        (head ++ c) stale (append_assoc head c (whole cs) ∙ e) refl hs
    ∙ rw (add-sub_one serv.reading_counts) refl
