-- ===== src/LuaExt/Body/Parts.antt =====
-- What one call gives of the body of a request.
use alilua.Prelude.{
  ℕ, ◌+◌, ◌<◌, ◌≤◌, ◌≡◌, ap, ap₂, sym, ◌∙◌, true, false, not, List, [], ◌∷◌, ◌++◌, Bytes, codes,
  length, leb, ltb, ◌||◌, All, arith, append-nil, append_assoc, length-append, if_true, if_false,
  if_ind,
}
use alilua.Prelude.Int.{pos, leb_ℤ, ◌+ℤ◌, ◌-ℤ◌}
use alilua.Network.Epd.{is_read, read}
use alilua.Network.Write.{concat}
use alilua.Network.Read.Pieces.{deliveries, IsPiece}
use alilua.LuaExt.Body.{
  text, error, suspended, Reading, lua_read_request_body, stop_reading, Stop, at_block, next_size,
  read_parts, network_be_read_request_body,
}

-- The state after `n` more bytes.
abbrev pub more : Reading → ℕ → Reading
more s n = record s { epd = record (s.epd) { data_len = s.epd.data_len + n } }

more_add : (s : Reading) (m n : ℕ) → more (more s m) n ≡ more s (m + n)
more_add s m n =
    let e : s.epd.data_len + m + n ≡ s.epd.data_len + (m + n) = omega arith in
    ap (λ (d : ℕ). record s { epd = record (s.epd) { data_len = d } }) e

more_zero : (s : Reading) → more s 0 ≡ s
more_zero s =
    let e : s.epd.data_len + 0 ≡ s.epd.data_len = omega arith in
    ap (λ (d : ℕ). record s { epd = record (s.epd) { data_len = d } }) e

-- The loop takes in all that comes before it would block.
pub read_parts-deliveries :
    (s : Reading) (size : ℕ) (buf : Bytes) (ps : List Bytes)
    → All IsPiece ps
    → read_parts (λ n. true) s size buf (deliveries ps)
      ≡ (more s (length (concat ps)), buf ++ concat ps, at_block)
unfolding read_parts
read_parts-deliveries s size buf [] h =
    let state = sym (more_zero s) in
    let bytes = sym (append-nil buf) in λ i. (state i, bytes i, at_block)
read_parts-deliveries s size buf ([] ∷ ps) (h, hs) = absurd (omega arith)
read_parts-deliveries s size buf ((b ∷ bs) ∷ ps) (h, hs) =
    let buf' = buf ++ b ∷ bs in
    let all = buf ++ (b ∷ bs) ++ concat ps in
    let total : length (b ∷ bs) + length (concat ps) ≡ length ((b ∷ bs) ++ concat ps) =
      sym (length-append (b ∷ bs) (concat ps)) in
    let state = more_add s (length (b ∷ bs)) (length (concat ps)) ∙ ap (more s) total in
    let bytes = append_assoc buf (b ∷ bs) (concat ps) in
    let joined : (more (more s (length (b ∷ bs))) (length (concat ps)), buf' ++ concat ps, at_block)
        ≡ (more s (length (concat ((b ∷ bs) ∷ ps))), buf ++ concat ((b ∷ bs) ∷ ps), at_block) =
      λ i. (state i, bytes i, at_block) in
    let later = λ (n : ℕ). read_parts-deliveries (more s (length (b ∷ bs))) n buf' ps hs ∙ joined in
    if_ind
      (λ (r : Reading × Bytes × Stop).
        r ≡ (more s (length (concat ((b ∷ bs) ∷ ps))), buf ++ concat ((b ∷ bs) ∷ ps), at_block))
      (not (leb size (length buf'))) (λ _. later size) (λ _. later (next_size size))

-- A connection that is open and whose `contents` were read; of its body which `k` bytes are missing.
pub record IsReading (s : Reading) (k : ℕ) : Type 0 where
  pub no_contents : s.has_contents ≡ false
  pub open_fd : s.is_open ≡ true
  pub body : ℕ
  pub content_length : s.epd.content_length ≡ pos body
  pub missing : body + s.epd.header_length ≡ s.epd.data_len + k
  pub head_in : s.epd.header_length ≤ s.epd.data_len

-- The part that a wake-up hands to the program.
pub callback-text :
    (s : Reading) (ps : List Bytes)
    → All IsPiece ps
    → 0 < length (concat ps)
    → network_be_read_request_body true (λ n. true) s (deliveries ps)
      ≡ (stop_reading (more s (length (concat ps))), text (concat ps))
unfolding network_be_read_request_body
callback-text s ps h p =
    let some_bytes : ltb 0 (length (concat ps)) ≡ true = ground arith in
    rw (read_parts-deliveries s 8192 [] ps h) (if_true (ltb 0 (length (concat ps))) _ some_bytes)

pub stop_reading-IsReading : (s : Reading) (k : ℕ) → IsReading s k → IsReading (stop_reading s) k
unfolding stop_reading
stop_reading-IsReading s k r =
    if_ind (λ (x : Reading). IsReading x k) (is_read s.epd.status)
      (λ _. record {
        no_contents = r.no_contents;
        open_fd = r.open_fd;
        body = r.body;
        content_length = r.content_length;
        missing = r.missing;
        head_in = r.head_in;
      })
      (λ _. r)

pub more-IsReading : (s : Reading) (n k : ℕ) → IsReading s (n + k) → IsReading (more s n) k
more-IsReading s n k r = record {
  no_contents = r.no_contents;
  open_fd = r.open_fd;
  body = r.body;
  content_length = r.content_length;
  missing = omega (arith, r.missing);
  head_in = omega (arith, r.head_in);
}

-- The connection that waits for more of its body.
abbrev pub awaiting : Reading → Reading
awaiting s = record s {
  serv = record (s.serv) { reading_counts = s.serv.reading_counts +ℤ pos 1 };
  epd = record (s.epd) { status = read };
}

pub awaiting-IsReading : (s : Reading) (k : ℕ) → IsReading s k → IsReading (awaiting s) k
awaiting-IsReading s k r = record {
  no_contents = r.no_contents;
  open_fd = r.open_fd;
  body = r.body;
  content_length = r.content_length;
  missing = r.missing;
  head_in = r.head_in;
}

before_end : (d h n k : ℕ) → n + h ≡ d + k → h ≤ d → 0 < k → leb_ℤ (pos n) (pos d -ℤ pos h) ≡ false
unfolding ◌-ℤ◌
before_end d h n k e le lt = ground arith

at_the_end : (d h n : ℕ) → n + h ≡ d + 0 → h ≤ d → leb_ℤ (pos n) (pos d -ℤ pos h) ≡ true
unfolding ◌-ℤ◌
at_the_end d h n e le = ground arith

-- The call behind a part: the program waits on, or is told that the body has ended.
pub next_call-suspended :
    (headers : Bytes) (s : Reading) (k : ℕ)
    → IsReading s k
    → 0 < k
    → lua_read_request_body headers s ≡ (awaiting s, suspended)
unfolding lua_read_request_body
next_call-suspended headers s k r h =
    let test : leb_ℤ s.epd.content_length (pos s.epd.data_len -ℤ pos s.epd.header_length) ≡ false =
      ap (λ z. leb_ℤ z (pos s.epd.data_len -ℤ pos s.epd.header_length)) r.content_length
      ∙ before_end s.epd.data_len s.epd.header_length r.body k r.missing r.head_in h in
    if_false s.has_contents _ r.no_contents ∙ if_false _ _ (ap₂ (λ o l. not o || l) r.open_fd test)

pub next_call-eof :
    (headers : Bytes) (s : Reading)
    → IsReading s 0
    → lua_read_request_body headers s ≡ (s, error (codes "eof"))
unfolding lua_read_request_body
next_call-eof headers s r =
    let test : leb_ℤ s.epd.content_length (pos s.epd.data_len -ℤ pos s.epd.header_length) ≡ true =
      ap (λ z. leb_ℤ z (pos s.epd.data_len -ℤ pos s.epd.header_length)) r.content_length
      ∙ at_the_end s.epd.data_len s.epd.header_length r.body r.missing r.head_in in
    if_false s.has_contents _ r.no_contents ∙ if_true _ _ (ap₂ (λ o l. not o || l) r.open_fd test)
