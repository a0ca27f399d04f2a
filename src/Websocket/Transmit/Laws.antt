-- ===== src/Websocket/Transmit/Laws.antt =====
-- A frame reaches the wire as its head and its payload.
use alilua.Prelude.{
  ℕ, zero, suc, ◌+◌, ◌-◌, ◌%◌, ◌^◌, ◌<◌, ◌≤◌, ◌≡◌, refl, sym, ap, ◌∙◌, true, false, none, List, [],
  ◌∷◌, ◌++◌, Bytes, ltb, if_ind, arith, length, take, drop, take_all, take-append-drop, append-nil,
  append_assoc, length-drop,
}
use alilua.Prelude.Int.{pos, leb_ℤ, add-sub_one}
use alilua.Network.Epd.{wait}
use alilua.Network.Write.{Answer, accepted, again, failed}
use alilua.Websocket.Frame.{frame_head}
use alilua.Websocket.Frame.RoundTrip.{length-frame_head-ge}
use alilua.Websocket.Transmit.{
  Link, start_write, ws_send_data, resumes, Written, finish, unsent, websocket_be_write,
}

-- `send` takes no more than it is handed.
abbrev pub FitsIn : ℕ → List Answer → Type 0
FitsIn left [] = Unit
FitsIn left (again ∷ rest) = Unit
FitsIn left (failed ∷ rest) = Unit
FitsIn left (accepted n ∷ rest) = (n ≤ left) × FitsIn (left - n) rest

drop_all : (n : ℕ) (xs : Bytes) → length xs ≤ n → drop n xs ≡ []
drop_all zero [] h = refl
drop_all zero (x ∷ xs) h = absurd (omega arith)
drop_all (suc n) [] h = refl
drop_all (suc n) (x ∷ xs) h = drop_all n xs (omega arith)

drop_add : (m n : ℕ) (xs : Bytes) → drop n (drop m xs) ≡ drop (m + n) xs
drop_add zero n xs = ap (λ k. drop k xs) (omega arith)
drop_add (suc m) n [] = drop_all n [] (omega arith) ∙ sym (drop_all (suc m + n) [] (omega arith))
drop_add (suc m) n (x ∷ xs) =
    let e : suc m + n ≡ suc (m + n) = omega arith in rw e (drop_add m n xs)

-- The bytes that `send` takes up to the first answer that is none.
abbrev pub total : List Answer → ℕ
total [] = 0
total (again ∷ rest) = 0
total (failed ∷ rest) = 0
total (accepted n ∷ rest) = n + total rest

-- A long payload that is under way.
abbrev writing : Link → Bytes → ℕ → Link
writing link payload done = record (start_write link payload) {
  data_len = length payload;
  sended = done;
}

writes_last :
    (link : Link) (wire payload : Bytes) (done : ℕ)
    → done ≡ length payload
    → finish (writing link payload done) wire
      ≡ finish (writing link payload (length payload)) (wire ++ drop done payload)
writes_last link wire payload done e = rw e (
    ap (finish (writing link payload (length payload))) (
      sym (append-nil wire)
      ∙ ap (λ t. wire ++ t) (sym (drop_all (length payload) payload (omega arith)))))

unsent-writing :
    (link : Link) (payload : Bytes) (done : ℕ)
    → unsent (writing link payload done) ≡ drop done payload
unfolding unsent start_write
unsent-writing link payload done =
    take_all (length payload - done) (drop done payload) (omega (arith, length-drop done payload))

writes_rest :
    (link : Link) (wire payload : Bytes) (done : ℕ) (answers : List Answer)
    → length payload < 2 ^ 32
    → done ≤ length payload
    → FitsIn (length payload - done) answers
    → length payload ≤ done + total answers
    → websocket_be_write (writing link payload done) wire answers
      ≡ finish (writing link payload (length payload)) (wire ++ drop done payload)
unfolding websocket_be_write start_write
writes_rest link wire payload done [] hp hd f h =
    let all : ltb done (length payload) ≡ false = ground arith in
    rw all (writes_last link wire payload done (omega arith))
writes_rest link wire payload done (again ∷ rest) hp hd f h =
    let all : ltb done (length payload) ≡ false = ground arith in
    rw all (writes_last link wire payload done (omega arith))
writes_rest link wire payload done (failed ∷ rest) hp hd f h =
    let all : ltb done (length payload) ≡ false = ground arith in
    rw all (writes_last link wire payload done (omega arith))
writes_rest link wire payload done (accepted n ∷ rest) hp hd (fits, f) h =
    let small : (done + n) % 2 ^ 32 ≡ done + n = omega arith in
    let left : length payload - done - n ≡ length payload - (done + n) = omega arith in
    rw (unsent-writing link payload done, small)
      (if_ind
        (λ (w : Written).
          w ≡ finish (writing link payload (length payload)) (wire ++ drop done payload))
        (ltb done (length payload))
        (λ more.
          writes_rest link (wire ++ take n (drop done payload)) payload (done + n) rest hp
            (omega arith) (coe 0 1 (i. FitsIn (left i) rest) f) (omega arith)
          ∙ ap (finish (writing link payload (length payload))) (
              append_assoc wire (take n (drop done payload)) (drop (done + n) payload)
              ∙ ap (λ t. wire ++ t)
                  (ap (λ t. take n (drop done payload) ++ t) (sym (drop_add done n payload))
                    ∙ take-append-drop n (drop done payload))))
        (λ all. writes_last link wire payload done (ground arith)))

writes_all :
    (link : Link) (head payload : Bytes) (answers : List Answer)
    → length payload < 2 ^ 32
    → FitsIn (length payload) answers
    → length payload ≤ total answers
    → websocket_be_write (start_write link payload) head answers ≡ record {
      link = record link {
        status = wait;
        contents = none;
        data_len = 2 ^ 32 - 1;
        sended = length payload;
      };
      wire = head ++ payload;
      ending = resumes true;
    }
unfolding start_write finish
writes_all link head payload answers hp f h =
    let small : length payload % 2 ^ 32 ≡ length payload = omega arith in
    let all : length payload - 0 ≡ length payload = omega arith in
    rw small (
      writes_rest link head payload 0 answers hp (omega arith)
        (coe 1 0 (i. FitsIn (all i) answers) f) (omega arith)
      ∙ rw (add-sub_one link.serv.sending_counts) refl)

-- A frame of 256 bytes or more, with less than 2 ^ 32 bytes of payload, whose head the socket takes
-- at once and whose payload it takes in any parts, without waiting: the bytes on the wire are the
-- head and the payload, Lua is told so, and the counters and the connection are as before, but for
-- what is kept of the payload.
pub ws_send_data-websocket_be_write :
    (link : Link) (fin rsv1 rsv2 rsv3 opcode : ℕ) (payload : Bytes) (answers : List Answer)
    → length payload < 2 ^ 32
    → 256 ≤ length (frame_head fin rsv1 rsv2 rsv3 opcode (length payload)) + length payload
    → FitsIn (length payload) answers
    → length payload ≤ total answers
    → websocket_be_write
        (ws_send_data link fin rsv1 rsv2 rsv3 opcode payload
          (pos (length (frame_head fin rsv1 rsv2 rsv3 opcode (length payload))))).link
        (ws_send_data link fin rsv1 rsv2 rsv3 opcode payload
          (pos (length (frame_head fin rsv1 rsv2 rsv3 opcode (length payload))))).wire
        answers
      ≡ record {
        link = record link {
          status = wait;
          contents = none;
          data_len = 2 ^ 32 - 1;
          sended = length payload;
        };
        wire = frame_head fin rsv1 rsv2 rsv3 opcode (length payload) ++ payload;
        ending = resumes true;
      }
unfolding ws_send_data
ws_send_data-websocket_be_write link fin rsv1 rsv2 rsv3 opcode payload answers hp hl f h =
    let head = frame_head fin rsv1 rsv2 rsv3 opcode (length payload) in
    let long : ltb (length head + length payload) 256 ≡ false = ground arith in
    let two = length-frame_head-ge fin rsv1 rsv2 rsv3 opcode (length payload) in
    let taken : leb_ℤ (pos (length head)) (pos 1) ≡ false = ground arith in
    rw (long, taken, take_all (length head) head (omega arith))
      (writes_all link head payload answers hp f h)
