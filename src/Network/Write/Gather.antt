-- ===== src/Network/Write/Gather.antt =====
-- `writev` is handed the part of the response that was not sent yet.
use alilua.Prelude.{
  ℕ, zero, suc, ◌+◌, ◌-◌, ◌<◌, ◌≤◌, ◌≡◌, refl, sym, ap, ap₂, ◌∙◌, true, false, inl, inr, List, [],
  ◌∷◌, ◌++◌, Bytes, length, drop, ltb, leb, if◌then◌else◌, arith, Bool-cases, append-nil,
  append_assoc, drop-nil, ltb→lt,
}
use alilua.Prelude.Int.{ℤ, pos, negsuc, pos_part}
use alilua.Network.Epd.{Epd}
use alilua.Network.Write.{buffers, next_k, gather, skip_sent, send_iov, concat}

next_k-pos_part :
    (done sended : ℕ) (k : ℤ) → done < sended → pos_part (next_k done sended k) ≡ pos_part k
unfolding next_k
next_k-pos_part done sended k h = ground arith

concat-append : (xs ys : List Bytes) → concat (xs ++ ys) ≡ concat xs ++ concat ys
concat-append [] ys = refl
concat-append (x ∷ xs) ys =
    ap (λ t. x ++ t) (concat-append xs ys) ∙ sym (append_assoc x (concat xs) (concat ys))

concat-skip_sent :
    (b : Bytes) (taken : List Bytes) (k : ℤ)
    → concat (skip_sent ((b ∷ taken), k)) ≡ drop (pos_part k) b ++ concat taken
unfolding skip_sent
concat-skip_sent b taken (pos zero) = refl
concat-skip_sent b taken (pos (suc n)) =
    let positive : leb (suc n + 0) 0 ≡ false = ground arith in rw positive refl
concat-skip_sent b taken (negsuc n) =
    let negative : leb 0 (0 + suc n) ≡ true = ground arith in rw negative refl

-- Once the first buffer is chosen, all later ones are taken whole, and the cut in the first stays.
gather_rest :
    (done sended : ℕ) (k : ℤ) (b : Bytes) (taken bufs : List Bytes)
    → done < sended
    → concat (skip_sent (gather done sended k (b ∷ taken) bufs))
      ≡ drop (pos_part k) b ++ (concat taken ++ concat bufs)
unfolding gather
gather_rest done sended k b taken [] h =
    concat-skip_sent b taken k
    ∙ ap (λ t. drop (pos_part k) b ++ t) (sym (append-nil (concat taken)))
gather_rest done sended k b taken (c ∷ bufs) h =
    let passed : ltb done (sended + length c) ≡ true = ground arith in
    rw passed (
      gather_rest done (sended + length c) (next_k done sended k) b (taken ++ c ∷ []) bufs
        (omega arith)
      ∙ ap₂ (λ n t. drop n b ++ t) (next_k-pos_part done sended k h)
          (ap (λ t. t ++ concat bufs) (concat-append taken (c ∷ []))
            ∙ append_assoc (concat taken) (c ++ []) (concat bufs)
            ∙ ap (λ t. concat taken ++ (t ++ concat bufs)) (append-nil c)))

drop-append_le : (n : ℕ) (xs ys : Bytes) → n ≤ length xs → drop n (xs ++ ys) ≡ drop n xs ++ ys
drop-append_le zero xs ys h = refl
drop-append_le (suc n) [] ys h = absurd (omega arith)
drop-append_le (suc n) (x ∷ xs) ys h = drop-append_le n xs ys (omega arith)

drop-append_ge :
    (n : ℕ) (xs ys : Bytes) → length xs ≤ n → drop n (xs ++ ys) ≡ drop (n - length xs) ys
drop-append_ge n [] ys h = ap (λ m. drop m ys) (omega arith)
drop-append_ge zero (x ∷ xs) ys h = absurd (omega arith)
drop-append_ge (suc n) (x ∷ xs) ys h =
    drop-append_ge n xs ys (omega arith) ∙ ap (λ m. drop m ys) (omega arith)

next_k_first :
    (done sended : ℕ) → sended ≤ done → pos_part (next_k done sended (pos 0)) ≡ done - sended
unfolding next_k
next_k_first done sended h = ground arith

-- Before that, buffers that were sent whole are passed over.
gather_first :
    (done sended : ℕ) (bufs : List Bytes)
    → sended ≤ done
    → concat (skip_sent (gather done sended (pos 0) [] bufs)) ≡ drop (done - sended) (concat bufs)
unfolding gather
gather_first done sended [] h = unfold skip_sent in sym (drop-nil ℕ (done - sended))
gather_first done sended (b ∷ bufs) h = elim (Bool-cases (ltb done (sended + length b))) [
  | inl e ↦ rw e (
      gather_rest done (sended + length b) (next_k done sended (pos 0)) b [] bufs (ltb→lt _ _ e)
      ∙ ap (λ n. drop n b ++ concat bufs) (next_k_first done sended h)
      ∙ sym (drop-append_le (done - sended) b (concat bufs) (ground arith)))
  | inr e ↦ rw e (
      gather_first done (sended + length b) bufs (ground arith)
      ∙ ap (λ n. drop n (concat bufs)) (omega arith)
      ∙ sym (drop-append_ge (done - sended) b (concat bufs) (ground arith)))
]

-- The response that is being sent: the buffers behind one another.
abbrev pub message : Epd → Bytes
message epd = concat (buffers epd)

-- With `k` at 0, `writev` is handed exactly the bytes of the response that were not sent yet.
pub concat-send_iov :
    (epd : Epd) → concat (send_iov epd (pos 0)) ≡ drop epd.response_buf_sended (message epd)
unfolding send_iov
concat-send_iov epd =
    gather_first epd.response_buf_sended 0 (buffers epd) (omega arith)
    ∙ ap (λ n. drop n (message epd)) (omega arith)

-- The buffers from the first one that is not sent in full, each in full.
abbrev pub unsent : ℕ → ℕ → List Bytes → List Bytes
unsent done sended [] = []
unsent done sended (b ∷ bufs) =
    let rest = unsent done (sended + length b) bufs in
    if ltb done (sended + length b) then b ∷ bufs else rest

next_k_below : (done sended j : ℕ) → next_k done sended (negsuc j) ≡ negsuc j
unfolding next_k
next_k_below done sended j = ground arith

gather_below :
    (done sended j : ℕ) (bufs : List Bytes)
    → concat (skip_sent (gather done sended (negsuc j) [] bufs)) ≡ concat (unsent done sended bufs)
unfolding gather
gather_below done sended j [] = unfold skip_sent in refl
gather_below done sended j (b ∷ bufs) = elim (Bool-cases (ltb done (sended + length b))) [
  | inl e ↦
      rw (e, next_k_below done sended j)
        (gather_rest done (sended + length b) (negsuc j) b [] bufs (ltb→lt _ _ e))
  | inr e ↦ rw e (gather_below done (sended + length b) j bufs)
]

-- With `k` below zero, `writev` is handed the buffers from the first one that is not sent in full,
-- each from its first byte, though a part of it may have been sent.
pub concat-send_iov_below :
    (epd : Epd) (j : ℕ)
    → concat (send_iov epd (negsuc j)) ≡ concat (unsent epd.response_buf_sended 0 (buffers epd))
unfolding send_iov
concat-send_iov_below epd j = gather_below epd.response_buf_sended 0 j (buffers epd)
