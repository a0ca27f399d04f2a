-- ===== src/Network/Build/Ready.antt =====
-- Completing the head keeps the response ready to be sent.
use alilua.Prelude.{
  ◌||◌, not, ap₂, Bool, true, ℕ, zero, suc, ◌≡◌, refl, sym, ap, ◌∙◌, false, Option, some, inl, inr,
  Bytes, codes, length, update, ◌==◌, arith, Option-cases, if_ind, update_ne, Bool-cases, none,
  ◌&&◌, if◌then◌else◌,
}
use alilua.Prelude.Int.{pos}
use alilua.Network.Epd.{Epd, body}
use alilua.Network.Chunk.Ready.{
  IsReady, network_add_chunk_metas-IsReady, network_add_chunk_metas-keeps,
}
use alilua.Network.Send.Buffers.{contents}
use alilua.Network.Chunk.{is_http_11}
use alilua.Network.Chunk.Framed.{whole_chunked, network_add_chunk_metas-as_chunk}
use alilua.Network.Build.{
  Site, network_build_header_out, look_through, asks_close, add_metas, complete,
}

pub body_put_head :
    (iov : ℕ → Option Bytes) (v : Option Bytes) (n : ℕ) → body (update iov 0 v) n ≡ body iov n
body_put_head iov v zero = refl
body_put_head iov v (suc n) =
    rw (body_put_head iov v n, update_ne iov 0 v (suc n) (omega arith)) refl

crossed-IsReady :
    (epd : Epd) (head : Bytes)
    → IsReady epd
    → IsReady (record epd { iov = update epd.iov 0 (some head) })
crossed-IsReady epd head r = record {
  first = r.first;
  has_first = update_ne epd.iov 0 (some head) 1 (omega arith) ∙ r.has_first;
  is_some = r.is_some;
  last = r.last;
  count_is = r.count_is;
  counted = r.counted ∙ ap length (sym (body_put_head epd.iov (some head) epd.iov_buf_count));
}

closed-IsReady : (epd : Epd) → IsReady epd → IsReady (record epd { keepalive = pos 0 })
closed-IsReady epd r = record {
  first = r.first;
  has_first = r.has_first;
  is_some = r.is_some;
  last = r.last;
  count_is = r.count_is;
  counted = r.counted;
}

-- What the end of a response needs of it.
abbrev pub Waits : Epd → Type 0
Waits epd = IsReady epd × (epd.header_sended ≡ 0) × (epd.sendfile ≡ false)

or_false : (b : Bool) → (b || false) ≡ b
or_false true = refl
or_false false = refl

or_true : (b : Bool) → (b || true) ≡ true
or_true true = refl
or_true false = refl

module _ (site : Site) where
  add_metas-Waits :
      (http_ver : Option Bytes) (has : ℕ) (epd : Epd)
      → Waits epd
      → Waits (add_metas site http_ver has epd)
  unfolding add_metas
  add_metas-Waits http_ver has epd (r, h, s) =
      let (kh, ks, kb) =
        network_add_chunk_metas-keeps site.ep_d_buf_size site.ultostr http_ver epd in
      if_ind Waits (has == 2)
        (λ e. (
          network_add_chunk_metas-IsReady site.ep_d_buf_size site.ultostr http_ver epd r,
          kh ∙ h,
          ks ∙ s,
        ))
        (λ e. (r, h, s))

  -- Whether a head names something, in any case.
  abbrev names : Bytes → Bytes → Bool
  names head text = elim (site.stristr head text (length head)) [ none ↦ false | some i ↦ true ]

  -- The body is to be chunked: by an earlier choice, or since the head names a transfer coding and no
  -- length.
  abbrev pub is_chunked : Bytes → ℕ → Bool
  is_chunked head has =
      has == 2
      || (not (names head (codes "content-length:")) && names head (codes "transfer-encoding:"))

  -- The body as it is to go out with the head that the program has set.
  abbrev pub body_out : Option Bytes → Option Bytes → ℕ → Bytes → Bytes
  body_out none http_ver has text = text
  body_out (some head) http_ver has text =
      if is_chunked head has && is_http_11 http_ver then whole_chunked site.ultostr text else text

  look_through-is_chunked :
      (has : ℕ) (head : Bytes) → ((look_through site has head).1 == 2) ≡ is_chunked head has
  unfolding look_through
  look_through-is_chunked has head =
      elim (Option-cases (site.stristr head (codes "content-length:") (length head))) [
        | inl e ↦
            elim (Option-cases (site.stristr head (codes "transfer-encoding:") (length head))) [
              | inl t ↦ rw (e, look_through, names, t) (sym (or_false (has == 2)))
              | inr (i, t) ↦ rw (e, look_through, names, t) (sym (or_true (has == 2)))
            ]
        | inr (i, e) ↦ rw (e, look_through, names) (sym (or_false (has == 2)))
      ]

  contents-add_metas :
      (http_ver : Option Bytes) (has : ℕ) (epd : Epd)
      → Waits epd
      → contents (add_metas site http_ver has epd) ≡ (
          if has == 2 && is_http_11 http_ver
          then whole_chunked site.ultostr (contents epd)
          else contents epd)
  unfolding add_metas
  contents-add_metas http_ver has epd (r, h, s) = elim (Bool-cases (has == 2)) [
    | inl e ↦ rw e (
        network_add_chunk_metas-as_chunk site.ep_d_buf_size site.ultostr http_ver epd r ∙ rw h refl)
    | inr e ↦ rw e refl
  ]

  contents-complete :
      (has : ℕ) (head : Bytes) (epd : Epd) → contents (complete site has head epd).0 ≡ contents epd
  unfolding complete
  contents-complete has head epd =
      elim (Option-cases (site.stristr head (codes "Connection:") (length head))) [
        | inl e ↦ rw (e, complete) refl
        | inr (p, e) ↦
            rw (e, complete)
              (if_ind (λ (x : Epd). contents x ≡ contents epd) (asks_close site head p) (λ c. refl)
                (λ c. refl))
      ]

  pub network_build_header_out-body_out :
      (http_ver : Option Bytes) (has : ℕ) (epd : Epd)
      → Waits epd
      → contents (network_build_header_out site http_ver has epd).0
        ≡ body_out (epd.iov 0) http_ver has (contents epd)
  unfolding network_build_header_out
  network_build_header_out-body_out http_ver has epd (r, h, s) = elim (Option-cases (epd.iov 0)) [
    | inl e ↦ rw (e, network_build_header_out) refl
    | inr (given, e) ↦
        rw (e, network_build_header_out)
          (let head = (look_through site has given).0 in
            let has' = (look_through site has given).1 in
            let crossed = record epd { iov = update epd.iov 0 (some head) } in
            contents-complete has' head (add_metas site http_ver has' crossed)
            ∙ contents-add_metas http_ver has' crossed (crossed-IsReady epd head r, h, s)
            ∙ ap₂
                (λ (b : Bool) (t : Bytes).
                  if b && is_http_11 http_ver then whole_chunked site.ultostr t else t)
                (look_through-is_chunked has given)
                (body_put_head epd.iov (some head) epd.iov_buf_count))
  ]

  complete-Waits :
      (has : ℕ) (head : Bytes) (epd : Epd) → Waits epd → Waits (complete site has head epd).0
  unfolding complete
  complete-Waits has head epd (r, h, s) =
      elim (Option-cases (site.stristr head (codes "Connection:") (length head))) [
        | inl e ↦ rw (e, complete) ((r, h, s))
        | inr (p, e) ↦
            rw (e, complete)
              (if_ind Waits (asks_close site head p) (λ c. (closed-IsReady epd r, h, s))
                (λ c. (r, h, s)))
      ]

  pub network_build_header_out-Waits :
      (http_ver : Option Bytes) (has : ℕ) (epd : Epd)
      → Waits epd
      → Waits (network_build_header_out site http_ver has epd).0
  unfolding network_build_header_out
  network_build_header_out-Waits http_ver has epd (r, h, s) = elim (Option-cases (epd.iov 0)) [
    | inl e ↦ rw (e, network_build_header_out) ((r, h, s))
    | inr (given, e) ↦
        rw (e, network_build_header_out)
          (let head = (look_through site has given).0 in
            let has' = (look_through site has given).1 in
            let crossed = record epd { iov = update epd.iov 0 (some head) } in
            complete-Waits has' head (add_metas site http_ver has' crossed)
              (add_metas-Waits http_ver has' crossed (crossed-IsReady epd head r, h, s)))
  ]
